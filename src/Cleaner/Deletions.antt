-- ===== src/Cleaner/Deletions.antt =====
-- internal/tgclient/tgclient.go and internal/cleaner/cleaner.go: from an update about deleted messages
-- to the index, through the callback that cmd/langolier/main.go sets.
use langolier_bot.Base.{
  ℕ, ◌&&◌, Bool, true, false, none, List, [], ◌∷◌, ◌≡◌, refl, arith, contains, ◌==◌, if◌then◌else◌,
  nat_eq, Bool-cases, inl, inr, ◌∙◌, length, ltb, sym, ap,
}
use langolier_bot.Base.Int.{ℤ, pos, negsuc, ◌-ℤ◌, ltb_ℤ, int_eq, int_beq_iff}
use langolier_bot.Tgclient.Ids.{mark_channel, mark_chat, IsBare, marks_apart, channel_id_shift}
use langolier_bot.Tgclient.Updates.{
  delete_messages, delete_channel_messages, Call, own_message, deleted_messages, membership,
  Callbacks, handle, fire_deleted,
}
use langolier_bot.Cleaner.State.{Cleaner, on_deleted, is_common}
use langolier_bot.Cleaner.Lookup.{sent_at, sent_at-on_deleted}

abbrev pub all_set : Callbacks
all_set = record { on_own = true; on_del = true; on_membership = true }

-- The callback for deleted messages is OnDeleted; the other calls delete nothing from the index.
abbrev pub forget : List Call → Cleaner → Cleaner
forget [] c = c
forget (deleted_messages marked ids ∷ calls) c = forget calls (on_deleted marked ids c)
forget (own_message marked id date text ∷ calls) c = forget calls c
forget (membership ∷ calls) c = forget calls c

abbrev pub Forgets : Bool → Cleaner → Cleaner → ℤ → List ℕ → ℕ → Type 0
Forgets test before after marked ids id =
    sent_at after.index marked id
    ≡ (if test && contains ids id then none else sent_at before.index marked id)

forget-deleted :
    (c : Cleaner) (marked j : ℤ) (ids : List ℕ) (id : ℕ) (test : Bool)
    → (if marked == pos 0 then is_common j else (marked == j)) ≡ test
    → Forgets test c (forget (fire_deleted all_set marked ids) c) j ids id
unfolding fire_deleted
forget-deleted c marked j [] id test e = ground arith
forget-deleted c marked j (x ∷ ids) id test e =
    let nonempty : ltb 0 (length (x ∷ ids)) ≡ true = ground arith in
    rw nonempty (
      sent_at-on_deleted c marked j (x ∷ ids) id
      ∙ ap (λ b. if b && contains (x ∷ ids) id then none else sent_at c.index j id) e)

abbrev IsBelow : ℤ → Bool → Type 0
IsBelow z b = ltb_ℤ z (pos 0 -ℤ channel_id_shift) ≡ b

below-nonzero : (z : ℤ) → IsBelow z true → (z == pos 0) ≡ false
below-nonzero (pos n) h = ground arith
below-nonzero (negsuc n) h = refl

below-apart : (z w : ℤ) → IsBelow z true → IsBelow w false → (z == w) ≡ false
below-apart z w h k = elim (Bool-cases (z == w)) [
  | inl e ↦ let same : z ≡ w = (int_beq_iff z w).0 e in absurd cc
  | inr e ↦ e
]

same_test : (z w i j : ℤ) → (z ≡ w → i ≡ j) → (i ≡ j → z ≡ w) → (z == w) ≡ (i == j)
same_test z w i j f g = elim (Bool-cases (i == j)) [
  | inl e ↦ (int_beq_iff z w).1 (g ((int_beq_iff i j).0 e)) ∙ sym e
  | inr e ↦ elim (Bool-cases (z == w)) [
    | inl d ↦ let q : (i == j) ≡ true = (int_beq_iff i j).1 (f ((int_beq_iff z w).0 d)) in absurd cc
    | inr d ↦ d ∙ sym e
  ]
]

-- An update about deleted messages of a channel makes the cleaner forget them in that channel and in
-- no other channel or basic group; one about deleted messages without a channel makes it forget them
-- in every basic group and in no channel.
pub deletion_update :
    (c : Cleaner) (i j : ℤ) (ids : List ℕ) (id : ℕ)
    → IsBare i
    → IsBare j
    → let in_channel = forget (handle all_set (delete_channel_messages i ids)) c in
      let in_groups = forget (handle all_set (delete_messages ids)) c in
      Forgets (i == j) c in_channel (mark_channel j) ids id
      × Forgets false c in_channel (mark_chat j) ids id
      × Forgets false c in_groups (mark_channel j) ids id
      × Forgets true c in_groups (mark_chat j) ids id
unfolding handle
deletion_update c i j ids id hi hj =
    let (below_i, above_i, same, same_chat) = marks_apart i j hi hj in
    let (below_j, above_j, same_j, same_chat_j) = marks_apart j i hj hi in
    let nonzero = below-nonzero (mark_channel i) below_i in
    let apart = below-apart (mark_channel i) (mark_chat j) below_i above_j in
    let test = same_test (mark_channel i) (mark_channel j) i j same (λ e. ap mark_channel e) in
    (
      forget-deleted c (mark_channel i) (mark_channel j) ids id (i == j) (rw nonzero test),
      forget-deleted c (mark_channel i) (mark_chat j) ids id false (rw nonzero apart),
      forget-deleted c (pos 0) (mark_channel j) ids id false (rw below_j refl),
      forget-deleted c (pos 0) (mark_chat j) ids id true (rw above_j refl),
    )
