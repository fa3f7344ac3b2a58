-- ===== src/Cleaner/Lookup.antt =====
-- internal/cleaner/cleaner.go: what the operations on the index make of each of its messages.
use langolier_bot.Base.{
  ℕ, false, Option, none, some, List, [], ◌∷◌, ◌≡◌, refl, ◌&&◌, not, nat_eq, if◌then◌else◌, ◌==◌,
  contains, arith, Option-cases, inl, inr,
}
use langolier_bot.Base.Int.{ℤ, pos, int_eq, int_beq_iff, ltb_ℤ}
use langolier_bot.Base.Maps.{
  lookup, insert, delete, keys, lookup-insert, lookup-delete, contains-keys,
}
use langolier_bot.Base.Text.{Text}
use langolier_bot.Chatcfg.Config.{matches}
use langolier_bot.Chatcfg.Store.{Store, get}
use langolier_bot.Cleaner.State.{
  Cleaner, Index, Messages, deletes, messages, index_message, delete_all, store_messages,
  remove_locked, remove_common, is_common, on_deleted, on_own_message,
}

-- index[marked][id]: the send time of a message, if it is in the index.
abbrev pub sent_at : Index → ℤ → ℕ → Option ℕ
sent_at index marked id = lookup id (messages index marked)

sent_at-insert :
    (index : Index) (marked j : ℤ) (m : Messages) (id : ℕ)
    → sent_at (insert marked m index) j id
      ≡ (if marked == j then lookup id m else sent_at index j id)
sent_at-insert index marked j m id = ground (arith, lookup-insert marked j m index)

pub sent_at-delete :
    (index : Index) (marked j : ℤ) (id : ℕ)
    → sent_at (delete marked index) j id ≡ (if marked == j then none else sent_at index j id)
unfolding lookup
sent_at-delete index marked j id = ground (arith, lookup-delete marked j index)

-- A message that is recorded is found with its time, and all others are as before.
pub sent_at-index_message :
    (c : Cleaner) (marked j : ℤ) (msg_id id date : ℕ)
    → sent_at (index_message marked msg_id date c).index j id
      ≡ (if (marked == j) && (msg_id == id) then some date else sent_at c.index j id)
unfolding index_message
sent_at-index_message c marked j msg_id id date = ground (
  arith,
  sent_at-insert c.index marked j (insert msg_id date (messages c.index marked)) id,
  lookup-insert msg_id id date (messages c.index marked),
  int_beq_iff marked j,
)

lookup-delete_all :
    (ids : List ℕ) (m : Messages) (id : ℕ)
    → lookup id (delete_all ids m) ≡ (if contains ids id then none else lookup id m)
unfolding delete_all
lookup-delete_all [] m id = refl
lookup-delete_all (x ∷ ids) m id =
    ground (arith, lookup-delete_all ids (delete x m) id, lookup-delete x id m)

sent_at-store_messages :
    (index : Index) (marked j : ℤ) (m : Messages) (id : ℕ)
    → sent_at (store_messages marked m index) j id
      ≡ (if marked == j then lookup id m else sent_at index j id)
unfolding lookup
sent_at-store_messages index marked j [] id = sent_at-delete index marked j id
sent_at-store_messages index marked j (x ∷ m) id = sent_at-insert index marked j (x ∷ m) id

no_messages :
    (index : Index) (marked : ℤ) (id : ℕ)
    → lookup marked index ≡ none
    → sent_at index marked id ≡ none
unfolding lookup
no_messages index marked id e = ground arith

-- removeLocked forgets the given messages of its chat, and no others.
pub sent_at-remove_locked :
    (index : Index) (marked j : ℤ) (ids : List ℕ) (id : ℕ)
    → sent_at (remove_locked marked ids index) j id
      ≡ (if (marked == j) && contains ids id then none else sent_at index j id)
unfolding remove_locked
sent_at-remove_locked index marked j ids id = elim (Option-cases (lookup marked index)) [
  | inl e ↦
      rw (e, remove_locked) (ground (arith, int_beq_iff marked j, no_messages index marked id e))
  | inr (m, e) ↦
      rw (e, remove_locked)
        (ground (
          arith,
          sent_at-store_messages index marked j (delete_all ids m) id,
          lookup-delete_all ids m id,
          int_beq_iff marked j,
        ))
]

sent_at-remove_common :
    (chats : List ℤ) (index : Index) (j : ℤ) (ids : List ℕ) (id : ℕ)
    → sent_at (remove_common chats ids index) j id
      ≡ (if contains chats j && (is_common j && contains ids id) then none else sent_at index j id)
unfolding remove_common
sent_at-remove_common [] index j ids id = refl
sent_at-remove_common (marked ∷ chats) index j ids id = ground (
  arith,
  int_beq_iff marked j,
  sent_at-remove_common chats (if is_common marked then remove_locked marked ids index else index) j
      ids id,
  sent_at-remove_locked index marked j ids id,
)

-- A chat with no entry has no messages.
sent_at-missing :
    (index : Index) (j : ℤ) (id : ℕ) → contains (keys index) j ≡ false → sent_at index j id ≡ none
sent_at-missing index j id h = ground (arith, contains-keys j index, no_messages index j id)

-- OnDeleted forgets the given messages of the given chat, or, for chat 0, the given messages of
-- every chat that is neither a supergroup nor a channel; it forgets nothing else.
pub sent_at-on_deleted :
    (c : Cleaner) (marked j : ℤ) (ids : List ℕ) (id : ℕ)
    → sent_at (on_deleted marked ids c).index j id ≡ (
        if (if marked == pos 0 then is_common j else (marked == j)) && contains ids id
        then none
        else sent_at c.index j id)
unfolding on_deleted
sent_at-on_deleted c marked j ids id = ground (
  arith,
  sent_at-remove_locked c.index marked j ids id,
  sent_at-remove_common (keys c.index) c.index j ids id,
  sent_at-missing c.index j id,
)

-- What a new own message leads to: one that matches a pattern is deleted at once and not indexed;
-- any other one is indexed with its time if its chat has a positive TTL, and otherwise nothing is
-- done. No other message of the index changes.
pub on_own_message_lem :
    (cfg : Store) (marked j : ℤ) (msg_id id date : ℕ) (text : Text) (c : Cleaner)
    → let chat = get cfg marked in
      let r = on_own_message cfg marked msg_id date text c in
      (sent_at r.0.index j id ≡ (
        if not (matches chat text)
          && (ltb_ℤ (pos 0) chat.ttl_minutes && ((marked == j) && (msg_id == id)))
        then some date
        else sent_at c.index j id))
      × (r.1 ≡ (if matches chat text then deletes marked (msg_id ∷ []) ∷ [] else []))
unfolding on_own_message
on_own_message_lem cfg marked j msg_id id date text c =
    (ground (arith, sent_at-index_message c marked j msg_id id date), ground arith)
