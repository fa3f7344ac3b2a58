-- ===== src/Tgclient/Delete/Batches.antt =====
-- internal/tgclient/tgclient.go: the batches of chunkInts and the requests of Client.Delete.
use langolier_bot.Base.{
  false, ℕ, zero, suc, ◌+◌, ◌-◌, ◌≤◌, ◌<◌, true, Option, none, some, List, [], ◌∷◌, ◌++◌, ◌≡◌, refl,
  sym, ◌∙◌, ap, length, take, drop, ltb, if◌then◌else◌, All, arith, flatten, take-drop-append,
  drop-all, length-take, length-drop, Bool-cases, inl, inr, contains, nat_eq, contains-append,
  length-append, subst,
}
use mathlib.Core.List.{append_assoc, append-nil, map}
use langolier_bot.Base.Text.{Text}
use langolier_bot.Tgclient.Group.{Group}
use langolier_bot.Tgclient.Delete.{
  chunks_from, chunk_ints, slice, after_chunk, DeleteRequest, channels_delete, messages_delete,
  delete, delete_chunks, delete_batch, request,
}

module _ {ℓ} {A : Type ℓ} where
  slice_end : List A → ℕ → ℕ → ℕ
  slice_end s n i = if ltb (length s) (i + n) then length s else i + n

  slice-drop :
      (s : List A) (n i : ℕ)
      → i < length s
      → slice s i (slice_end s n i) ++ drop (i + n) s ≡ drop i s
  unfolding slice_end
  slice-drop s n i h = elim (Bool-cases (ltb (length s) (i + n))) [
    | inl e ↦ rw e (
        ap (λ (t : List A). take (length s - i) (drop i s) ++ t)
          (drop-all (i + n) s (ground arith) ∙ sym (drop-all (i + (length s - i)) s (omega arith)))
        ∙ take-drop-append i (length s - i) s)
    | inr e ↦ let q : i + n - i ≡ n = omega arith in rw (e, q) (take-drop-append i n s)
  ]

  -- A batch that a list of at most `n` elements fills.
  abbrev pub IsBatch : ℕ → List A → Type 0
  IsBatch n c = (0 < length c) × (length c ≤ n)

  length-slice :
      (s : List A) (n i : ℕ) → 0 < n → i < length s → IsBatch n (slice s i (slice_end s n i))
  unfolding slice_end
  length-slice s n i p h =
      ground (arith, length-take (slice_end s n i - i) (drop i s), length-drop i s)

  chunks_from-flatten :
      (fuel : ℕ) (s : List A) (n i : ℕ)
      → 0 < n
      → length s ≤ i + fuel
      → (flatten (chunks_from fuel s n i) ≡ drop i s) × All (IsBatch n) (chunks_from fuel s n i)
  unfolding chunks_from slice_end
  chunks_from-flatten zero s n i p h = (sym (drop-all i s (omega arith)), tt)
  chunks_from-flatten (suc fuel) s n i p h = elim (Bool-cases (ltb i (length s))) [
    | inl e ↦
        let (covers, batches) = chunks_from-flatten fuel s n (i + n) p (omega arith) in
        rw e (
          ap (λ (t : List A). slice s i (slice_end s n i) ++ t) covers
              ∙ slice-drop s n i (ground arith),
          (length-slice s n i p (ground arith), batches),
        )
    | inr e ↦ rw e (sym (drop-all i s (ground arith)), tt)
  ]

  chunk_ints-loop : (s : List A) (n : ℕ) → 0 < n → chunk_ints s n ≡ chunks_from (length s) s n 0
  unfolding chunk_ints
  chunk_ints-loop [] n p = ground arith
  chunk_ints-loop (x ∷ s) n p = ground arith

  -- The batches are the list in order, cut into pieces that are not empty and not too long.
  pub chunk_ints-flatten :
      (s : List A) (n : ℕ)
      → 0 < n
      → (flatten (chunk_ints s n) ≡ s) × All (IsBatch n) (chunk_ints s n)
  unfolding chunk_ints
  chunk_ints-flatten s n p =
      rw (chunk_ints-loop s n p) (chunks_from-flatten (length s) s n 0 p (omega arith))

-- The message ids of a request.
abbrev pub ids_of : DeleteRequest → List ℕ
ids_of (channels_delete c ids) = ids
ids_of (messages_delete revoke ids) = ids

ids_of-request : (g : Group) (c : List ℕ) → ids_of (request g c) ≡ c
ids_of-request g c = ground arith

-- A server that answers each request as it likes, from all earlier ones, and records it.
abbrev pub recording :
    (List DeleteRequest → DeleteRequest → Option Text)
    → DeleteRequest
    → List DeleteRequest
    → Option Text × List DeleteRequest
recording answer r log = (answer log r, log ++ r ∷ [])

-- A request for the kind of a group, with the bare id and the access hash of a channel, and with revoke
-- for a basic group.
abbrev pub IsFor : Group → DeleteRequest → Type 0
IsFor g (channels_delete (id, access_hash) ids) =
    (g.is_channel ≡ true) × (id ≡ g.raw_id) × (access_hash ≡ g.access_hash) × IsBatch 100 ids
IsFor g (messages_delete revoke ids) = (g.is_channel ≡ false) × (revoke ≡ true) × IsBatch 100 ids

request-IsFor : (g : Group) (c : List ℕ) → IsBatch 100 c → IsFor g (request g c)
request-IsFor g c h = elim (Bool-cases g.is_channel) [
  | inl e ↦ rw e (refl, refl, refl, h)
  | inr e ↦ rw e (refl, refl, h)
]

module _ (answer : List DeleteRequest → DeleteRequest → Option Text) (g : Group) where
  delete_chunks-log :
      (chunks : List (List ℕ)) (acc : List ℕ × Option Text) (log : List DeleteRequest)
      → (delete_chunks (recording answer) g chunks acc log).1 ≡ log ++ map (request g) chunks
  unfolding delete_chunks
  delete_chunks-log [] acc log = sym (append-nil log)
  delete_chunks-log (c ∷ chunks) acc log =
      delete_chunks-log chunks _ (log ++ request g c ∷ [])
      ∙ append_assoc log (request g c ∷ []) (map (request g) chunks)

  flatten-ids_of :
      (chunks : List (List ℕ)) → flatten (map ids_of (map (request g) chunks)) ≡ flatten chunks
  flatten-ids_of [] = refl
  flatten-ids_of (c ∷ chunks) = cc (ids_of-request g c, flatten-ids_of chunks)

  All-IsFor :
      (chunks : List (List ℕ))
      → All (IsBatch delete_batch) chunks
      → All (IsFor g) (map (request g) chunks)
  All-IsFor [] h = tt
  All-IsFor (c ∷ chunks) h = (request-IsFor g c h.0, All-IsFor chunks h.1)

  -- While the client runs, Delete asks the server to delete every id once and in order, whatever the
  -- server answers: the ids of its requests, put together, are the ids that it was given. Each
  -- request has between one and a hundred ids; it is one for the messages of a channel, by the id and
  -- the access hash of the group, if the group is a channel, and else one for the messages of the
  -- account, which are deleted for everybody.
  pub delete-requests :
      (ids : List ℕ)
      → let log = (delete (recording answer) true g ids []).1 in
        (flatten (map ids_of log) ≡ ids) × All (IsFor g) log
  unfolding delete
  delete-requests ids =
      let (covers, batches) = chunk_ints-flatten ids delete_batch (omega arith) in
      rw (delete_chunks-log (chunk_ints ids delete_batch) ([], none) []) (
        flatten-ids_of (chunk_ints ids delete_batch) ∙ covers,
        All-IsFor (chunk_ints ids delete_batch) batches,
      )

-- What is known of the failed ids and the last error when some of `ids` have been tried.
abbrev pub Accounts : List ℕ → List ℕ × Option Text → Type 0
Accounts ids (failed, err) =
    ((id : ℕ) → contains failed id ≡ true → contains ids id ≡ true)
    × (err ≡ none → failed ≡ [])
    × (failed ≡ [] → err ≡ none)

after_chunk-Accounts :
    (ids : List ℕ) (acc : List ℕ × Option Text) (c : List ℕ) (e : Option Text)
    → IsBatch delete_batch c
    → ((id : ℕ) → contains c id ≡ true → contains ids id ≡ true)
    → Accounts ids acc
    → Accounts ids (after_chunk acc.0 acc.1 c e)
after_chunk-Accounts ids acc c none b h a = a
after_chunk-Accounts ids acc c (some e) b h a = (
  λ id m. ground (arith, contains-append id acc.0 c, a.0 id, h id),
  λ q. cc,
  λ q. absurd (omega (arith, ap (length {A = ℕ}) q, length-append acc.0 c)),
)

module _ {W : Type 0} (rpc : DeleteRequest → W → Option Text × W) (g : Group) where
  delete_chunks-Accounts :
      (chunks : List (List ℕ)) (acc : List ℕ × Option Text) (w : W) (ids : List ℕ)
      → All (IsBatch delete_batch) chunks
      → ((id : ℕ) → contains (flatten chunks) id ≡ true → contains ids id ≡ true)
      → Accounts ids acc
      → Accounts ids (delete_chunks rpc g chunks acc w).0
  unfolding delete_chunks
  delete_chunks-Accounts [] acc w ids b h a = a
  delete_chunks-Accounts (c ∷ chunks) acc w ids b h a =
      let (e, w') = rpc (request g c) w in
      delete_chunks-Accounts chunks (after_chunk acc.0 acc.1 c e) w' ids b.1
        (λ id m. h id (ground (arith, contains-append id c (flatten chunks))))
        (after_chunk-Accounts ids acc c e b.0
          (λ id m. h id (ground (arith, contains-append id c (flatten chunks)))) a)

  -- While the client runs, the ids that Delete returns as failed are among those that it was given,
  -- and there are some exactly if it returns an error.
  pub delete-Accounts : (ids : List ℕ) (w : W) → Accounts ids (delete rpc true g ids w).0
  unfolding delete
  delete-Accounts ids w =
      let (covers, batches) = chunk_ints-flatten ids delete_batch (omega arith) in
      delete_chunks-Accounts (chunk_ints ids delete_batch) ([], none) w ids batches
        (λ id m. subst (λ s. contains s id ≡ true) covers m) (λ id m. cc, λ q. refl, λ q. refl)
