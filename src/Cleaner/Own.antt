-- ===== src/Cleaner/Own.antt =====
-- internal/cleaner/cleaner.go: whose messages the index holds, and whose are deleted: here the
-- operations on the index, in the children the requests (Requests), the drains and scans (Drains) and
-- Reconcile (Reconciling). `K` tells which messages are the account's own; `Good` stands for a property
-- of the world that holds as long as no other is deleted.
pub mod Requests
pub mod Drains
pub mod Reconciling
use langolier_bot.Base.{
  ℕ, some, List, [], ◌∷◌, ◌≡◌, subst, arith, All, ◌==◌, nat_eq, Option-cases, Bool-cases, inl, inr,
}
use langolier_bot.Base.Int.{ℤ, pos, int_eq, int_beq_iff, leb_ℤ}
use langolier_bot.Base.Maps.{lookup, insert, delete, keys, All-insert, All-delete}
use langolier_bot.Base.Text.{Text}
use langolier_bot.Chatcfg.Config.{matches}
use langolier_bot.Chatcfg.Store.{Store, get}
use langolier_bot.Cleaner.State.{
  Cleaner, Index, Messages, messages, index_message, delete_all, store_messages, remove_locked,
  is_common, remove_common, on_deleted, on_own_message, disable_chat, Spawn, sweeps, deletes,
  drains,
}
use langolier_bot.Cleaner.Sweep.{is_due, due_ids}

module _ (K : ℤ → ℕ → Type 0) where
  abbrev pub AreOwn : ℤ → Messages → Type 0
  AreOwn marked m = All (λ (v : ℕ × ℕ). K marked v.0) m

  -- Every message of the index is the account's own.
  abbrev pub IsOwn : Index → Type 0
  IsOwn index = All (λ (x : ℤ × Messages). AreOwn x.0 x.1) index

  -- What has been started deletes only such messages.
  abbrev pub SpawnsOwn : Spawn → Type 0
  SpawnsOwn sweeps = Unit
  SpawnsOwn (deletes marked ids) = All (K marked) ids
  SpawnsOwn (drains marked) = Unit

  lookup-AreOwn :
      (index : Index) (marked : ℤ) (m : Messages)
      → lookup marked index ≡ some m
      → IsOwn index
      → AreOwn marked m
  unfolding lookup
  lookup-AreOwn [] marked m e h = absurd cc
  lookup-AreOwn ((j, n) ∷ index) marked m e h = elim (Bool-cases (j == marked)) [
    | inl q ↦
        subst (λ i. AreOwn i m) ((int_beq_iff j marked).0 q)
          (subst (AreOwn j) (ground (arith, q, e)) h.0)
    | inr q ↦ lookup-AreOwn index marked m (ground (arith, q, e)) h.1
  ]

  messages-AreOwn :
      (index : Index) (marked : ℤ) → IsOwn index → AreOwn marked (messages index marked)
  messages-AreOwn index marked h = elim (Option-cases (lookup marked index)) [
    | inl e ↦ rw (e, messages) tt
    | inr (m, e) ↦ rw (e, messages) (lookup-AreOwn index marked m e h)
  ]

  pub index_message-IsOwn :
      (marked : ℤ) (id date : ℕ) (c : Cleaner)
      → K marked id
      → IsOwn c.index
      → IsOwn (index_message marked id date c).index
  unfolding index_message
  index_message-IsOwn marked id date c k h =
      All-insert (λ (x : ℤ × Messages). AreOwn x.0 x.1) marked
        (insert id date (messages c.index marked)) c.index
        (All-insert (λ (v : ℕ × ℕ). K marked v.0) id date (messages c.index marked) k
          (messages-AreOwn c.index marked h))
        h

  delete_all-AreOwn :
      (marked : ℤ) (ids : List ℕ) (m : Messages)
      → AreOwn marked m
      → AreOwn marked (delete_all ids m)
  unfolding delete_all
  delete_all-AreOwn marked [] m h = h
  delete_all-AreOwn marked (id ∷ ids) m h =
      delete_all-AreOwn marked ids (delete id m) (All-delete (λ (v : ℕ × ℕ). K marked v.0) id m h)

  delete-IsOwn : (marked : ℤ) (index : Index) → IsOwn index → IsOwn (delete marked index)
  delete-IsOwn marked index h = All-delete (λ (x : ℤ × Messages). AreOwn x.0 x.1) marked index h

  store_messages-IsOwn :
      (marked : ℤ) (m : Messages) (index : Index)
      → AreOwn marked m
      → IsOwn index
      → IsOwn (store_messages marked m index)
  store_messages-IsOwn marked [] index k h = delete-IsOwn marked index h
  store_messages-IsOwn marked (x ∷ m) index k h =
      All-insert (λ (y : ℤ × Messages). AreOwn y.0 y.1) marked (x ∷ m) index k h

  pub remove_locked-IsOwn :
      (marked : ℤ) (ids : List ℕ) (index : Index)
      → IsOwn index
      → IsOwn (remove_locked marked ids index)
  unfolding remove_locked
  remove_locked-IsOwn marked ids index h = elim (Option-cases (lookup marked index)) [
    | inl e ↦ rw (e, remove_locked) h
    | inr (m, e) ↦
        rw (e, remove_locked)
          (store_messages-IsOwn marked (delete_all ids m) index
            (delete_all-AreOwn marked ids m (lookup-AreOwn index marked m e h)) h)
  ]

  remove_common-IsOwn :
      (chats : List ℤ) (ids : List ℕ) (index : Index)
      → IsOwn index
      → IsOwn (remove_common chats ids index)
  unfolding remove_common
  remove_common-IsOwn [] ids index h = h
  remove_common-IsOwn (marked ∷ chats) ids index h = elim (Bool-cases (is_common marked)) [
    | inl e ↦ rw e (remove_common-IsOwn chats ids _ (remove_locked-IsOwn marked ids index h))
    | inr e ↦ rw e (remove_common-IsOwn chats ids index h)
  ]

  pub on_deleted-IsOwn :
      (marked : ℤ) (ids : List ℕ) (c : Cleaner)
      → IsOwn c.index
      → IsOwn (on_deleted marked ids c).index
  unfolding on_deleted
  on_deleted-IsOwn marked ids c h = elim (Bool-cases (marked == pos 0)) [
    | inl e ↦ rw e (remove_common-IsOwn (keys c.index) ids c.index h)
    | inr e ↦ rw e (remove_locked-IsOwn marked ids c.index h)
  ]

  pub on_own_message-IsOwn :
      (cfg : Store) (marked : ℤ) (id date : ℕ) (text : Text) (c : Cleaner)
      → K marked id
      → IsOwn c.index
      → IsOwn (on_own_message cfg marked id date text c).0.index
  unfolding on_own_message
  on_own_message-IsOwn cfg marked id date text c k h =
      elim (Bool-cases (matches (get cfg marked) text)) [
        | inl e ↦ rw e h
        | inr e ↦ elim (Bool-cases (leb_ℤ (get cfg marked).ttl_minutes (pos 0))) [
          | inl f ↦ rw (e, f) h
          | inr f ↦ rw (e, f) (index_message-IsOwn marked id date c k h)
        ]
      ]

  -- A message that the client has reported as the account's own is the one whose deletion is started.
  pub on_own_message-SpawnsOwn :
      (cfg : Store) (marked : ℤ) (id date : ℕ) (text : Text) (c : Cleaner)
      → K marked id
      → All SpawnsOwn (on_own_message cfg marked id date text c).1
  unfolding on_own_message
  on_own_message-SpawnsOwn cfg marked id date text c k =
      elim (Bool-cases (matches (get cfg marked) text)) [
        | inl e ↦ rw e ((k, tt), tt)
        | inr e ↦ elim (Bool-cases (leb_ℤ (get cfg marked).ttl_minutes (pos 0))) [
          | inl f ↦ rw (e, f) tt
          | inr f ↦ rw (e, f) tt
        ]
      ]

  pub disable_chat-IsOwn :
      (marked : ℤ) (c : Cleaner) → IsOwn c.index → IsOwn (disable_chat marked c).index
  unfolding disable_chat
  disable_chat-IsOwn marked c h = delete-IsOwn marked c.index h

  pub due_ids-own :
      (marked t : ℤ) (now : ℕ) (m : Messages) → AreOwn marked m → All (K marked) (due_ids t now m)
  unfolding due_ids
  due_ids-own marked t now [] h = tt
  due_ids-own marked t now ((id, sent) ∷ m) h = elim (Bool-cases (is_due t now sent)) [
    | inl e ↦ rw e (h.0, due_ids-own marked t now m h.1)
    | inr e ↦ rw e (due_ids-own marked t now m h.1)
  ]
