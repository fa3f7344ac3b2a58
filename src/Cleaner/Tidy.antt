-- ===== src/Cleaner/Tidy.antt =====
-- internal/cleaner/cleaner.go: the critical sections of the cleaner as events, in any order in which
-- the goroutines of the program may run them, and the invariant that they keep.
use langolier_bot.Base.{
  ℕ, Option, none, some, List, [], ◌∷◌, ◌≡◌, ◌≢◌, refl, All, ◌==◌, nat_eq, Option-cases, inl, inr,
  Bool-cases,
}
use langolier_bot.Base.Int.{ℤ, pos, int_eq}
use langolier_bot.Base.Maps.{
  lookup, insert, delete, keys, IsUnique, insert-IsUnique, delete-IsUnique, All-insert, All-delete,
  All-lookup, insert-ne-nil,
}
use langolier_bot.Tgclient.Group.{Group}
use langolier_bot.Cleaner.Env.{Tg}
use langolier_bot.Cleaner.State.{
  Cleaner, Index, Messages, messages, index_message, delete_all, store_messages, remove_locked,
  is_common, remove_common, on_deleted, mark_active, disable_chat, reset,
}
use langolier_bot.Cleaner.Sweep.{settle}

-- A chat that is in the index has messages, each of them once.
abbrev pub IsFilled : Messages → Type 0
IsFilled m = (m ≢ []) × IsUnique m

-- Besides, no chat is in the index twice.
abbrev pub IsTidy : Index → Type 0
IsTidy index = IsUnique index × All (λ (x : ℤ × Messages). IsFilled x.1) index

messages-IsUnique : (index : Index) (marked : ℤ) → IsTidy index → IsUnique (messages index marked)
messages-IsUnique index marked t = go (lookup marked index) refl
  where
    go : (o : Option Messages) → lookup marked index ≡ o → IsUnique (messages index marked)
    go none e = rw (e, messages) tt
    go (some m) e = rw (e, messages) (All-lookup IsFilled marked m index t.1 e).1

index_message-IsTidy :
    (marked : ℤ) (msg_id date : ℕ) (c : Cleaner)
    → IsTidy c.index
    → IsTidy (index_message marked msg_id date c).index
unfolding index_message
index_message-IsTidy marked msg_id date c t =
    let m = messages c.index marked in
    (
      insert-IsUnique marked (insert msg_id date m) c.index t.0,
      All-insert (λ (x : ℤ × Messages). IsFilled x.1) marked (insert msg_id date m) c.index
          (
            insert-ne-nil msg_id date m,
            insert-IsUnique msg_id date m (messages-IsUnique c.index marked t),
          )
          t.1,
    )

delete-IsTidy : (marked : ℤ) (index : Index) → IsTidy index → IsTidy (delete marked index)
delete-IsTidy marked index t = (
  delete-IsUnique marked index t.0,
  All-delete (λ (x : ℤ × Messages). IsFilled x.1) marked index t.1,
)

delete_all-IsUnique : (ids : List ℕ) (m : Messages) → IsUnique m → IsUnique (delete_all ids m)
unfolding delete_all
delete_all-IsUnique [] m u = u
delete_all-IsUnique (id ∷ ids) m u = delete_all-IsUnique ids (delete id m) (delete-IsUnique id m u)

store_messages-IsTidy :
    (marked : ℤ) (m : Messages) (index : Index)
    → IsUnique m
    → IsTidy index
    → IsTidy (store_messages marked m index)
store_messages-IsTidy marked [] index u t = delete-IsTidy marked index t
store_messages-IsTidy marked (x ∷ m) index u t = (
  insert-IsUnique marked (x ∷ m) index t.0,
  All-insert (λ (y : ℤ × Messages). IsFilled y.1) marked (x ∷ m) index ((λ e. cc), u) t.1,
)

remove_locked-IsTidy :
    (marked : ℤ) (ids : List ℕ) (index : Index)
    → IsTidy index
    → IsTidy (remove_locked marked ids index)
unfolding remove_locked
remove_locked-IsTidy marked ids index t = elim (Option-cases (lookup marked index)) [
  | inl e ↦ rw (e, remove_locked) t
  | inr (m, e) ↦
      rw (e, remove_locked)
        (store_messages-IsTidy marked (delete_all ids m) index
          (delete_all-IsUnique ids m (All-lookup IsFilled marked m index t.1 e).1) t)
]

remove_common-IsTidy :
    (chats : List ℤ) (ids : List ℕ) (index : Index)
    → IsTidy index
    → IsTidy (remove_common chats ids index)
unfolding remove_common
remove_common-IsTidy [] ids index t = t
remove_common-IsTidy (marked ∷ chats) ids index t = elim (Bool-cases (is_common marked)) [
  | inl e ↦ rw e (remove_common-IsTidy chats ids _ (remove_locked-IsTidy marked ids index t))
  | inr e ↦ rw e (remove_common-IsTidy chats ids index t)
]

-- The critical sections that change the index, the counters or the active set.
pub data Event : Type 0 where
  records : ℤ → ℕ → ℕ → Event
  forgets : ℤ → List ℕ → Event
  settles : Group → ℤ → List ℕ → List ℕ → Event
  activates : ℤ → Event
  disables : ℤ → Event
  resets : Event

module _ {W : Type 0} (tg : Tg W) where
  unfoldable pub handle : Event → Cleaner → Cleaner
  handle (records marked msg_id date) c = index_message marked msg_id date c
  handle (forgets marked ids) c = on_deleted marked ids c
  handle (settles g marked ids bad) c = (settle tg g marked ids bad c).1
  handle (activates marked) c = mark_active marked c
  handle (disables marked) c = disable_chat marked c
  handle resets c = reset c

  unfoldable pub handle_all : List Event → Cleaner → Cleaner
  handle_all [] c = c
  handle_all (e ∷ es) c = handle_all es (handle e c)

  handle-IsTidy : (e : Event) (c : Cleaner) → IsTidy c.index → IsTidy (handle e c).index
  unfolding handle on_deleted settle mark_active disable_chat reset
  handle-IsTidy (records marked msg_id date) c t = index_message-IsTidy marked msg_id date c t
  handle-IsTidy (forgets marked ids) c t = elim (Bool-cases (marked == pos 0)) [
    | inl e ↦ rw e (remove_common-IsTidy (keys c.index) ids c.index t)
    | inr e ↦ rw e (remove_locked-IsTidy marked ids c.index t)
  ]
  handle-IsTidy (settles g marked ids bad) c t = remove_locked-IsTidy marked _ c.index t
  handle-IsTidy (activates marked) c t = t
  handle-IsTidy (disables marked) c t = delete-IsTidy marked c.index t
  handle-IsTidy resets c t = (tt, tt)

  -- Whatever the critical sections that the goroutines of a cleaner with a tidy index go through, in
  -- whatever order, no chat is in the index twice or without a message, and no message of a chat
  -- twice.
  pub handle_all-IsTidy :
      (es : List Event) (c : Cleaner) → IsTidy c.index → IsTidy (handle_all es c).index
  unfolding handle_all
  handle_all-IsTidy [] c t = t
  handle_all-IsTidy (e ∷ es) c t = handle_all-IsTidy es (handle e c) (handle-IsTidy e c t)
