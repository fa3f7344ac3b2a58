-- ===== src/Cleaner/State.antt =====
-- internal/cleaner/cleaner.go: the state of the cleaner, and what it does to its index when messages
-- come and go. Every function here runs under the mutex, so it is one step. What the source starts
-- with `go` is returned as a `Spawn`.
use langolier_bot.Base.{
  ℕ, Bool, true, false, none, some, List, [], ◌∷◌, nat_eq, if◌then◌else◌, not, ◌==◌,
}
use langolier_bot.Base.Int.{ℤ, pos, ◌-ℤ◌, int_eq, leb_ℤ, ltb_ℤ}
use langolier_bot.Base.Maps.{Map, lookup, insert, delete, keys}
use langolier_bot.Base.Text.{Text}
use langolier_bot.Chatcfg.Config.{matches}
use langolier_bot.Chatcfg.Store.{Store, get}

abbrev pub Messages : Type 0
Messages = Map ℕ ℕ

abbrev pub Index : Type 0
Index = Map ℤ Messages

abbrev pub Chats : Type 0
Chats = Map ℤ (Unit {0})

pub record Cleaner : Type 0 where
  pub index : Index
  pub deleted : Map ℤ ℕ
  pub active : Chats
  pub looping : Bool
  pub drain_pause : ℕ

-- 5 * time.Second
abbrev pub drain_pass_delay : ℕ
drain_pass_delay = 5000000000

abbrev pub new_cleaner : Cleaner
new_cleaner = record {
  index = [];
  deleted = [];
  active = [];
  looping = false;
  drain_pause = drain_pass_delay;
}

pub data Spawn : Type 0 where
  sweeps : Spawn
  deletes : ℤ → List ℕ → Spawn
  drains : ℤ → Spawn

-- Run: starts the sweep loop, unless it runs already; `loop_ended` is the deferred call of the loop.
unfoldable pub run : Cleaner → Cleaner × List Spawn
run c = if c.looping then (c, []) else (record c { looping = true }, sweeps ∷ [])

unfoldable pub loop_ended : Cleaner → Cleaner
loop_ended c = record c { looping = false }

-- The messages of a chat; those of a chat with no entry are the nil map.
abbrev pub messages : Index → ℤ → Messages
messages index marked = elim (lookup marked index) [ none ↦ [] | some m ↦ m ]

unfoldable pub index_message : ℤ → ℕ → ℕ → Cleaner → Cleaner
index_message marked msg_id date c = record c {
  index = insert marked (insert msg_id date (messages c.index marked)) c.index;
}

unfoldable pub delete_all : List ℕ → Messages → Messages
delete_all [] m = m
delete_all (id ∷ ids) m = delete_all ids (delete id m)

-- m[marked] = rest, or delete(m, marked) if nothing is left
abbrev pub store_messages : ℤ → Messages → Index → Index
store_messages marked [] index = delete marked index
store_messages marked (x ∷ rest) index = insert marked (x ∷ rest) index

unfoldable pub remove_locked : ℤ → List ℕ → Index → Index
remove_locked marked ids index = elim (lookup marked index) [
  | none ↦ index
  | some m ↦ store_messages marked (delete_all ids m) index
]

abbrev pub tg_channel_shift : ℤ
tg_channel_shift = pos 1000000000000

-- The chats of the common message box: all but supergroups and channels.
abbrev pub is_common : ℤ → Bool
is_common marked = not (ltb_ℤ marked (pos 0 -ℤ tg_channel_shift))

-- The loop over the chats of the index.
unfoldable pub remove_common : List ℤ → List ℕ → Index → Index
remove_common [] ids index = index
remove_common (marked ∷ chats) ids index =
    remove_common chats ids (if is_common marked then remove_locked marked ids index else index)

unfoldable pub on_deleted : ℤ → List ℕ → Cleaner → Cleaner
on_deleted marked ids c =
    if not (marked == pos 0)
    then record c { index = remove_locked marked ids c.index }
    else record c { index = remove_common (keys c.index) ids c.index }

unfoldable pub on_own_message : Store → ℤ → ℕ → ℕ → Text → Cleaner → Cleaner × List Spawn
on_own_message cfg marked msg_id date text c =
    let chat = get cfg marked in
    if matches chat text
    then (c, deletes marked (msg_id ∷ []) ∷ [])
    else if leb_ℤ chat.ttl_minutes (pos 0)
    then (c, [])
    else (index_message marked msg_id date c, [])

unfoldable pub mark_active : ℤ → Cleaner → Cleaner
mark_active marked c = record c { active = insert marked tt c.active }

unfoldable pub is_active : ℤ → Cleaner → Bool
is_active marked c = elim (lookup marked c.active) [ none ↦ false | some u ↦ true ]

unfoldable pub disable_chat : ℤ → Cleaner → Cleaner
disable_chat marked c = record c { index = delete marked c.index; active = delete marked c.active }

unfoldable pub reset : Cleaner → Cleaner
reset c = record c { index = []; deleted = []; active = [] }
