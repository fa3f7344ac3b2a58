-- ===== src/Program/Keeps.antt =====
-- The program while it serves (cmd/langolier/main.go): the changes of the cleaner, the world, the bot and
-- the store that a property of the system has to withstand, the bodies of the goroutines (Bodies), and
-- the events (Events). `K` tells which messages are the account's own.
pub mod Bodies
pub mod Events
use langolier_bot.Base.{ℕ, Bool, true, false, List, [], if◌then◌else◌}
use langolier_bot.Base.Int.{ℤ}
use langolier_bot.Base.Lists.{All}
use langolier_bot.Base.Text.{Text}
use langolier_bot.Chatcfg.Store.{Codec}
use langolier_bot.Tgclient.Ids.{mark_chat, mark_channel}
use langolier_bot.Tgclient.Updates.{
  peer_chat, peer_channel, peer_user, NewMessage, message, service, empty, Callbacks, Call,
  own_message, membership, fire_deleted, fire_membership, call_if, handle_new_message, handle,
  new_message, new_channel_message, delete_messages, delete_channel_messages, channel_inaccessible,
  is_membership_action,
}
use langolier_bot.Cleaner.State.{
  sweeps, deletes, drains, on_own_message, on_deleted, run, loop_ended,
}
use langolier_bot.Cleaner.Own.{SpawnsOwn}
use langolier_bot.Bot.State.{Api, System, Output, spawns}
use langolier_bot.Program.{Event, told}
use langolier_bot.Cleaner.Sweep.{sweep, delete_ids}
use langolier_bot.Cleaner.Drain.{enable_chat, drain_chat}
use langolier_bot.Bot.Keeps.{IsClosed}
use langolier_bot.Tgclient.Updates

module _ (K : ℤ → ℕ → Type 0) where
  -- A message with the flag `Out` is the account's own.
  abbrev pub IsTruthful : NewMessage → Type 0
  IsTruthful (message true (peer_chat id) msg_id date text) = K (mark_chat id) msg_id
  IsTruthful (message true (peer_channel id) msg_id date text) = K (mark_channel id) msg_id
  IsTruthful other = Unit

  abbrev pub TellsTruth : Updates.Update → Type 0
  TellsTruth (new_message m) = IsTruthful m
  TellsTruth (new_channel_message m) = IsTruthful m
  TellsTruth other = Unit

  abbrev pub IsHonest : Event → Type 0
  IsHonest (told u) = TellsTruth u
  IsHonest other = Unit

  abbrev pub CallsOwn : Call → Type 0
  CallsOwn (own_message marked id date text) = K marked id
  CallsOwn other = Unit

  call_if-CallsOwn : (set : Bool) (c : Call) → CallsOwn c → All CallsOwn (call_if set c)
  call_if-CallsOwn true c k = (k, tt)
  call_if-CallsOwn false c k = tt

  by_case : (b : Bool) (cs : List Call) → All CallsOwn cs → All CallsOwn (if b then cs else [])
  by_case true cs h = h
  by_case false cs h = tt

  handle_new_message-CallsOwn :
      (fns : Callbacks) (m : NewMessage) → IsTruthful m → All CallsOwn (handle_new_message fns m)
  unfolding handle_new_message fire_membership
  handle_new_message-CallsOwn fns (message true (peer_chat id) msg_id date text) k =
      call_if-CallsOwn fns.on_own _ k
  handle_new_message-CallsOwn fns (message true (peer_channel id) msg_id date text) k =
      call_if-CallsOwn fns.on_own _ k
  handle_new_message-CallsOwn fns (message true (peer_user id) msg_id date text) k = tt
  handle_new_message-CallsOwn fns (message false peer msg_id date text) k = tt
  handle_new_message-CallsOwn fns (service action) k =
      by_case (is_membership_action action) (fire_membership fns)
        (call_if-CallsOwn fns.on_membership membership tt)
  handle_new_message-CallsOwn fns empty k = tt

  -- The callbacks are told of own messages alone.
  pub handle-CallsOwn :
      (fns : Callbacks) (u : Updates.Update) → TellsTruth u → All CallsOwn (handle fns u)
  unfolding handle fire_deleted fire_membership
  handle-CallsOwn fns (new_message m) k = handle_new_message-CallsOwn fns m k
  handle-CallsOwn fns (new_channel_message m) k = handle_new_message-CallsOwn fns m k
  handle-CallsOwn fns (delete_messages ids) k = call_if-CallsOwn _ _ tt
  handle-CallsOwn fns (delete_channel_messages channel ids) k = call_if-CallsOwn _ _ tt
  handle-CallsOwn fns (channel_inaccessible channel) k = call_if-CallsOwn fns.on_membership _ tt

  -- What is put out deletes own messages alone.
  abbrev pub PutsOwn : Output → Type 0
  PutsOwn (spawns j) = SpawnsOwn K j
  PutsOwn other = Unit

pub record IsLasting {W : Type 0} (codec : Codec) (api : Api W) (K : ℤ → ℕ → Type 0)
    (P : System W → Type 0) : Type 0 where
  pub closed : IsClosed codec api P
  pub records :
      (s : System W) (marked : ℤ) (id date : ℕ) (text : Text)
      → K marked id
      → P s
      → P (record s { cl = (on_own_message s.cfg marked id date text s.cl).0 })
  pub forgets :
      (s : System W) (marked : ℤ) (ids : List ℕ)
      → P s
      → P (record s { cl = on_deleted marked ids s.cl })
  pub runs : (s : System W) → P s → P (record s { cl = (run s.cl).0 })
  pub ends : (s : System W) → P s → P (record s { cl = loop_ended s.cl })
  pub sweeps :
      (s : System W)
      → P s
      → let r = sweep api.tg api.host s.cfg s.cl s.world in P (record s { cl = r.0; world = r.1 })
  pub deletes :
      (s : System W) (marked : ℤ) (ids : List ℕ)
      → All (K marked) ids
      → P s
      → let r = delete_ids api.tg marked ids s.cl s.world in P (record s { cl = r.1; world = r.2 })
  pub scans :
      (s : System W) (marked : ℤ)
      → P s
      → let r = enable_chat api.tg api.host marked s.cl s.world in
        P (record s { cl = r.1; world = r.2 })
  pub drains :
      (s : System W) (marked : ℤ)
      → P s
      → let r = drain_chat api.tg api.host s.cfg marked s.cl s.world in
        P (record s { cl = r.1; world = r.2 })
