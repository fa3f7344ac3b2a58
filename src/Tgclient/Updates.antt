-- ===== src/Tgclient/Updates.antt =====
-- internal/tgclient/tgclient.go: the handlers of updates, and the callbacks that they call.
use langolier_bot.Base.{
  ℕ, ◌*◌, ◌&&◌, Bool, true, false, not, List, [], ◌∷◌, length, ltb, if◌then◌else◌,
}
use langolier_bot.Base.Int.{ℤ, pos}
use langolier_bot.Base.Text.{Text}
use langolier_bot.Tgclient.Ids.{mark_channel, mark_chat}

pub data Peer : Type 0 where
  peer_chat peer_channel peer_user : ℤ → Peer

pub data Action : Type 0 where
  chat_delete_user chat_add_user chat_joined_by_link chat_joined_by_request other_action : Action

-- tg.MessageClass, with what the handlers read: an ordinary message has the flag `Out`, its chat, its
-- id, its date in seconds, and its text.
pub data NewMessage : Type 0 where
  message : Bool → Peer → ℕ → ℕ → Text → NewMessage
  service : Action → NewMessage
  empty : NewMessage

-- The updates for which handlers are registered, and that of a channel that has become inaccessible.
pub data Update : Type 0 where
  new_message new_channel_message : NewMessage → Update
  delete_messages : List ℕ → Update
  delete_channel_messages : ℤ → List ℕ → Update
  channel_inaccessible : ℤ → Update

-- A call of a callback.
pub data Call : Type 0 where
  own_message : ℤ → ℕ → ℕ → Text → Call
  deleted_messages : ℤ → List ℕ → Call
  membership : Call

-- Which callbacks are set. The three have different types, and the program has one function for each:
-- OnOwnMessage and OnDeleted of the cleaner, and the poke of the bot; `call_back` of Program calls them.
pub record Callbacks : Type 0 where
  pub on_own : Bool
  pub on_del : Bool
  pub on_membership : Bool

-- New
abbrev pub no_callbacks : Callbacks
no_callbacks = record { on_own = false; on_del = false; on_membership = false }

-- OnOwnMessage, OnDeletedMessages and OnMembership, for a function that is not nil.
unfoldable pub set_on_own : Callbacks → Callbacks
set_on_own fns = record fns { on_own = true }

unfoldable pub set_on_del : Callbacks → Callbacks
set_on_del fns = record fns { on_del = true }

unfoldable pub set_on_membership : Callbacks → Callbacks
set_on_membership fns = record fns { on_membership = true }

abbrev pub call_if : Bool → Call → List Call
call_if set c = if set then c ∷ [] else []

unfoldable pub is_membership_action : Action → Bool
is_membership_action other_action = false
is_membership_action _ = true

unfoldable pub fire_membership : Callbacks → List Call
fire_membership fns = call_if fns.on_membership membership

unfoldable pub fire_deleted : Callbacks → ℤ → List ℕ → List Call
fire_deleted fns marked ids =
    call_if (fns.on_del && ltb 0 (length ids)) (deleted_messages marked ids)

-- time.Unix takes seconds.
abbrev pub fire_own : Callbacks → Peer → ℕ → ℕ → Text → List Call
fire_own fns (peer_chat id) msg_id date text =
    call_if fns.on_own (own_message (mark_chat id) msg_id (date * 1000000000) text)
fire_own fns (peer_channel id) msg_id date text =
    call_if fns.on_own (own_message (mark_channel id) msg_id (date * 1000000000) text)
fire_own fns (peer_user id) msg_id date text = []

unfoldable pub handle_new_message : Callbacks → NewMessage → List Call
handle_new_message fns (service action) =
    if is_membership_action action then fire_membership fns else []
handle_new_message fns (message out peer msg_id date text) =
    if not out then [] else fire_own fns peer msg_id date text
handle_new_message fns empty = []

unfoldable pub handle : Callbacks → Update → List Call
handle fns (new_message m) = handle_new_message fns m
handle fns (new_channel_message m) = handle_new_message fns m
handle fns (delete_messages ids) = fire_deleted fns (pos 0) ids
handle fns (delete_channel_messages channel ids) = fire_deleted fns (mark_channel channel) ids
handle fns (channel_inaccessible channel) = fire_membership fns
