-- ===== src/Tgclient/Own.antt =====
-- internal/tgclient/tgclient.go: whose messages the client finds and deletes: the chats that it knows
-- (Chats), ScanOwn (Scanning), Delete and what the cleaner relies on (Guarding). `K` tells, for a marked
-- id and the id of a message, whether the message is the account's own.
pub mod Scanning
pub mod Chats
pub mod Guarding
use langolier_bot.Base.{ℕ, ◌≡◌, All, if◌then◌else◌}
use langolier_bot.Base.Int.{ℤ, pos}
use langolier_bot.Base.Calls.{Answer, got, failed}
use langolier_bot.Tgclient.Ids.{mark_chat, mark_channel}
use langolier_bot.Tgclient.Group.{Group, InputPeer, peer_chat, peer_channel, peer_other}
use langolier_bot.Tgclient.Delete.{DeleteRequest, channels_delete, messages_delete}
use langolier_bot.Tgclient.Scan.{
  Message, message, from_self, SearchRequest, SearchResult, messages_of,
}
use langolier_bot.Tgclient.Interface.{Gotd}

-- The marked id of a chat that a request names.
abbrev pub marked_of : InputPeer → ℤ
marked_of (peer_chat id) = mark_chat id
marked_of (peer_channel id access_hash) = mark_channel id
marked_of peer_other = pos 0

-- A group has the marked id of its bare id.
abbrev pub IsProper : Group → Type 0
IsProper g = g.marked_id ≡ (if g.is_channel then mark_channel g.raw_id else mark_chat g.raw_id)

module _ (K : ℤ → ℕ → Type 0) where
  abbrev pub IsOwnMessage : ℤ → Message → Type 0
  IsOwnMessage marked (message id date) = K marked id
  IsOwnMessage marked other = Unit

  abbrev pub FindsOwn : ℤ → Answer SearchResult → Type 0
  FindsOwn marked (failed e) = Unit
  FindsOwn marked (got res) = All (IsOwnMessage marked) (messages_of res)

  -- A request to delete own messages: those of a channel, or those of some basic group, which the
  -- request does not name.
  abbrev pub AsksOwn : DeleteRequest → Type 0
  AsksOwn (channels_delete (id, access_hash) ids) = All (K (mark_channel id)) ids
  AsksOwn (messages_delete revoke ids) = (chat : ℤ) × All (K (mark_chat chat)) ids

-- What Telegram promises: a search for the account's messages finds no others, and the server stays
-- good in every call, if only own messages are deleted.
pub record Telegram {G : Type 0} (gotd : Gotd G) (K : ℤ → ℕ → Type 0) (Good : G → Type 0)
    : Type 0 where
  pub dialogs_keep : (w : G) → Good w → Good (gotd.dialogs w).1
  pub search_keeps : (r : SearchRequest) (w : G) → Good w → Good (gotd.search r w).1
  pub search_own :
      (r : SearchRequest) (w : G)
      → r.from_id ≡ from_self
      → Good w
      → FindsOwn K (marked_of r.peer) (gotd.search r w).0
  pub wait_keeps : (w : G) → Good w → Good (gotd.wait w).1
  pub rpc_keeps : (r : DeleteRequest) (w : G) → AsksOwn K r → Good w → Good (gotd.rpc r w).1
