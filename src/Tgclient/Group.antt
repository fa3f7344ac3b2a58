-- ===== src/Tgclient/Group.antt =====
-- internal/tgclient/tgclient.go: Group, its input peers, groupFromElem, the deeplink to a message.
use langolier_bot.Base.{
  Bool, true, false, ◌||◌, not, Option, none, some, ℕ, [], ◌++◌, if◌then◌else◌, is_some,
}
use langolier_bot.Base.Int.{ℤ, pos}
use langolier_bot.Base.Text.{Text, codes, is_empty}
use langolier_bot.Base.Decimal.{format_int, format_nat}
use langolier_bot.Tgclient.Ids.{mark_channel, mark_chat}

pub record Group : Type 0 where
  pub marked_id : ℤ
  pub title : Text
  pub username : Text
  pub is_channel : Bool
  pub raw_id : ℤ
  pub access_hash : ℤ

-- The parts of gotd's peers and entities that are read.
pub data InputPeer : Type 0 where
  peer_chat : ℤ → InputPeer
  peer_channel : ℤ → ℤ → InputPeer
  peer_other : InputPeer

pub record Chat : Type 0 where
  pub id : ℤ
  pub title : Text
  pub left : Bool
  pub deactivated : Bool
  pub migrated_to : Option ℤ

pub record Channel : Type 0 where
  pub id : ℤ
  pub title : Text
  pub username : Option Text
  pub broadcast : Bool
  pub megagroup : Bool
  pub left : Bool

-- One dialog: its peer, and the entities by their bare ids.
pub record Elem : Type 0 where
  pub peer : InputPeer
  pub chat : ℤ → Option Chat
  pub channel : ℤ → Option Channel

unfoldable pub input_peer : Group → InputPeer
input_peer g = if g.is_channel then peer_channel g.raw_id g.access_hash else peer_chat g.raw_id

abbrev pub input_channel : Group → ℤ × ℤ
input_channel g = (g.raw_id, g.access_hash)

-- ch.GetUsername() without its flag
abbrev or_empty : Option Text → Text
or_empty none = []
or_empty (some t) = t

abbrev pub from_chat : Option Chat → Option Group
from_chat none = none
from_chat (some ch) =
    if ch.left || ch.deactivated || is_some ch.migrated_to
    then none
    else some (record {
      marked_id = mark_chat ch.id;
      title = ch.title;
      username = [];
      is_channel = false;
      raw_id = ch.id;
      access_hash = pos 0;
    })

abbrev pub from_channel : ℤ → Option Channel → Option Group
from_channel access_hash none = none
from_channel access_hash (some ch) =
    if ch.broadcast || not ch.megagroup || ch.left
    then none
    else some (record {
      marked_id = mark_channel ch.id;
      title = ch.title;
      username = or_empty ch.username;
      is_channel = true;
      raw_id = ch.id;
      access_hash = access_hash;
    })

unfoldable pub group_from_elem : Elem → Option Group
group_from_elem e = elim e.peer [
  | peer_chat id ↦ from_chat (e.chat id)
  | peer_channel id access_hash ↦ from_channel access_hash (e.channel id)
  | peer_other ↦ none
]

unfoldable pub message_link : Group → ℕ → Text
message_link g msg_id =
    if not g.is_channel
    then []
    else if not (is_empty g.username)
    then codes "https://t.me/" ++ (g.username ++ (codes "/" ++ format_nat msg_id))
    else codes "https://t.me/c/" ++ (format_int g.raw_id ++ (codes "/" ++ format_nat msg_id))
