-- ===== src/Tgclient/Resolve/Eligible.antt =====
-- internal/tgclient/tgclient.go: which dialogs groupFromElem takes for groups.
use langolier_bot.Base.{true, false, Option, none, some, List, [], ◌∷◌, ◌≡◌, refl, arith}
use langolier_bot.Base.Int.{ℤ, pos}
use langolier_bot.Tgclient.Ids.{mark_chat, mark_channel}
use langolier_bot.Tgclient.Group.{
  Group, InputPeer, peer_chat, peer_channel, peer_other, Chat, Channel, Elem, from_chat,
  from_channel, group_from_elem,
}
use langolier_bot.Tgclient.Resolve.{keep_group, eligible}

-- The account is in the basic group, and the group is neither deactivated nor migrated.
abbrev pub IsOpen : Chat → Type 0
IsOpen ch = (ch.left ≡ false) × (ch.deactivated ≡ false) × (ch.migrated_to ≡ none)

-- The account is in the supergroup; broadcast channels are none.
abbrev pub IsJoined : Channel → Type 0
IsJoined ch = (ch.broadcast ≡ false) × (ch.megagroup ≡ true) × (ch.left ≡ false)

-- A group has the ids, the title and the kind of a basic group.
abbrev pub IsChatOf : Chat → Group → Type 0
IsChatOf ch g =
    (g.marked_id ≡ mark_chat ch.id)
    × (g.title ≡ ch.title)
    × (g.username ≡ [])
    × (g.is_channel ≡ false)
    × (g.raw_id ≡ ch.id)
    × (g.access_hash ≡ pos 0)

-- A group has the ids, the names and the kind of a supergroup, and the access hash of its dialog.
abbrev pub IsChannelOf : ℤ → Channel → Group → Type 0
IsChannelOf hash ch g =
    (g.marked_id ≡ mark_channel ch.id)
    × (g.title ≡ ch.title)
    × (g.username ≡ elim ch.username [ none ↦ [] | some t ↦ t ])
    × (g.is_channel ≡ true)
    × (g.raw_id ≡ ch.id)
    × (g.access_hash ≡ hash)

-- A dialog shows a group.
pub data Shows (e : Elem) (g : Group) : Type 0 where
  shows_chat :
      (id : ℤ) (ch : Chat)
      → e.peer ≡ peer_chat id
      → e.chat id ≡ some ch
      → IsOpen ch
      → IsChatOf ch g
      → Shows e g
  shows_channel :
      (id hash : ℤ) (ch : Channel)
      → e.peer ≡ peer_channel id hash
      → e.channel id ≡ some ch
      → IsJoined ch
      → IsChannelOf hash ch g
      → Shows e g

-- The groups that dialogs show, in their order; the dialogs that show none are left out.
pub data Listed : List Elem → List Group → Type 0 where
  listed_none : Listed [] []
  listed :
      {e : Elem} {g : Group} {es : List Elem} {gs : List Group}
      → Shows e g
      → Listed es gs
      → Listed (e ∷ es) (g ∷ gs)
  left_out :
      {e : Elem} {es : List Elem} {gs : List Group}
      → ((g : Group) → Shows e g → ⊥)
      → Listed es gs
      → Listed (e ∷ es) gs

from_chat-some : (ch : Chat) (g : Group) → from_chat (some ch) ≡ some g → IsOpen ch × IsChatOf ch g
from_chat-some ch g h = ground arith

from_chat-IsOpen : (ch : Chat) → IsOpen ch → from_chat (some ch) ≡ none → ⊥
from_chat-IsOpen ch o h = ground arith

from_channel-some :
    (hash : ℤ) (ch : Channel) (g : Group)
    → from_channel hash (some ch) ≡ some g
    → IsJoined ch × IsChannelOf hash ch g
from_channel-some hash ch g h = ground arith

from_channel-IsJoined :
    (hash : ℤ) (ch : Channel) → IsJoined ch → from_channel hash (some ch) ≡ none → ⊥
from_channel-IsJoined hash ch j h = ground arith

chat-Shows :
    (e : Elem) (id : ℤ) (o : Option Chat) (g : Group)
    → e.peer ≡ peer_chat id
    → e.chat id ≡ o
    → from_chat o ≡ some g
    → Shows e g
chat-Shows e id none g p c h = absurd cc
chat-Shows e id (some ch) g p c h =
    let (opened, same) = from_chat-some ch g h in shows_chat id ch p c opened same

channel-Shows :
    (e : Elem) (id hash : ℤ) (o : Option Channel) (g : Group)
    → e.peer ≡ peer_channel id hash
    → e.channel id ≡ o
    → from_channel hash o ≡ some g
    → Shows e g
channel-Shows e id hash none g p c h = absurd cc
channel-Shows e id hash (some ch) g p c h =
    let (joined, same) = from_channel-some hash ch g h in shows_channel id hash ch p c joined same

peer-Shows :
    (e : Elem) (p : InputPeer) (g : Group) → e.peer ≡ p → group_from_elem e ≡ some g → Shows e g
unfolding group_from_elem
peer-Shows e (peer_chat id) g q h =
    chat-Shows e id (e.chat id) g q refl (rw (group_from_elem, q) at h)
peer-Shows e (peer_channel id hash) g q h =
    channel-Shows e id hash (e.channel id) g q refl (rw (group_from_elem, q) at h)
peer-Shows e peer_other g q h = absurd (ground (arith, q, h))

none-Shows : (e : Elem) (g : Group) → group_from_elem e ≡ none → Shows e g → ⊥
unfolding group_from_elem
none-Shows e g h (shows_chat id ch p c o s) =
    from_chat-IsOpen ch o (rw (group_from_elem, p, c) at h)
none-Shows e g h (shows_channel id hash ch p c j s) =
    from_channel-IsJoined hash ch j (rw (group_from_elem, p, c) at h)

kept-Listed :
    (e : Elem) (o : Option Group) (es : List Elem) (gs : List Group)
    → group_from_elem e ≡ o
    → Listed es gs
    → Listed (e ∷ es) (keep_group o gs)
kept-Listed e none es gs h l = left_out (λ g s. none-Shows e g h s) l
kept-Listed e (some g) es gs h l = listed (peer-Shows e e.peer g refl h) l

pub eligible-Listed : (es : List Elem) → Listed es (eligible es)
unfolding eligible
eligible-Listed [] = listed_none
eligible-Listed (e ∷ es) =
    kept-Listed e (group_from_elem e) es (eligible es) refl (eligible-Listed es)
