-- ===== src/Tgclient/Own/Chats.antt =====
-- internal/tgclient/tgclient.go: the marked ids and the bare ids of the chats that the client knows.
use langolier_bot.Base.{
  Option, none, some, List, [], ◌∷◌, ◌≡◌, refl, All, Bool-cases, inl, inr, nat_eq, ◌==◌, arith, sym,
  subst, ◌∙◌, ◌||◌, not, is_some,
}
use langolier_bot.Base.Int.{ℤ, int_eq, int_beq_iff}
use langolier_bot.Base.Maps.{insert, lookup-insert}
use langolier_bot.Base.Lists.{Holds}
use langolier_bot.Tgclient.Group.{
  Group, Elem, Chat, Channel, peer_chat, peer_channel, peer_other, from_chat, from_channel,
  group_from_elem,
}
use langolier_bot.Tgclient.Resolve.{Groups, group, keep_group, eligible, cache_groups}
use langolier_bot.Tgclient.Own.{IsProper}

-- A group is found under its marked id, which is that of its bare id.
abbrev pub IsChecked : Groups → Type 0
IsChecked cache = (j : ℤ) (g : Group) → group cache j ≡ some g → (g.marked_id ≡ j) × IsProper g

from_chat-IsProper : (c : Option Chat) → Holds IsProper (from_chat c)
from_chat-IsProper none = tt
from_chat-IsProper (some ch) =
    elim (Bool-cases (ch.left || ch.deactivated || is_some ch.migrated_to)) [
      | inl e ↦ rw e tt
      | inr e ↦ rw e refl
    ]

from_channel-IsProper : (hash : ℤ) (c : Option Channel) → Holds IsProper (from_channel hash c)
from_channel-IsProper hash none = tt
from_channel-IsProper hash (some ch) =
    elim (Bool-cases (ch.broadcast || not ch.megagroup || ch.left)) [
      | inl e ↦ rw e tt
      | inr e ↦ rw e refl
    ]

group_from_elem-IsProper : (e : Elem) → Holds IsProper (group_from_elem e)
unfolding group_from_elem
group_from_elem-IsProper e =
    elim e.peer as (λ p. Holds IsProper (group_from_elem (record e { peer = p }))) [
      | peer_chat id ↦ from_chat-IsProper (e.chat id)
      | peer_channel id hash ↦ from_channel-IsProper hash (e.channel id)
      | peer_other ↦ tt
    ]

keep_group-IsProper :
    (g : Option Group) (gs : List Group)
    → Holds IsProper g
    → All IsProper gs
    → All IsProper (keep_group g gs)
keep_group-IsProper none gs h k = k
keep_group-IsProper (some g) gs h k = (h, k)

pub eligible-IsProper : (es : List Elem) → All IsProper (eligible es)
unfolding eligible
eligible-IsProper [] = tt
eligible-IsProper (e ∷ es) =
    keep_group-IsProper (group_from_elem e) (eligible es) (group_from_elem-IsProper e)
      (eligible-IsProper es)

insert-IsChecked :
    (g : Group) (cache : Groups)
    → IsProper g
    → IsChecked cache
    → IsChecked (insert g.marked_id g cache)
unfolding group
insert-IsChecked g cache p h j x e = elim (Bool-cases (g.marked_id == j)) [
  | inl q ↦
      let same : g ≡ x = ground (arith, lookup-insert g.marked_id j g cache, e, q) in
      subst (λ y. (y.marked_id ≡ j) × IsProper y) same ((int_beq_iff g.marked_id j).0 q, p)
  | inr q ↦ h j x (sym (lookup-insert g.marked_id j g cache ∙ rw q refl) ∙ e)
]

pub cache_groups-IsChecked :
    (gs : List Group) (cache : Groups)
    → All IsProper gs
    → IsChecked cache
    → IsChecked (cache_groups gs cache)
unfolding cache_groups
cache_groups-IsChecked [] cache k h = h
cache_groups-IsChecked (g ∷ gs) cache k h =
    cache_groups-IsChecked gs (insert g.marked_id g cache) k.1 (insert-IsChecked g cache k.0 h)
