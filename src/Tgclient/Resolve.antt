-- ===== src/Tgclient/Resolve.antt =====
-- internal/tgclient/tgclient.go: ResolveGroups and the cache of groups that Group reads. `dialogs`
-- stands for gotd's query of the dialogs: it returns the dialogs that ForEach goes through, or its
-- error, for which the groups found so far are dropped.
pub mod Cache
pub mod Eligible
use langolier_bot.Base.{Bool, true, false, Option, none, some, List, [], ◌∷◌, nat_eq}
use langolier_bot.Base.Int.{ℤ, int_eq}
use langolier_bot.Base.Maps.{Map, lookup, insert}
use langolier_bot.Base.Sort.{sort_by}
use langolier_bot.Base.Calls.{Answer, got, failed}
use langolier_bot.Tgclient.Group.{Group, Elem, group_from_elem}
use langolier_bot.Tgclient.Delete.{not_running}

abbrev pub Groups : Type 0
Groups = Map ℤ Group

-- The callback of ForEach, over the dialogs.
abbrev pub keep_group : Option Group → List Group → List Group
keep_group none gs = gs
keep_group (some g) gs = g ∷ gs

unfoldable pub eligible : List Elem → List Group
eligible [] = []
eligible (e ∷ es) = keep_group (group_from_elem e) (eligible es)

unfoldable pub cache_groups : List Group → Groups → Groups
cache_groups [] cache = cache
cache_groups (g ∷ gs) cache = cache_groups gs (insert g.marked_id g cache)

unfoldable pub sort_groups : List Group → List Group
unfolding sort_by
sort_groups gs = sort_by (λ (g : Group). g.title) gs

-- Group
unfoldable pub group : Groups → ℤ → Option Group
group cache marked = lookup marked cache

module _ {G : Type 0} (dialogs : G → Answer (List Elem) × G) where
  abbrev pub resolved : Groups → Answer (List Elem) × G → Answer (List Group) × Groups × G
  resolved cache (failed e, w) = (failed e, cache, w)
  resolved cache (got es, w) =
      let groups = eligible es in (got (sort_groups groups), cache_groups groups cache, w)

  -- `running` is whether `apiRef` has a client to return.
  unfoldable pub resolve_groups : Bool → Groups → G → Answer (List Group) × Groups × G
  resolve_groups false cache w = (failed not_running, cache, w)
  resolve_groups true cache w = resolved cache (dialogs w)
