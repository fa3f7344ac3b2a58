-- ===== src/Tgclient/Resolve/Cache.antt =====
-- internal/tgclient/tgclient.go: what ResolveGroups returns and what Group finds afterwards.
use langolier_bot.Base.{
  true, some, List, [], ◌∷◌, ◌≡◌, refl, arith, All, Bool-cases, ◌∙◌, inl, inr, nat_eq, same_refl,
  ◌==◌,
}
use mathlib.Core.List.{Perm}
use langolier_bot.Base.Int.{ℤ, int_eq, int_beq_iff}
use langolier_bot.Base.Maps.{insert, lookup-insert}
use langolier_bot.Base.Sort.{IsSorted, sort_by-IsSorted, sort_by-perm, All-sort_by}
use langolier_bot.Base.Calls.{Answer, got, failed}
use langolier_bot.Tgclient.Group.{Group, Elem}
use langolier_bot.Tgclient.Resolve.Eligible.{Listed, eligible-Listed}
use langolier_bot.Tgclient.Resolve.{
  Groups, eligible, cache_groups, sort_groups, group, resolved, resolve_groups,
}

-- A group that is found under a marked id has that marked id.
abbrev pub IsKeyed : Groups → Type 0
IsKeyed cache = (j : ℤ) (g : Group) → group cache j ≡ some g → g.marked_id ≡ j

abbrev pub IsFound : Groups → ℤ → Type 0
IsFound cache j = (g : Group) × (group cache j ≡ some g)

insert-IsKeyed : (g : Group) (cache : Groups) → IsKeyed cache → IsKeyed (insert g.marked_id g cache)
unfolding group
insert-IsKeyed g cache h j x e =
    ground (arith, lookup-insert g.marked_id j g cache, h j x, int_beq_iff g.marked_id j)

insert-IsFound :
    (g : Group) (cache : Groups) (j : ℤ) → IsFound cache j → IsFound (insert g.marked_id g cache) j
unfolding group
insert-IsFound g cache j (x, e) = elim (Bool-cases (g.marked_id == j)) [
  | inl q ↦ (g, lookup-insert g.marked_id j g cache ∙ rw q refl)
  | inr q ↦ (x, lookup-insert g.marked_id j g cache ∙ rw q e)
]

cache_groups-IsKeyed :
    (gs : List Group) (cache : Groups) → IsKeyed cache → IsKeyed (cache_groups gs cache)
unfolding cache_groups
cache_groups-IsKeyed [] cache h = h
cache_groups-IsKeyed (g ∷ gs) cache h =
    cache_groups-IsKeyed gs (insert g.marked_id g cache) (insert-IsKeyed g cache h)

IsFound-cache_groups :
    (gs : List Group) (cache : Groups) (j : ℤ) → IsFound cache j → IsFound (cache_groups gs cache) j
unfolding cache_groups
IsFound-cache_groups [] cache j h = h
IsFound-cache_groups (g ∷ gs) cache j h =
    IsFound-cache_groups gs (insert g.marked_id g cache) j (insert-IsFound g cache j h)

group-insert_self :
    (g : Group) (cache : Groups) → group (insert g.marked_id g cache) g.marked_id ≡ some g
unfolding group
group-insert_self g cache =
    lookup-insert g.marked_id g.marked_id g cache ∙ rw (same_refl g.marked_id) refl

cache_groups-IsFound :
    (gs : List Group) (cache : Groups)
    → All (λ (g : Group). IsFound (cache_groups gs cache) g.marked_id) gs
unfolding cache_groups
cache_groups-IsFound [] cache = tt
cache_groups-IsFound (g ∷ gs) cache =
    let first : IsFound (insert g.marked_id g cache) g.marked_id = (g, group-insert_self g cache) in
    (
      IsFound-cache_groups gs (insert g.marked_id g cache) g.marked_id first,
      cache_groups-IsFound gs (insert g.marked_id g cache),
    )

module _ {G : Type 0} (dialogs : G → Answer (List Elem) × G) where
  -- What ResolveGroups promises of its answer, the cache before it, and the cache after it.
  abbrev pub Resolves : Answer (List Elem) → Groups → Answer (List Group) → Groups → Type 0
  Resolves (failed e) before answer after = (answer ≡ failed e) × (after ≡ before)
  Resolves (got es) before answer after =
      (groups : List Group) × (shown : List Group) × (answer ≡ got groups)
      × Listed es shown
      × Perm groups shown
      × IsSorted (λ (g : Group). g.title) groups
      × All (λ (g : Group). IsFound after g.marked_id) groups
      × ((j : ℤ) → IsFound before j → IsFound after j)

  resolve_groups-answer :
      (cache : Groups) (p : Answer (List Elem) × G)
      → IsKeyed cache
      → let r = resolved dialogs cache p in Resolves p.0 cache r.0 r.1 × IsKeyed r.1
  unfolding sort_groups
  resolve_groups-answer cache (failed e, w) h = ((refl, refl), h)
  resolve_groups-answer cache (got es, w) h =
      let gs = eligible es in
      let title = λ (g : Group). g.title in
      (
        (
          sort_groups gs,
          gs,
          refl,
          eligible-Listed es,
          sort_by-perm title gs,
          sort_by-IsSorted title gs,
          All-sort_by title (λ (g : Group). IsFound (cache_groups gs cache) g.marked_id) gs
              (cache_groups-IsFound gs cache),
          λ j found. IsFound-cache_groups gs cache j found,
        ),
        cache_groups-IsKeyed gs cache h,
      )

  -- ResolveGroups returns, sorted by title, one group for each dialog that shows one: a dialog with a
  -- basic group that the account is in and that is neither deactivated nor migrated, or with a
  -- supergroup that it is in; the group has the ids, the names and the kind of what its dialog shows.
  -- Group then finds a group with the marked id of each; a group that it had found before is not lost. If
  -- the query of the dialogs fails, it returns that error and Group finds what it found before.
  pub resolve_groups-Resolves :
      (cache : Groups) (w : G)
      → IsKeyed cache
      → let r = resolve_groups dialogs true cache w in
        Resolves (dialogs w).0 cache r.0 r.1 × IsKeyed r.1
  unfolding resolve_groups
  resolve_groups-Resolves cache w h = resolve_groups-answer cache (dialogs w) h
