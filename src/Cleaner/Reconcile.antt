-- ===== src/Cleaner/Reconcile.antt =====
-- internal/cleaner/cleaner.go: Reconcile and chatTitle. The drains that it starts with `go` are
-- returned as `Spawn`s.
pub mod Watch
pub mod Membership
use langolier_bot.Base.{
  Bool, true, false, not, ◌&&◌, Option, none, some, List, [], ◌∷◌, ◌++◌, if◌then◌else◌,
}
use langolier_bot.Base.Int.{ℤ, pos, int_eq, ltb_ℤ}
use langolier_bot.Base.Maps.{Map, lookup, insert, keys}
use langolier_bot.Base.Text.{Text, is_empty}
use langolier_bot.Base.Decimal.{format_int}
use langolier_bot.Chatcfg.Config.{Config, ttl}
use langolier_bot.Chatcfg.Store.{Store, get, list}
use langolier_bot.Tgclient.Group.{Group}
use langolier_bot.Base.Sort.{sort_by}
use langolier_bot.Base.Calls.{Answer, got, failed}
use langolier_bot.Cleaner.Env.{Tg}
use langolier_bot.Cleaner.State.{
  Cleaner, Chats, Spawn, drains, is_active, mark_active, disable_chat,
}

-- sort.Strings
unfoldable pub sort_strings : List Text → List Text
unfolding sort_by
sort_strings ts = sort_by (λ t. t) ts

pub record ReconcileResult : Type 0 where
  pub lost : List Text
  pub rejoined : List Text

abbrev pub no_result : ReconcileResult
no_result = record { lost = []; rejoined = [] }

-- present[g.MarkedID] = struct{}{} for every group
unfoldable pub present_of : List Group → Chats → Chats
present_of [] m = m
present_of (g ∷ gs) m = present_of gs (insert g.marked_id tt m)

abbrev pub mem : Chats → ℤ → Bool
mem m chat = elim (lookup chat m) [ none ↦ false | some u ↦ true ]

-- The configured chats with a TTL, and then the active ones.
unfoldable pub watch_configured : Map ℤ Config → Chats → Chats
watch_configured [] watch = watch
watch_configured ((marked, cfg) ∷ m) watch =
    watch_configured m (if ltb_ℤ (pos 0) cfg.ttl_minutes then insert marked tt watch else watch)

unfoldable pub watch_active : Chats → Chats → Chats
watch_active [] watch = watch
watch_active ((marked, u) ∷ active) watch = watch_active active (insert marked tt watch)

abbrev pub title_or : Option Group → ℤ → Text
title_or none marked = format_int marked
title_or (some g) marked = if not (is_empty g.title) then g.title else format_int marked

-- The state of the loop: the cleaner, the result so far, and what has been started.
abbrev pub Progress : Type 0
Progress = Cleaner × ReconcileResult × List Spawn

abbrev pub sorted : ReconcileResult → ReconcileResult
sorted res = record { lost = sort_strings res.lost; rejoined = sort_strings res.rejoined }

abbrev pub watch_of : Store → Cleaner → Chats
watch_of cfg c = watch_active c.active (watch_configured (list cfg) [])

module _ {W : Type 0} (tg : Tg W) where
  unfoldable pub chat_title : W → ℤ → Text
  chat_title w marked = title_or (tg.group w marked) marked

  unfoldable pub reconcile_chat : Store → Chats → W → ℤ → Progress → Progress
  reconcile_chat cfg present w marked (c, res, spawned) =
      let here = mem present marked in
      let active = is_active marked c in
      if active && not here
      then (
        disable_chat marked c,
        record res { lost = res.lost ++ chat_title w marked ∷ [] },
        spawned,
      )
      else if not active && (here && ltb_ℤ (pos 0) (ttl (get cfg marked)))
      then (
        mark_active marked c,
        record res { rejoined = res.rejoined ++ chat_title w marked ∷ [] },
        spawned ++ drains marked ∷ [],
      )
      else (c, res, spawned)

  unfoldable pub reconcile_chats : Store → Chats → W → List ℤ → Progress → Progress
  reconcile_chats cfg present w [] p = p
  reconcile_chats cfg present w (marked ∷ chats) p =
      reconcile_chats cfg present w chats (reconcile_chat cfg present w marked p)

  abbrev pub reconciled : Progress → W → Answer ReconcileResult × (Cleaner × List Spawn) × W
  reconciled (c, res, spawned) w = (got (sorted res), (c, spawned), w)

  abbrev pub reconcile_with :
      Store
      → Cleaner
      → Answer (List Group) × W
      → Answer ReconcileResult × (Cleaner × List Spawn) × W
  reconcile_with cfg c (failed e, w) = (failed e, (c, []), w)
  reconcile_with cfg c (got groups, w) =
      reconciled
        (reconcile_chats cfg (present_of groups []) w (keys (watch_of cfg c)) (c, no_result, [])) w

  unfoldable pub reconcile :
      Store → Cleaner → W → Answer ReconcileResult × (Cleaner × List Spawn) × W
  reconcile cfg c w = reconcile_with cfg c (tg.resolve_groups w)
