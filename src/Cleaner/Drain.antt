-- ===== src/Cleaner/Drain.antt =====
-- internal/cleaner/cleaner.go: resolveGroup, EnableChat, drainChat and PurgeNow.
pub mod Windows
pub mod Passes
pub mod Complete
pub mod Tests
use langolier_bot.Base.{
  ℕ, zero, suc, ◌+◌, not, ◌&&◌, ◌||◌, Option, none, some, List, [], ◌∷◌, ◌++◌, ltb, leb, nat_beq,
  if◌then◌else◌, length,
}
use langolier_bot.Base.Int.{ℤ, pos, leb_ℤ}
use langolier_bot.Base.Text.{Text, codes}
use langolier_bot.Chatcfg.Config.{ttl}
use langolier_bot.Chatcfg.Store.{Store, get}
use langolier_bot.Tgclient.Group.{Group}
use langolier_bot.Base.Calls.{Visit, Answer, got, failed}
use langolier_bot.Cleaner.Env.{Tg, Host}
use langolier_bot.Cleaner.State.{Cleaner, index_message, mark_active}
use langolier_bot.Cleaner.Sweep.{Report, due_ids, delete_ids, purge_link_limit}

abbrev pub max_drain_passes : ℕ
max_drain_passes = 50

abbrev pub err_unknown_group : Text
err_unknown_group = codes "cleaner: unknown group"

-- The callback of EnableChat, for every message of the scan.
unfoldable pub index_all : ℤ → List Visit → Cleaner → Cleaner
index_all marked [] c = c
index_all marked ((id, date) ∷ visits) c = index_all marked visits (index_message marked id date c)

-- The smallest id of a scan, 0 for an empty one.
unfoldable pub oldest_from : ℕ → List Visit → ℕ
oldest_from oldest [] = oldest
oldest_from oldest ((id, date) ∷ visits) =
    oldest_from (if nat_beq oldest 0 || ltb id oldest then id else oldest) visits

unfoldable pub merge_links : List Text → List Text → List Text
merge_links links [] = links
merge_links links (l ∷ more) =
    let rest = merge_links (links ++ l ∷ []) more in
    if leb purge_link_limit (length links) then links else rest

unfoldable pub merge_report : Report → Report → Report
merge_report dst src = record dst {
  deleted = dst.deleted + src.deleted;
  failed = dst.failed + src.failed;
  links = merge_links dst.links src.links;
}

abbrev pub no_report : Report
no_report = record { title = []; deleted = 0; failed = 0; links = [] }

-- What one pass of the loop ends in: a return, or the next pass.
pub data Pass (W : Type 0) : Type 0 where
  stop : Report → Option Text → Cleaner → W → Pass W
  again : Report → ℕ → Cleaner → W → Pass W

module _ {W : Type 0} (tg : Tg W) (host : Host W) where
  abbrev pub known : Option Group → Answer Group
  known none = failed err_unknown_group
  known (some g) = got g

  abbrev pub resolve_again : ℤ → Answer (List Group) × W → Answer Group × W
  resolve_again marked (failed e, w) = (failed e, w)
  resolve_again marked (got gs, w) = (known (tg.group w marked), w)

  unfoldable pub resolve_group : ℤ → W → Answer Group × W
  resolve_group marked w = elim (tg.group w marked) [
    | some g ↦ (got g, w)
    | none ↦ resolve_again marked (tg.resolve_groups w)
  ]

  abbrev pub scan_into : ℤ → Answer Group × W → Cleaner → Option Text × Cleaner × W
  scan_into marked (failed e, w) c = (some e, c, w)
  scan_into marked (got g, w) c =
      let ((visits, err), w') = tg.scan_own g w in
      (err, index_all marked visits (mark_active marked c), w')

  unfoldable pub enable_chat : ℤ → Cleaner → W → Option Text × Cleaner × W
  enable_chat marked c w = scan_into marked (resolve_group marked w) c

  abbrev pub after_wait : Report → ℕ → Cleaner → Option Text × W → Pass W
  after_wait rep oldest c (some e, w) = stop rep (some e) c w
  after_wait rep oldest c (none, w) = again rep oldest c w

  -- What follows the deletion of a pass.
  abbrev pub after_delete : ℕ → ℕ → Report → Report × Cleaner × W → Pass W
  after_delete prev oldest rep (pr, c, w) =
      let merged = merge_report rep pr in
      if nat_beq pr.deleted 0
      then stop merged none c w
      else if not (nat_beq prev 0) && leb prev oldest
      then stop merged none c w
      else if ltb 0 c.drain_pause
      then after_wait merged oldest c (host.wait c.drain_pause w)
      else again merged oldest c w

  -- What follows a scan without an error.
  abbrev pub after_scan : ℤ → ℕ → ℕ → Report → List ℕ → Cleaner → W → Pass W
  after_scan marked prev oldest rep [] c w = stop rep none c w
  after_scan marked prev oldest rep (id ∷ expired) c w =
      after_delete prev oldest rep (delete_ids tg marked (id ∷ expired) c w)

  abbrev pub after_scanning :
      ℤ → ℤ → ℕ → ℕ → Report → Cleaner → (List Visit × Option Text) × W → Pass W
  after_scanning marked t now prev rep c ((visits, some e), w) =
      stop rep (some e) (index_all marked visits c) w
  after_scanning marked t now prev rep c ((visits, none), w) =
      after_scan marked prev (oldest_from 0 visits) rep (due_ids t now visits)
        (index_all marked visits c) w

  unfoldable pub drain_pass : Group → ℤ → ℤ → ℕ → Report → Cleaner → W → Pass W
  drain_pass g marked t prev rep c w = elim (host.ctx_err w) [
    | some e ↦ stop rep (some e) c w
    | none ↦ after_scanning marked t (host.now w) prev rep c (tg.scan_own g w)
  ]

  -- The loop, with the number of passes that are left.
  unfoldable pub drain_loop :
      ℕ → Group → ℤ → ℤ → ℕ → Report → Cleaner → W → (Report × Option Text) × Cleaner × W
  drain_loop zero g marked t prev rep c w = ((rep, none), c, w)
  drain_loop (suc left) g marked t prev rep c w = elim (drain_pass g marked t prev rep c w) [
    | stop rep' err c' w' ↦ ((rep', err), c', w')
    | again rep' oldest c' w' ↦ drain_loop left g marked t oldest rep' c' w'
  ]

  abbrev pub drain_group :
      Store → ℤ → Answer Group × W → Cleaner → (Report × Option Text) × Cleaner × W
  drain_group cfg marked (failed e, w) c = ((no_report, some e), c, w)
  drain_group cfg marked (got g, w) c =
      let rep = record no_report { title = g.title } in
      let t = ttl (get cfg marked) in
      if leb_ℤ t (pos 0)
      then ((rep, none), c, w)
      else drain_loop max_drain_passes g marked t 0 rep (mark_active marked c) w

  unfoldable pub drain_chat : Store → ℤ → Cleaner → W → (Report × Option Text) × Cleaner × W
  drain_chat cfg marked c w = drain_group cfg marked (resolve_group marked w) c

  unfoldable pub purge_now : Store → ℤ → Cleaner → W → (Report × Option Text) × Cleaner × W
  purge_now cfg marked c w = drain_chat cfg marked c w
