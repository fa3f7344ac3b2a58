-- ===== src/Cleaner/Drain/Passes.antt =====
-- internal/cleaner/cleaner.go: what a pass of drainChat deletes, over a chat that nothing
-- else changes.
use langolier_bot.Base.{
  ℕ, suc, ◌+◌, ◌-◌, ◌≤◌, ◌<◌, Bool, true, false, not, ◌&&◌, Option, none, some, List, [], ◌∷◌, ◌++◌,
  ◌≡◌, refl, sym, ap, ◌∙◌, subst, arith, length, take, nat_eq, nat_beq, ltb, leb, if◌then◌else◌,
  All, take-nil, length-append, ◌⊎◌,
}
use mathlib.Core.List.{append_assoc, append-nil}
use langolier_bot.Base.Int.{ℤ}
use langolier_bot.Base.Text.{Text}
use langolier_bot.Base.Calls.{Visit}
use langolier_bot.Tgclient.Group.{Group}
use langolier_bot.Tgclient.Scan.History.{IsHistory, All-split}
use langolier_bot.Cleaner.Env.{Tg, Host}
use langolier_bot.Cleaner.State.{Cleaner}
use langolier_bot.Cleaner.Sweep.{Report, settle, delete_ids, due_ids, is_due}
use langolier_bot.Cleaner.Drain.{
  merge_report, index_all, drain_pass, after_delete, after_wait, after_scan, after_scanning, Pass,
  stop, again, oldest_from,
}
use langolier_bot.Cleaner.Deleting.{keep-none}
use langolier_bot.Cleaner.Drain.Windows.{
  ids_of, leave, oldest-bounds, take_window, due_ids_window, leave_window,
}

-- A chat whose own messages are `own`: the search shows the newest `window` of them, the server
-- deletes what it is asked to delete, nothing else changes them, and no context is done.
pub record IsQuiet {W : Type 0} (tg : Tg W) (host : Host W) (marked : ℤ) (g : Group) (window : ℕ)
    (own : W → List Visit) : Type 0 where
  pub finds : (w : W) → tg.group w marked ≡ some g
  pub scans : (w : W) → (tg.scan_own g w).0 ≡ (take window (own w), none)
  pub scan_keeps : (w : W) → own (tg.scan_own g w).1 ≡ own w
  pub deletes : (ids : List ℕ) (w : W) → (tg.delete g ids w).0 ≡ ([], none)
  pub delete_leaves : (ids : List ℕ) (w : W) → own (tg.delete g ids w).1 ≡ leave ids (own w)
  pub alive : (w : W) → host.ctx_err w ≡ none
  pub waits : (d : ℕ) (w : W) → (host.wait d w).0 ≡ none
  pub wait_keeps : (d : ℕ) (w : W) → own (host.wait d w).1 ≡ own w

-- Whatever the clock shows.
abbrev pub AlwaysDue : {W : Type 0} → Host W → ℤ → Bool → List Visit → Type 0
AlwaysDue {W} host t b visits = (w : W) → All (λ (v : Visit). is_due t (host.now w) v.1 ≡ b) visits

length-ids_of : (visits : List Visit) → length (ids_of visits) ≡ length visits
length-ids_of [] = refl
length-ids_of (v ∷ visits) = omega (arith, length-ids_of visits)

module _ {W : Type 0} (tg : Tg W) (host : Host W) (marked : ℤ) (g : Group) (window : ℕ)
    (own : W → List Visit) (s : IsQuiet tg host marked g window own) where
  -- What a pass ends in that sees the due messages `seen`, and not `rest`.
  abbrev pub Ends : List Visit → List Visit → ℕ → Pass W → Type 0
  Ends left rest n (stop rep err c w) = ⊥
  Ends left rest n (again rep oldest c w) =
      (rep.deleted ≡ n) × (own w ≡ left) × All (λ (v : Visit). v.0 < oldest) rest

  after_wait-Ends :
      (left rest : List Visit) (n : ℕ) (rep : Report) (oldest : ℕ) (c : Cleaner)
      (r : Option Text × W)
      → r.0 ≡ none
      → Ends left rest n (again rep oldest c r.1)
      → Ends left rest n (after_wait tg host rep oldest c r)
  after_wait-Ends left rest n rep oldest c (none, w) e h = h
  after_wait-Ends left rest n rep oldest c (some x, w) e h = absurd cc

  after_delete-Ends :
      (left rest : List Visit) (prev oldest : ℕ) (rep : Report) (d : ℕ) (r : Report × Cleaner × W)
      → r.0.deleted ≡ suc d
      → (prev ≡ 0) ⊎ (oldest < prev)
      → own r.2 ≡ left
      → All (λ (v : Visit). v.0 < oldest) rest
      → Ends left rest (rep.deleted + suc d) (after_delete tg host prev oldest rep r)
  unfolding merge_report
  after_delete-Ends left rest prev oldest rep d (pr, c, w) e o l q =
      let counted : (rep.deleted + pr.deleted ≡ rep.deleted + suc d) = omega arith in
      let some_deleted : (nat_beq pr.deleted 0 ≡ false) = ground arith in
      let recedes : ((not (nat_beq prev 0) && leb prev oldest) ≡ false) = ground arith in
      rw (some_deleted, recedes)
        (elim (ltb 0 c.drain_pause)
          as (λ b. Ends left rest (rep.deleted + suc d) (
            if b
            then after_wait tg host (merge_report rep pr) oldest c (host.wait c.drain_pause w)
            else again (merge_report rep pr) oldest c w)) [
              | true ↦
                  after_wait-Ends left rest _ (merge_report rep pr) oldest c
                    (host.wait c.drain_pause w) (s.waits c.drain_pause w)
                    (counted, s.wait_keeps c.drain_pause w ∙ l, q)
              | false ↦ (counted, l, q)
            ])

  -- deleteIDs deletes all that it is given.
  delete_all :
      (id : ℕ) (ids : List ℕ) (c : Cleaner) (w : W)
      → let r = delete_ids tg marked (id ∷ ids) c w in
        (r.0.deleted ≡ suc (length ids)) × (own r.2 ≡ leave (id ∷ ids) (own w))
  unfolding delete_ids settle
  delete_all id ids c w =
      let bad = (tg.delete g (id ∷ ids) w).0.0 in
      rw (s.finds w) (
        ap (length {A = ℕ}) (
            keep-none bad (id ∷ ids)
              (ap (λ (r : List ℕ × Option Text). r.0) (s.deletes (id ∷ ids) w))),
        s.delete_leaves (id ∷ ids) w,
      )

  -- A pass that sees the young messages and some that are due deletes those, and another one follows.
  module _ (young more rest : List Visit) (d : Visit) (t : ℤ)
      (h : IsHistory (young ++ ((d ∷ more) ++ rest))) (hy : AlwaysDue host t false young)
      (hd : AlwaysDue host t true (d ∷ more)) where
    seen : List Visit
    seen = young ++ (d ∷ more)

    oldest-seen : (oldest_from 0 seen ≤ d.0) × All (λ (v : Visit). v.0 < oldest_from 0 seen) rest
    unfolding seen
    oldest-seen =
        let (le, behind) =
          oldest-bounds seen rest (omega (arith, length-append young (d ∷ more)))
            (subst IsHistory (sym (append_assoc young (d ∷ more) rest)) h) in
        ((All-split (λ (v : Visit). oldest_from 0 seen ≤ v.0) young (d ∷ more) le).1.0, behind)

    after_scan-Ends :
        (prev : ℕ) (rep : Report) (c : Cleaner) (w : W) (expired : List ℕ)
        → expired ≡ ids_of (d ∷ more)
        → own w ≡ young ++ ((d ∷ more) ++ rest)
        → (prev ≡ 0) ⊎ (d.0 < prev)
        → Ends
            (young ++ rest)
            rest
            (rep.deleted + suc (length more))
            (after_scan tg host marked prev (oldest_from 0 seen) rep expired c w)
    after_scan-Ends prev rep c w expired e o q =
        rw (e, after_scan)
          (let (all, leaves) = delete_all d.0 (ids_of more) c w in
            after_delete-Ends (young ++ rest) rest prev (oldest_from 0 seen) rep (length more)
              (delete_ids tg marked (ids_of (d ∷ more)) c w)
              (all ∙ ap (λ n. suc n) (length-ids_of more)) (ground (arith, oldest-seen.0))
              (leaves ∙ (rw o (leave_window young (d ∷ more) rest h))) oldest-seen.1)

    after_scanning-Ends :
        (now prev : ℕ) (rep : Report) (c : Cleaner) (r : (List Visit × Option Text) × W)
        → r.0 ≡ (seen, none)
        → due_ids t now seen ≡ ids_of (d ∷ more)
        → own r.1 ≡ young ++ ((d ∷ more) ++ rest)
        → (prev ≡ 0) ⊎ (d.0 < prev)
        → Ends
            (young ++ rest)
            rest
            (rep.deleted + suc (length more))
            (after_scanning tg host marked t now prev rep c r)
    after_scanning-Ends now prev rep c ((visits, some x), w) e k o q = absurd cc
    after_scanning-Ends now prev rep c ((visits, none), w) e k o q =
        let v : (visits ≡ seen) = ap (λ (r : List Visit × Option Text). r.0) e in
        rw v (after_scan-Ends prev rep (index_all marked seen c) w (due_ids t now seen) k o q)

    pub pass-Ends :
        (prev : ℕ) (rep : Report) (c : Cleaner) (w : W)
        → own w ≡ young ++ ((d ∷ more) ++ rest)
        → take window (own w) ≡ young ++ (d ∷ more)
        → (prev ≡ 0) ⊎ (d.0 < prev)
        → Ends
            (young ++ rest)
            rest
            (rep.deleted + suc (length more))
            (drain_pass tg host g marked t prev rep c w)
    unfolding drain_pass seen
    pass-Ends prev rep c w o sees q =
        rw (s.alive w, drain_pass)
          (after_scanning-Ends (host.now w) prev rep c (tg.scan_own g w)
            (s.scans w ∙ ap (λ vs. (vs, none)) sees)
            (due_ids_window t (host.now w) young (d ∷ more) (hy w) (hd w)) (s.scan_keeps w ∙ o) q)

  -- A pass that sees no message that is due is the last one.
  abbrev pub Stops : List Visit → ℕ → Pass W → Type 0
  Stops left n (stop rep err c w) = (err ≡ none) × (rep.deleted ≡ n) × (own w ≡ left)
  Stops left n (again rep oldest c w) = ⊥

  after_scan-Stops :
      (young : List Visit) (prev oldest : ℕ) (rep : Report) (c : Cleaner) (w : W) (expired : List ℕ)
      → expired ≡ []
      → own w ≡ young
      → Stops young rep.deleted (after_scan tg host marked prev oldest rep expired c w)
  after_scan-Stops young prev oldest rep c w [] e o = (refl, refl, o)
  after_scan-Stops young prev oldest rep c w (id ∷ expired) e o = absurd cc

  after_scanning-Stops :
      (young : List Visit) (t : ℤ) (now prev : ℕ) (rep : Report) (c : Cleaner)
      (r : (List Visit × Option Text) × W)
      → r.0.1 ≡ none
      → due_ids t now r.0.0 ≡ []
      → own r.1 ≡ young
      → Stops young rep.deleted (after_scanning tg host marked t now prev rep c r)
  after_scanning-Stops young t now prev rep c ((visits, some x), w) e k o = absurd cc
  after_scanning-Stops young t now prev rep c ((visits, none), w) e k o =
      after_scan-Stops young prev (oldest_from 0 visits) rep (index_all marked visits c) w
        (due_ids t now visits) k o

  pub last-Stops :
      (young : List Visit) (t : ℤ) (prev : ℕ) (rep : Report) (c : Cleaner) (w : W)
      → length young ≤ window
      → AlwaysDue host t false young
      → own w ≡ young ++ []
      → Stops young rep.deleted (drain_pass tg host g marked t prev rep c w)
  unfolding drain_pass
  last-Stops young t prev rep c w le hy o =
      let sees : ((tg.scan_own g w).0.0 ≡ young ++ []) =
        ap (λ (r : List Visit × Option Text). r.0) (s.scans w)
        ∙ (rw o (
            take_window window young [] le
            ∙ ap (λ vs. young ++ vs) (take-nil (window - length young)))) in
      rw (s.alive w, drain_pass)
        (after_scanning-Stops young t (host.now w) prev rep c (tg.scan_own g w)
          (ap (λ (r : List Visit × Option Text). r.1) (s.scans w))
          (rw sees (due_ids_window t (host.now w) young [] (hy w) tt))
          (s.scan_keeps w ∙ (o ∙ append-nil young)))
