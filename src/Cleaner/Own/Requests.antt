-- ===== src/Cleaner/Own/Requests.antt =====
-- internal/cleaner/cleaner.go: the requests of deleteIDs, the sweep, the drain and EnableChat.
use langolier_bot.Base.{
  ℕ, Option, none, some, List, [], ◌∷◌, ◌≡◌, refl, sym, subst, All, nat_eq, Option-cases,
  Bool-cases, inl, inr,
}
use langolier_bot.Base.Int.{ℤ, pos, leb_ℤ}
use langolier_bot.Base.Calls.{Visit, Answer, got, failed}
use langolier_bot.Chatcfg.Config.{ttl}
use langolier_bot.Chatcfg.Store.{Store, get}
use langolier_bot.Tgclient.Group.{Group}
use langolier_bot.Cleaner.Env.{Tg, Host}
use langolier_bot.Cleaner.State.{Cleaner, Index, index_message}
use langolier_bot.Cleaner.Sweep.{
  add_job, collect, settle, delete_found, delete_ids, run_jobs, sweep,
}
use langolier_bot.Cleaner.Drain.{index_all, known, resolve_again, resolve_group}
use langolier_bot.Cleaner.Own.{AreOwn, IsOwn, index_message-IsOwn, remove_locked-IsOwn, due_ids-own}

-- What the client promises in a good world: a chat is found under its id, as a group of the kind `F`; a
-- scan of such a group returns the account's own messages; and the world stays good in every call, if
-- only own messages are deleted.
pub record Guards {W : Type 0} (tg : Tg W) (host : Host W) (K : ℤ → ℕ → Type 0) (F : Group → Type 0)
    (Good : W → Type 0) : Type 0 where
  pub names :
      (w : W) (marked : ℤ) (g : Group)
      → Good w
      → tg.group w marked ≡ some g
      → (g.marked_id ≡ marked) × F g
  pub scans : (g : Group) (w : W) → F g → Good w → AreOwn K g.marked_id (tg.scan_own g w).0.0
  pub scan_keeps : (g : Group) (w : W) → F g → Good w → Good (tg.scan_own g w).1
  pub deletes_keep :
      (g : Group) (ids : List ℕ) (w : W)
      → F g
      → All (K g.marked_id) ids
      → Good w
      → Good (tg.delete g ids w).1
  pub resolve_keeps : (w : W) → Good w → Good (tg.resolve_groups w).1
  pub wait_keeps : (d : ℕ) (w : W) → Good w → Good (host.wait d w).1

module _ {W : Type 0} (tg : Tg W) (host : Host W) (K : ℤ → ℕ → Type 0) (Good : W → Type 0)
    {F : Group → Type 0} (guards : Guards tg host K F Good) where
  abbrev pub Sound : Cleaner → W → Type 0
  Sound c w = IsOwn K c.index × Good w

  delete_found-Sound :
      (found : Option Group) (marked : ℤ) (ids : List ℕ) (c : Cleaner) (w : W)
      → tg.group w marked ≡ found
      → All (K marked) ids
      → Sound c w
      → let r = delete_found tg found marked ids c w in Sound r.1 r.2
  unfolding settle
  delete_found-Sound none marked ids c w e k h = h
  delete_found-Sound (some g) marked [] c w e k h = h
  delete_found-Sound (some g) marked (id ∷ ids) c w e k h = (
    remove_locked-IsOwn K marked _ c.index h.0,
    let (same, f) = guards.names w marked g h.1 e in
        guards.deletes_keep g (id ∷ ids) w f (subst (λ j. All (K j) (id ∷ ids)) (sym same) k) h.1,
  )

  pub delete_ids-Sound :
      (marked : ℤ) (ids : List ℕ) (c : Cleaner) (w : W)
      → All (K marked) ids
      → Sound c w
      → let r = delete_ids tg marked ids c w in Sound r.1 r.2
  unfolding delete_ids
  delete_ids-Sound marked ids c w k h =
      delete_found-Sound (tg.group w marked) marked ids c w refl k h

  abbrev JobsOwn : List (ℤ × List ℕ) → Type 0
  JobsOwn jobs = All (λ (j : ℤ × List ℕ). All (K j.0) j.1) jobs

  add_job-own :
      (marked : ℤ) (ids : List ℕ) (jobs : List (ℤ × List ℕ))
      → All (K marked) ids
      → JobsOwn jobs
      → JobsOwn (add_job marked ids jobs)
  add_job-own marked [] jobs k h = h
  add_job-own marked (id ∷ ids) jobs k h = (k, h)

  collect-own :
      (cfg : Store) (now : ℕ) (index : Index) → IsOwn K index → JobsOwn (collect cfg now index)
  unfolding collect
  collect-own cfg now [] h = tt
  collect-own cfg now ((marked, msgs) ∷ index) h =
      let rest = collect-own cfg now index h.1 in
      elim (Bool-cases (leb_ℤ (ttl (get cfg marked)) (pos 0))) [
        | inl e ↦ rw e rest
        | inr e ↦
            rw e (
              add_job-own marked _ _ (due_ids-own K marked (ttl (get cfg marked)) now msgs h.0)
                rest)
      ]

  run_jobs-Sound :
      (jobs : List (ℤ × List ℕ)) (c : Cleaner) (w : W)
      → JobsOwn jobs
      → Sound c w
      → let r = run_jobs tg host jobs c w in Sound r.0 r.1
  unfolding run_jobs
  run_jobs-Sound [] c w k h = h
  run_jobs-Sound ((marked, ids) ∷ jobs) c w k h = elim (Option-cases (host.ctx_err w)) [
    | inl e ↦
        let r = delete_ids tg marked ids c w in
        rw (e, run_jobs) (run_jobs-Sound jobs r.1 r.2 k.1 (delete_ids-Sound marked ids c w k.0 h))
    | inr (x, e) ↦ rw (e, run_jobs) h
  ]

  pub sweep-Sound :
      (cfg : Store) (c : Cleaner) (w : W)
      → Sound c w
      → let r = sweep tg host cfg c w in Sound r.0 r.1
  unfolding sweep
  sweep-Sound cfg c w h = run_jobs-Sound _ c w (collect-own cfg (host.now w) c.index h.0) h

  pub index_all-IsOwn :
      (marked : ℤ) (visits : List Visit) (c : Cleaner)
      → AreOwn K marked visits
      → IsOwn K c.index
      → IsOwn K (index_all marked visits c).index
  unfolding index_all
  index_all-IsOwn marked [] c k h = h
  index_all-IsOwn marked ((id, date) ∷ visits) c k h =
      index_all-IsOwn marked visits (index_message marked id date c) k.1
        (index_message-IsOwn K marked id date c k.0 h)

  -- The chat that resolveGroup finds.
  abbrev pub IsNamed : ℤ → Answer Group × W → Type 0
  IsNamed marked (failed e, w) = Good w
  IsNamed marked (got g, w) = ((g.marked_id ≡ marked) × F g) × Good w

  known-IsNamed :
      (marked : ℤ) (found : Option Group) (w : W)
      → tg.group w marked ≡ found
      → Good w
      → IsNamed marked (known tg host found, w)
  known-IsNamed marked none w e h = h
  known-IsNamed marked (some g) w e h = (guards.names w marked g h e, h)

  resolve_again-IsNamed :
      (marked : ℤ) (r : Answer (List Group) × W)
      → Good r.1
      → IsNamed marked (resolve_again tg host marked r)
  resolve_again-IsNamed marked (failed e, w) h = h
  resolve_again-IsNamed marked (got gs, w) h = known-IsNamed marked (tg.group w marked) w refl h

  pub resolve_group-IsNamed :
      (marked : ℤ) (w : W) → Good w → IsNamed marked (resolve_group tg host marked w)
  unfolding resolve_group
  resolve_group-IsNamed marked w h = elim (Option-cases (tg.group w marked)) [
    | inl e ↦ rw (e, resolve_group) (resolve_again-IsNamed marked _ (guards.resolve_keeps w h))
    | inr (g, e) ↦ rw (e, resolve_group) (guards.names w marked g h e, h)
  ]
