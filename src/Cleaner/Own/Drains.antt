-- ===== src/Cleaner/Own/Drains.antt =====
-- internal/cleaner/cleaner.go: EnableChat and drainChat.
use langolier_bot.Base.{
  ℕ, zero, suc, Bool, true, false, not, ◌&&◌, Option, none, some, List, [], ◌∷◌, ◌≡◌, subst, All,
  nat_eq, nat_beq, ltb, leb, Option-cases, Bool-cases, inl, inr, if◌then◌else◌,
}
use langolier_bot.Base.Int.{ℤ, pos, leb_ℤ}
use langolier_bot.Base.Text.{Text}
use langolier_bot.Base.Calls.{Visit, Answer, got, failed}
use langolier_bot.Chatcfg.Config.{ttl}
use langolier_bot.Chatcfg.Store.{Store, get}
use langolier_bot.Tgclient.Group.{Group}
use langolier_bot.Cleaner.Env.{Tg, Host}
use langolier_bot.Cleaner.State.{Cleaner, mark_active}
use langolier_bot.Cleaner.Sweep.{Report, due_ids, delete_ids}
use langolier_bot.Cleaner.Drain.{
  merge_report, Pass, stop, again, resolve_group, scan_into, enable_chat, after_wait, after_delete,
  after_scan, after_scanning, drain_pass, drain_loop, drain_group, drain_chat, max_drain_passes,
}
use langolier_bot.Cleaner.Own.{AreOwn, IsOwn, due_ids-own}
use langolier_bot.Cleaner.Own.Requests.{
  Guards, Sound, delete_ids-Sound, index_all-IsOwn, IsNamed, resolve_group-IsNamed,
}

module _ {W : Type 0} (tg : Tg W) (host : Host W) (K : ℤ → ℕ → Type 0) (Good : W → Type 0)
    {F : Group → Type 0} (guards : Guards tg host K F Good) where
  abbrev IsSound : Cleaner → W → Type 0
  IsSound c w = Sound tg host K Good guards c w

  -- What a scan of a chat shows, under the id of the chat.
  scan-own :
      (g : Group) (marked : ℤ) (w : W)
      → (g.marked_id ≡ marked) × F g
      → Good w
      → AreOwn K marked (tg.scan_own g w).0.0
  scan-own g marked w e good =
      subst (λ j. AreOwn K j (tg.scan_own g w).0.0) e.0 (guards.scans g w e.1 good)

  scan_into-Sound :
      (marked : ℤ) (found : Answer Group × W) (c : Cleaner)
      → IsNamed tg host K Good guards marked found
      → IsOwn K c.index
      → let r = scan_into tg host marked found c in IsSound r.1 r.2
  unfolding mark_active
  scan_into-Sound marked (failed e, w) c n h = (h, n)
  scan_into-Sound marked (got g, w) c n h = (
    index_all-IsOwn tg host K Good guards marked (tg.scan_own g w).0.0 (mark_active marked c)
        (scan-own g marked w n.0 n.1) h,
    guards.scan_keeps g w n.0.1 n.1,
  )

  pub enable_chat-Sound :
      (marked : ℤ) (c : Cleaner) (w : W)
      → IsSound c w
      → let r = enable_chat tg host marked c w in IsSound r.1 r.2
  unfolding enable_chat
  enable_chat-Sound marked c w h =
      scan_into-Sound marked (resolve_group tg host marked w) c
        (resolve_group-IsNamed tg host K Good guards marked w h.1) h.0

  -- The state in which a pass ends.
  abbrev PassSound : Pass W → Type 0
  PassSound (stop rep err c w) = IsSound c w
  PassSound (again rep oldest c w) = IsSound c w

  by_test : (b : Bool) (p q : Pass W) → PassSound p → PassSound q → PassSound (if b then p else q)
  by_test true p q hp hq = hp
  by_test false p q hp hq = hq

  after_wait-Sound :
      (rep : Report) (oldest : ℕ) (c : Cleaner) (r : Option Text × W)
      → IsSound c r.1
      → PassSound (after_wait tg host rep oldest c r)
  after_wait-Sound rep oldest c (none, w) h = h
  after_wait-Sound rep oldest c (some e, w) h = h

  after_delete-Sound :
      (prev oldest : ℕ) (rep : Report) (r : Report × Cleaner × W)
      → IsSound r.1 r.2
      → PassSound (after_delete tg host prev oldest rep r)
  after_delete-Sound prev oldest rep (pr, c, w) h = by_test (nat_beq pr.deleted 0) _ _ h (
      by_test (not (nat_beq prev 0) && leb prev oldest) _ _ h (
        by_test (ltb 0 c.drain_pause) _ _
          (after_wait-Sound (merge_report rep pr) oldest c (host.wait c.drain_pause w)
            (h.0, guards.wait_keeps c.drain_pause w h.1))
          h))

  after_scan-Sound :
      (marked : ℤ) (prev oldest : ℕ) (rep : Report) (expired : List ℕ) (c : Cleaner) (w : W)
      → All (K marked) expired
      → IsSound c w
      → PassSound (after_scan tg host marked prev oldest rep expired c w)
  after_scan-Sound marked prev oldest rep [] c w k h = h
  after_scan-Sound marked prev oldest rep (id ∷ expired) c w k h =
      after_delete-Sound prev oldest rep (delete_ids tg marked (id ∷ expired) c w)
        (delete_ids-Sound tg host K Good guards marked (id ∷ expired) c w k h)

  after_scanning-Sound :
      (marked t : ℤ) (now prev : ℕ) (rep : Report) (c : Cleaner)
      (r : (List Visit × Option Text) × W)
      → AreOwn K marked r.0.0
      → IsSound c r.1
      → PassSound (after_scanning tg host marked t now prev rep c r)
  after_scanning-Sound marked t now prev rep c ((visits, some e), w) k h =
      (index_all-IsOwn tg host K Good guards marked visits c k h.0, h.1)
  after_scanning-Sound marked t now prev rep c ((visits, none), w) k h =
      after_scan-Sound marked prev _ rep (due_ids t now visits) _ w
        (due_ids-own K marked t now visits k)
        (index_all-IsOwn tg host K Good guards marked visits c k h.0, h.1)

  drain_pass-Sound :
      (g : Group) (marked t : ℤ) (prev : ℕ) (rep : Report) (c : Cleaner) (w : W)
      → (g.marked_id ≡ marked) × F g
      → IsSound c w
      → PassSound (drain_pass tg host g marked t prev rep c w)
  unfolding drain_pass
  drain_pass-Sound g marked t prev rep c w e h = elim (Option-cases (host.ctx_err w)) [
    | inl alive ↦
        rw (alive, drain_pass)
          (after_scanning-Sound marked t (host.now w) prev rep c (tg.scan_own g w)
            (scan-own g marked w e h.1) (h.0, guards.scan_keeps g w e.1 h.1))
    | inr (x, over) ↦ rw (over, drain_pass) h
  ]

  abbrev LoopSound : (Report × Option Text) × Cleaner × W → Type 0
  LoopSound r = IsSound r.1 r.2

  after_pass-Sound :
      (left : ℕ) (g : Group) (marked t : ℤ) (p : Pass W)
      → PassSound p
      → ((rep : Report) (oldest : ℕ) (c : Cleaner) (w : W)
          → IsSound c w
          → LoopSound (drain_loop tg host left g marked t oldest rep c w))
      → LoopSound (elim p [
        | stop rep err c w ↦ ((rep, err), c, w)
        | again rep oldest c w ↦ drain_loop tg host left g marked t oldest rep c w
      ])
  after_pass-Sound left g marked t (stop rep err c w) h rec = h
  after_pass-Sound left g marked t (again rep oldest c w) h rec = rec rep oldest c w h

  drain_loop-Sound :
      (left : ℕ) (g : Group) (marked t : ℤ) (prev : ℕ) (rep : Report) (c : Cleaner) (w : W)
      → (g.marked_id ≡ marked) × F g
      → IsSound c w
      → LoopSound (drain_loop tg host left g marked t prev rep c w)
  unfolding drain_loop
  drain_loop-Sound zero g marked t prev rep c w e h = h
  drain_loop-Sound (suc left) g marked t prev rep c w e h =
      after_pass-Sound left g marked t (drain_pass tg host g marked t prev rep c w)
        (drain_pass-Sound g marked t prev rep c w e h)
        (λ rep' oldest c' w' k. drain_loop-Sound left g marked t oldest rep' c' w' e k)

  drain_group-Sound :
      (cfg : Store) (marked : ℤ) (found : Answer Group × W) (c : Cleaner)
      → IsNamed tg host K Good guards marked found
      → IsOwn K c.index
      → LoopSound (drain_group tg host cfg marked found c)
  unfolding mark_active
  drain_group-Sound cfg marked (failed e, w) c n h = (h, n)
  drain_group-Sound cfg marked (got g, w) c n h =
      elim (Bool-cases (leb_ℤ (ttl (get cfg marked)) (pos 0))) [
        | inl e ↦ rw e (h, n.1)
        | inr e ↦
            rw e (
              drain_loop-Sound max_drain_passes g marked _ 0 _ (mark_active marked c) w n.0
                (h, n.1))
      ]

  pub drain_chat-Sound :
      (cfg : Store) (marked : ℤ) (c : Cleaner) (w : W)
      → IsSound c w
      → LoopSound (drain_chat tg host cfg marked c w)
  unfolding drain_chat
  drain_chat-Sound cfg marked c w h =
      drain_group-Sound cfg marked (resolve_group tg host marked w) c
        (resolve_group-IsNamed tg host K Good guards marked w h.1) h.0
