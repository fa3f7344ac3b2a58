-- ===== src/Cleaner/Counting.antt =====
-- internal/cleaner/cleaner.go: the deletion counters and the reports agree, and no report has more
-- than `purge_link_limit` links.
use langolier_bot.Base.{
  ℕ, zero, suc, ◌+◌, ◌≤◌, Bool, true, false, Option, none, some, List, [], ◌∷◌, ◌++◌, ◌≡◌, refl,
  ◌&&◌, not, nat_eq, nat_beq, if◌then◌else◌, ◌==◌, contains, arith, Bool-cases, Option-cases, inl,
  inr, length, length-append, keep, leb, ltb,
}
use langolier_bot.Base.Int.{ℤ, pos, int_eq, int_beq_iff, leb_ℤ}
use langolier_bot.Base.Maps.{Map, insert, lookup-insert}
use langolier_bot.Base.Text.{Text, is_empty}
use langolier_bot.Chatcfg.Config.{ttl}
use langolier_bot.Chatcfg.Store.{Store, get}
use langolier_bot.Tgclient.Group.{Group}
use langolier_bot.Base.Calls.{Visit, Answer, got, failed}
use langolier_bot.Cleaner.Env.{Tg, Host}
use langolier_bot.Cleaner.State.{Cleaner, index_message, mark_active}
use langolier_bot.Cleaner.Sweep.{
  Report, purge_link_limit, add_links, settle, delete_ids, delete_found, count_of, sort_ints,
  due_ids,
}
use langolier_bot.Cleaner.Drain.{
  merge_links, merge_report, index_all, drain_pass, after_delete, after_wait, after_scan,
  after_scanning, drain_group, drain_loop, max_drain_passes, drain_chat, Pass, stop, again,
  no_report, resolve_group,
}

count_of-insert :
    (m : Map ℤ ℕ) (marked j : ℤ) (n : ℕ)
    → count_of (insert marked n m) j ≡ (if marked == j then n else count_of m j)
unfolding count_of
count_of-insert m marked j n = ground (arith, lookup-insert marked j n m)

module _ {W : Type 0} (tg : Tg W) where
  length-add_links :
      (g : Group) (ids : List ℕ) (links : List Text)
      → length links ≤ purge_link_limit
      → length (add_links tg g ids links) ≤ purge_link_limit
  unfolding add_links
  length-add_links g [] links h = h
  length-add_links g (id ∷ ids) links h = ground (
    arith,
    length-append links (tg.message_link g id ∷ []),
    length-add_links g ids
        (if is_empty (tg.message_link g id) then links else links ++ tg.message_link g id ∷ []),
  )

length-merge_links :
    (links more : List Text)
    → length links ≤ purge_link_limit
    → length (merge_links links more) ≤ purge_link_limit
unfolding merge_links
length-merge_links links [] h = h
length-merge_links links (l ∷ more) h =
    ground (arith, length-append links (l ∷ []), length-merge_links (links ++ l ∷ []) more)

-- `c` counts what `c₀` counts, and `n` more messages in the chat `marked`.
abbrev pub Counts : ℤ → Cleaner → ℕ → Cleaner → Type 0
Counts marked c₀ n c =
    (j : ℤ)
    → count_of c.deleted j
      ≡ (if marked == j then count_of c₀.deleted j + n else count_of c₀.deleted j)

-- What a report says of the states before and after.
abbrev pub Reports : ℤ → Cleaner → Report → Cleaner → Type 0
Reports marked c₀ rep c = Counts marked c₀ rep.deleted c × (length rep.links ≤ purge_link_limit)

module _ {W : Type 0} (tg : Tg W) where
  delete_found-Reports :
      (found : Option Group) (marked : ℤ) (ids : List ℕ) (c : Cleaner) (w : W)
      → let r = delete_found tg found marked ids c w in Reports marked c r.0 r.1
  unfolding settle
  delete_found-Reports none marked ids c w = (λ j. ground arith, omega arith)
  delete_found-Reports (some g) marked [] c w = (λ j. ground arith, omega arith)
  delete_found-Reports (some g) marked (id ∷ ids) c w =
      let bad = (tg.delete g (id ∷ ids) w).0.0 in
      let good = keep (λ (x : ℕ). not (contains bad x)) (id ∷ ids) in
      (
        λ j. ground (
          arith,
          count_of-insert c.deleted marked j (count_of c.deleted marked + length good),
          int_beq_iff marked j,
        ),
        length-add_links tg g (sort_ints bad) [] (omega arith),
      )

  -- deleteIDs adds to the counter of its chat, and to no other, what its report says was deleted.
  pub delete_ids-Reports :
      (marked : ℤ) (ids : List ℕ) (c : Cleaner) (w : W)
      → let r = delete_ids tg marked ids c w in Reports marked c r.0 r.1
  unfolding delete_ids
  delete_ids-Reports marked ids c w = delete_found-Reports (tg.group w marked) marked ids c w

merge-Reports :
    (marked : ℤ) (c₀ c c' : Cleaner) (rep pr : Report)
    → Reports marked c₀ rep c
    → Reports marked c pr c'
    → Reports marked c₀ (merge_report rep pr) c'
unfolding merge_report
merge-Reports marked c₀ c c' rep pr h k =
    (λ j. ground (arith, h.0 j, k.0 j), length-merge_links rep.links pr.links h.1)

index_all-deleted :
    (marked : ℤ) (visits : List Visit) (c : Cleaner)
    → (index_all marked visits c).deleted ≡ c.deleted
unfolding index_all index_message
index_all-deleted marked [] c = refl
index_all-deleted marked ((id, date) ∷ visits) c =
    index_all-deleted marked visits (index_message marked id date c)

index_all-Reports :
    (marked : ℤ) (visits : List Visit) (c₀ c : Cleaner) (rep : Report)
    → Reports marked c₀ rep c
    → Reports marked c₀ rep (index_all marked visits c)
index_all-Reports marked visits c₀ c rep h = (λ j. rw index_all-deleted (h.0 j), h.1)

-- The state and report in which a pass ends.
abbrev PassReports : {W : Type 0} → ℤ → Cleaner → Pass W → Type 0
PassReports marked c₀ (stop rep err c w) = Reports marked c₀ rep c
PassReports marked c₀ (again rep oldest c w) = Reports marked c₀ rep c

module _ {W : Type 0} (marked : ℤ) (c₀ : Cleaner) where
  PassReports-if :
      (b : Bool) (p q : Pass W)
      → PassReports marked c₀ p
      → PassReports marked c₀ q
      → PassReports marked c₀ (if b then p else q)
  PassReports-if true p q hp hq = hp
  PassReports-if false p q hp hq = hq

module _ {W : Type 0} (tg : Tg W) (host : Host W) (marked : ℤ) (c₀ : Cleaner) where
  after_wait-Reports :
      (rep : Report) (oldest : ℕ) (c : Cleaner) (r : Option Text × W)
      → Reports marked c₀ rep c
      → PassReports marked c₀ (after_wait tg host rep oldest c r)
  after_wait-Reports rep oldest c (some e, w) h = h
  after_wait-Reports rep oldest c (none, w) h = h

  after_delete-Reports :
      (prev oldest : ℕ) (rep : Report) (c : Cleaner) (r : Report × Cleaner × W)
      → Reports marked c₀ rep c
      → Reports marked c r.0 r.1
      → PassReports marked c₀ (after_delete tg host prev oldest rep r)
  after_delete-Reports prev oldest rep c (pr, c', w) h k =
      let m = merge-Reports marked c₀ c c' rep pr h k in
      PassReports-if marked c₀ (nat_beq pr.deleted 0) _ _ m (
        PassReports-if marked c₀ (not (nat_beq prev 0) && leb prev oldest) _ _ m (
          PassReports-if marked c₀ (ltb 0 c'.drain_pause) _ _
            (after_wait-Reports (merge_report rep pr) oldest c' (host.wait c'.drain_pause w) m) m))

  after_scan-Reports :
      (prev oldest : ℕ) (rep : Report) (expired : List ℕ) (c : Cleaner) (w : W)
      → Reports marked c₀ rep c
      → PassReports marked c₀ (after_scan tg host marked prev oldest rep expired c w)
  after_scan-Reports prev oldest rep [] c w h = h
  after_scan-Reports prev oldest rep (id ∷ expired) c w h =
      after_delete-Reports prev oldest rep c (delete_ids tg marked (id ∷ expired) c w) h
        (delete_ids-Reports tg marked (id ∷ expired) c w)

  after_scanning-Reports :
      (t : ℤ) (now prev : ℕ) (rep : Report) (c : Cleaner) (r : (List Visit × Option Text) × W)
      → Reports marked c₀ rep c
      → PassReports marked c₀ (after_scanning tg host marked t now prev rep c r)
  after_scanning-Reports t now prev rep c ((visits, some e), w) h =
      index_all-Reports marked visits c₀ c rep h
  after_scanning-Reports t now prev rep c ((visits, none), w) h =
      after_scan-Reports prev _ rep (due_ids t now visits) _ w
        (index_all-Reports marked visits c₀ c rep h)

  drain_pass-Reports :
      (g : Group) (t : ℤ) (prev : ℕ) (rep : Report) (c : Cleaner) (w : W)
      → Reports marked c₀ rep c
      → PassReports marked c₀ (drain_pass tg host g marked t prev rep c w)
  unfolding drain_pass
  drain_pass-Reports g t prev rep c w h = elim (Option-cases (host.ctx_err w)) [
    | inl e ↦
        rw (e, drain_pass) (after_scanning-Reports t (host.now w) prev rep c (tg.scan_own g w) h)
    | inr (x, e) ↦ rw (e, drain_pass) h
  ]

  abbrev LoopReports : (Report × Option Text) × Cleaner × W → Type 0
  LoopReports r = Reports marked c₀ r.0.0 r.1

  drain_loop-Reports :
      (left : ℕ) (g : Group) (t : ℤ) (prev : ℕ) (rep : Report) (c : Cleaner) (w : W)
      → Reports marked c₀ rep c
      → LoopReports (drain_loop tg host left g marked t prev rep c w)
  unfolding drain_loop
  drain_loop-Reports zero g t prev rep c w h = h
  drain_loop-Reports (suc left) g t prev rep c w h =
      next (drain_pass tg host g marked t prev rep c w) (drain_pass-Reports g t prev rep c w h)
        (λ oldest rep' c' w' k. drain_loop-Reports left g t oldest rep' c' w' k)
    where
      next :
          (p : Pass W)
          → PassReports marked c₀ p
          → ((oldest : ℕ) (rep' : Report) (c' : Cleaner) (w' : W)
              → Reports marked c₀ rep' c'
              → LoopReports (drain_loop tg host left g marked t oldest rep' c' w'))
          → LoopReports (elim p [
            | stop rep' err c' w' ↦ ((rep', err), c', w')
            | again rep' oldest c' w' ↦ drain_loop tg host left g marked t oldest rep' c' w'
          ])
      next (stop rep' err c' w') k rec = k
      next (again rep' oldest c' w') k rec = rec oldest rep' c' w' k

  drain_group-Reports :
      (cfg : Store) (found : Answer Group × W) (c : Cleaner)
      → Reports marked c₀ no_report c
      → LoopReports (drain_group tg host cfg marked found c)
  drain_group-Reports cfg (failed e, w) c h = h
  drain_group-Reports cfg (got g, w) c h =
      elim (Bool-cases (leb_ℤ (ttl (get cfg marked)) (pos 0))) [
        | inl e ↦ rw e h
        | inr e ↦ rw e (
            drain_loop-Reports max_drain_passes g _ 0 _ (mark_active marked c) w
              (unfold mark_active in h))
      ]

-- However a drain of a chat ends, with an error at any point or without, its report counts exactly
-- the messages by which the chat's counter of deletions has grown, no other chat's counter has
-- changed, and the report has at most ten links.
pub drain_chat-Reports :
    {W : Type 0} (tg : Tg W) (host : Host W) (cfg : Store) (marked : ℤ) (c : Cleaner) (w : W)
    → let r = drain_chat tg host cfg marked c w in Reports marked c r.0.0 r.1
unfolding drain_chat
drain_chat-Reports tg host cfg marked c w =
    drain_group-Reports tg host marked c cfg (resolve_group tg host marked w) c
      (λ j. ground arith, omega arith)
