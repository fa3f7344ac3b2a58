-- ===== src/Cleaner/Sweeping.antt =====
-- internal/cleaner/cleaner.go: what a sweep leaves in the index.
use langolier_bot.Base.{
  ℕ, Option, none, some, List, [], ◌∷◌, ◌≡◌, refl, ◌∙◌, ap, nat_eq, arith, ◌&&◌, if◌then◌else◌,
}
use langolier_bot.Base.Int.{ℤ, int_eq, int_beq_iff}
use langolier_bot.Chatcfg.Store.{Store}
use langolier_bot.Tgclient.Group.{Group}
use langolier_bot.Cleaner.Env.{Tg, Host}
use langolier_bot.Cleaner.State.{Cleaner}
use langolier_bot.Cleaner.Sweep.{collect, run_jobs, sweep, delete_ids, delete_found}
use langolier_bot.Cleaner.Lookup.{sent_at}
use langolier_bot.Cleaner.Deleting.{failures, is_known, delete_ids-index}
use langolier_bot.Cleaner.Due.{asks, wanted, IsKeyed, asks-collect}

module _ {W : Type 0} (tg : Tg W) (host : Host W) (alive : (w : W) → host.ctx_err w ≡ none)
    (keeps : (g : Group) (ids : List ℕ) (w : W) (marked : ℤ)
      → tg.group (tg.delete g ids w).1 marked ≡ tg.group w marked)
    (deletes : (g : Group) (ids : List ℕ) (w : W) → (tg.delete g ids w).0.0 ≡ []) where
  no_failures : (found : Option Group) (ids : List ℕ) (w : W) → failures tg found ids w ≡ []
  no_failures none ids w = refl
  no_failures (some g) [] w = refl
  no_failures (some g) (id ∷ ids) w = deletes g (id ∷ ids) w

  delete_found-group :
      (found : Option Group) (marked : ℤ) (ids : List ℕ) (c : Cleaner) (w : W) (j : ℤ)
      → tg.group (delete_found tg found marked ids c w).2 j ≡ tg.group w j
  delete_found-group none marked ids c w j = refl
  delete_found-group (some g) marked [] c w j = refl
  delete_found-group (some g) marked (id ∷ ids) c w j = keeps g (id ∷ ids) w j

  delete_ids-group :
      (marked : ℤ) (ids : List ℕ) (c : Cleaner) (w : W) (j : ℤ)
      → tg.group (delete_ids tg marked ids c w).2 j ≡ tg.group w j
  unfolding delete_ids
  delete_ids-group marked ids c w j = delete_found-group (tg.group w marked) marked ids c w j

  run_jobs-index :
      (jobs : List (ℤ × List ℕ)) (c : Cleaner) (w : W) (j : ℤ) (id : ℕ)
      → sent_at (run_jobs tg host jobs c w).0.index j id
        ≡ (if is_known (tg.group w j) && asks jobs j id then none else sent_at c.index j id)
  unfolding run_jobs
  run_jobs-index [] c w j id = ground arith
  run_jobs-index ((marked, ids) ∷ jobs) c w j id =
      let r = delete_ids tg marked ids c w in
      rw (alive w, run_jobs)
        (run_jobs-index jobs r.1 r.2 j id
          ∙ ground (
            arith,
            delete_ids-index tg marked j ids c w id,
            ap is_known (delete_ids-group marked ids c w j),
            int_beq_iff marked j,
            λ (e : marked ≡ j). ap (λ i. is_known (tg.group w i)) e,
            no_failures (tg.group w marked) ids w,
          ))

  -- While the context is alive, and the client returns no id as failed when it deletes and still knows
  -- the same chats: a sweep takes from an index with unique keys exactly the messages that were due when
  -- it began, in the chats with a positive TTL that the client knows.
  pub sweep-index :
      (cfg : Store) (c : Cleaner) (w : W) (j : ℤ) (id : ℕ)
      → IsKeyed c.index
      → sent_at (sweep tg host cfg c w).0.index j id ≡ (
          if is_known (tg.group w j) && wanted cfg (host.now w) c.index j id
          then none
          else sent_at c.index j id)
  unfolding sweep
  sweep-index cfg c w j id k =
      run_jobs-index (collect cfg (host.now w) c.index) c w j id
      ∙ ap (λ b. if is_known (tg.group w j) && b then none else sent_at c.index j id)
          (asks-collect cfg (host.now w) c.index j id k)
