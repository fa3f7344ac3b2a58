-- ===== src/Cleaner/Deleting.antt =====
-- internal/cleaner/cleaner.go: what deleteIDs does to the index, and what its report says.
use langolier_bot.Base.{
  ℕ, Bool, true, false, Option, none, some, List, [], ◌∷◌, ◌≡◌, refl, ap, ◌&&◌, not, nat_eq,
  if◌then◌else◌, ◌==◌, contains, arith, length, keep, contains-keep,
}
use langolier_bot.Base.Int.{ℤ, int_eq}
use langolier_bot.Base.Text.{Text}
use langolier_bot.Tgclient.Group.{Group}
use langolier_bot.Cleaner.Env.{Tg}
use langolier_bot.Cleaner.State.{Cleaner}
use langolier_bot.Cleaner.Sweep.{settle, delete_ids, delete_found}
use langolier_bot.Cleaner.Lookup.{sent_at, sent_at-remove_locked}

-- The ids that a deletion leaves undone.
abbrev pub failures : {W : Type 0} → Tg W → Option Group → List ℕ → W → List ℕ
failures tg none ids w = []
failures tg (some g) [] w = []
failures tg (some g) (id ∷ ids) w = (tg.delete g (id ∷ ids) w).0.0

abbrev pub is_known : {A : Type 0} → Option A → Bool
is_known none = false
is_known (some a) = true

pub keep-none : (bad ids : List ℕ) → bad ≡ [] → keep (λ (x : ℕ). not (contains bad x)) ids ≡ ids
keep-none bad [] e = refl
keep-none bad (id ∷ ids) e = ground (arith, keep-none bad ids e)

module _ {W : Type 0} (tg : Tg W) where
  settle-index :
      (g : Group) (marked j : ℤ) (ids bad : List ℕ) (c : Cleaner) (id : ℕ)
      → sent_at (settle tg g marked ids bad c).1.index j id ≡ (
          if (marked == j) && (contains ids id && not (contains bad id))
          then none
          else sent_at c.index j id)
  unfolding settle
  settle-index g marked j ids bad c id = ground (
    arith,
    sent_at-remove_locked c.index marked j (keep (λ (x : ℕ). not (contains bad x)) ids) id,
    contains-keep (λ (x : ℕ). not (contains bad x)) id ids,
  )

  delete_found-index :
      (found : Option Group) (marked j : ℤ) (ids : List ℕ) (c : Cleaner) (w : W) (id : ℕ)
      → sent_at (delete_found tg found marked ids c w).1.index j id ≡ (
          if is_known found
            && ((marked == j) && (contains ids id && not (contains (failures tg found ids w) id)))
          then none
          else sent_at c.index j id)
  delete_found-index none marked j ids c w id = refl
  delete_found-index (some g) marked j [] c w id = ground arith
  delete_found-index (some g) marked j (x ∷ ids) c w id =
      settle-index g marked j (x ∷ ids) (tg.delete g (x ∷ ids) w).0.0 c id

  -- deleteIDs takes from the index the messages that it was asked to delete in a known chat and that
  -- the client did not return as failed; every other message of every chat stays.
  pub delete_ids-index :
      (marked j : ℤ) (ids : List ℕ) (c : Cleaner) (w : W) (id : ℕ)
      → sent_at (delete_ids tg marked ids c w).1.index j id ≡ (
          if is_known (tg.group w marked)
            && ((marked == j)
                && (contains ids id && not (contains (failures tg (tg.group w marked) ids w) id)))
          then none
          else sent_at c.index j id)
  unfolding delete_ids
  delete_ids-index marked j ids c w id = delete_found-index (tg.group w marked) marked j ids c w id

  -- If the client returns no failed ids, even though it returns an error, deleteIDs reports every id
  -- as deleted. The client does so when it is not running and has sent no request at all.
  pub delete_ids_unsent :
      (g : Group) (marked : ℤ) (ids : List ℕ) (c : Cleaner) (w w' : W) (e : Text)
      → tg.group w marked ≡ some g
      → tg.delete g ids w ≡ (([], some e), w')
      → ((delete_ids tg marked ids c w).0.deleted ≡ length ids)
        × ((delete_ids tg marked ids c w).0.failed ≡ 0)
  unfolding delete_ids settle
  delete_ids_unsent g marked [] c w w' e p q = (rw p refl, rw p refl)
  delete_ids_unsent g marked (id ∷ ids) c w w' e p q =
      let none_bad = ap (λ (r : (List ℕ × Option Text) × W). r.0.0) q in
      (
        rw p (ap (length {A = ℕ}) (keep-none (tg.delete g (id ∷ ids) w).0.0 (id ∷ ids) none_bad)),
        rw p (ap (length {A = ℕ}) none_bad),
      )
