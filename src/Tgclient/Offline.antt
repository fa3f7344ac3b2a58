-- ===== src/Tgclient/Offline.antt =====
-- internal/tgclient/tgclient.go, internal/cleaner/cleaner.go: deleteIDs over a client that does not run.
use langolier_bot.Base.{
  ℕ, false, none, some, Option, List, [], ◌∷◌, ◌≡◌, refl, ap, ◌&&◌, ◌==◌, if◌then◌else◌, length,
  contains, arith, nat_eq,
}
use langolier_bot.Base.Int.{ℤ, int_eq}
use langolier_bot.Tgclient.Group.{Group}
use langolier_bot.Tgclient.Delete.{delete, not_running}
use langolier_bot.Tgclient.Interface.{Gotd, Session, client}
use langolier_bot.Cleaner.State.{Cleaner}
use langolier_bot.Cleaner.Sweep.{delete_ids, delete_found}
use langolier_bot.Cleaner.Lookup.{sent_at}
use langolier_bot.Cleaner.Deleting.{failures, is_known, delete_ids-index, delete_ids_unsent}

module _ {G : Type 0} (gotd : Gotd G) where
  delete-offline :
      (g : Group) (ids : List ℕ) (s : Session G)
      → s.running ≡ false
      → (client gotd).delete g ids s ≡ (([], some not_running), s)
  unfolding delete
  delete-offline g ids s off = rw off refl

  failures-offline :
      (o : Option Group) (ids : List ℕ) (s : Session G)
      → s.running ≡ false
      → failures (client gotd) o ids s ≡ []
  failures-offline none ids s off = refl
  failures-offline (some g) [] s off = refl
  failures-offline (some g) (id ∷ ids) s off = ap (λ r. r.0.0) (delete-offline g (id ∷ ids) s off)

  delete_found-offline :
      (o : Option Group) (marked : ℤ) (ids : List ℕ) (c : Cleaner) (s : Session G)
      → s.running ≡ false
      → (delete_found (client gotd) o marked ids c s).2 ≡ s
  delete_found-offline none marked ids c s off = refl
  delete_found-offline (some g) marked [] c s off = refl
  delete_found-offline (some g) marked (id ∷ ids) c s off =
      ap (λ r. r.1) (delete-offline g (id ∷ ids) s off)

  -- A client that does not run sends no request: the session stays as it is. Yet if the client knows the
  -- chat, deleteIDs reports every id that it was given as deleted and none as failed, and these messages
  -- leave the index, where all others stay.
  pub delete_ids-offline :
      (g : Group) (marked : ℤ) (ids : List ℕ) (c : Cleaner) (s : Session G)
      → s.running ≡ false
      → (client gotd).group s marked ≡ some g
      → let r = delete_ids (client gotd) marked ids c s in
        (r.2 ≡ s)
        × (r.0.deleted ≡ length ids)
        × (r.0.failed ≡ 0)
        × ((j : ℤ) (id : ℕ)
            → sent_at r.1.index j id
              ≡ (if (marked == j) && contains ids id then none else sent_at c.index j id))
  unfolding delete_ids
  delete_ids-offline g marked ids c s off e =
      let (deleted, failed) =
        delete_ids_unsent (client gotd) g marked ids c s s not_running e
          (delete-offline g ids s off) in
      (
        delete_found-offline ((client gotd).group s marked) marked ids c s off,
        deleted,
        failed,
        λ j id. ground (
          arith,
          delete_ids-index (client gotd) marked j ids c s id,
          failures-offline ((client gotd).group s marked) ids s off,
          ap is_known e,
        ),
      )
