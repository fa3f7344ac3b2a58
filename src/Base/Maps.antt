-- ===== src/Base/Maps.antt =====
-- Go maps as association lists. `range` goes through the entries in the order of the list; Go
-- promises no order, so no theorem may depend on it.
use langolier_bot.Base.Tests.{Equality, ◌==◌, if◌then◌else◌, is_some, Bool-cases}
use mathlib.Core.Logic.{inl, inr}
use langolier_bot.Base.Lists.{contains, All}
use mathlib.Core.Path.{◌≡◌, refl, subst}
use mathlib.Core.Bool.{false}
use mathlib.Core.List.{List, [], ◌∷◌}
use mathlib.Core.Option.{Option, none, some}
use native.Mathlib.Omega.{arith}

abbrev pub Map {ℓ κ} : Type ℓ → Type κ → Type (ℓ ⊔ κ)
Map K V = List (K × V)

module _ {ℓ κ} {K : Type ℓ} ⦃e : Equality K⦄ {V : Type κ} where
  -- m[k], with `none` for a missing key
  unfoldable pub lookup : K → Map K V → Option V
  lookup k [] = none
  lookup k ((i, v) ∷ m) = let later = lookup k m in if i == k then some v else later

  -- m[k] = v
  unfoldable pub insert : K → V → Map K V → Map K V
  insert k v [] = (k, v) ∷ []
  insert k v ((i, u) ∷ m) = if i == k then (k, v) ∷ m else (i, u) ∷ insert k v m

  -- delete(m, k)
  unfoldable pub delete : K → Map K V → Map K V
  delete k [] = []
  delete k ((i, u) ∷ m) = let rest = delete k m in if i == k then rest else (i, u) ∷ rest

  abbrev pub keys : Map K V → List K
  keys [] = []
  keys ((j, v) ∷ m) = j ∷ keys m

  abbrev pub IsUnique : Map K V → Type 0
  IsUnique [] = Unit
  IsUnique ((j, v) ∷ m) = (contains (keys m) j ≡ false) × IsUnique m

  pub lookup-insert :
      (k l : K) (v : V) (m : Map K V)
      → lookup l (insert k v m) ≡ (if k == l then some v else lookup l m)
  unfolding lookup insert
  lookup-insert k l v [] = refl
  lookup-insert k l v ((i, old) ∷ m) =
      ground (arith, e.same_iff k l, e.same_iff i k, e.same_iff i l, lookup-insert k l v m)

  pub lookup-delete :
      (k j : K) (m : Map K V) → lookup j (delete k m) ≡ (if k == j then none else lookup j m)
  unfolding lookup delete
  lookup-delete k j [] = ground arith
  lookup-delete k j ((i, w) ∷ m) =
      ground (arith, e.same_iff k j, e.same_iff i k, e.same_iff i j, lookup-delete k j m)

  pub contains-keys : (k : K) (m : Map K V) → contains (keys m) k ≡ is_some (lookup k m)
  unfolding lookup
  contains-keys k [] = refl
  contains-keys k ((i, w) ∷ m) = ground (arith, contains-keys k m)

  pub insert-IsUnique : (k : K) (v : V) (m : Map K V) → IsUnique m → IsUnique (insert k v m)
  unfolding insert
  insert-IsUnique k v [] u = (refl, tt)
  insert-IsUnique k v ((i, w) ∷ m) u = ground (
    arith,
    e.same_iff i k,
    e.same_iff k i,
    insert-IsUnique k v m,
    contains-keys i m,
    contains-keys i (insert k v m),
    lookup-insert k i v m,
  )

  pub delete-IsUnique : (k : K) (m : Map K V) → IsUnique m → IsUnique (delete k m)
  unfolding delete
  delete-IsUnique k [] u = tt
  delete-IsUnique k ((i, w) ∷ m) u = ground (
    arith,
    delete-IsUnique k m,
    contains-keys i m,
    contains-keys i (delete k m),
    lookup-delete k i m,
  )

  -- What holds of every entry.
  pub All-insert {μ} :
      (P : K × V → Type μ) (k : K) (v : V) (m : Map K V) → P (k, v) → All P m → All P (insert k v m)
  unfolding insert
  All-insert P k v [] p h = (p, tt)
  All-insert P k v ((i, w) ∷ m) p h = elim (Bool-cases (i == k)) [
    | inl q ↦ rw q (p, h.1)
    | inr q ↦ rw q (h.0, All-insert P k v m p h.1)
  ]

  pub All-delete {μ} : (P : K × V → Type μ) (k : K) (m : Map K V) → All P m → All P (delete k m)
  unfolding delete
  All-delete P k [] h = tt
  All-delete P k ((i, w) ∷ m) h = elim (Bool-cases (i == k)) [
    | inl q ↦ rw q (All-delete P k m h.1)
    | inr q ↦ rw q (h.0, All-delete P k m h.1)
  ]

  pub All-lookup {μ} :
      (P : V → Type μ) (k : K) (v : V) (m : Map K V)
      → All (λ (x : K × V). P x.1) m
      → lookup k m ≡ some v
      → P v
  unfolding lookup
  All-lookup P k v [] h e = absurd (ground arith)
  All-lookup P k v ((i, w) ∷ m) h e = elim (Bool-cases (i == k)) [
    | inl q ↦ subst P (ground arith) h.0
    | inr q ↦ All-lookup P k v m h.1 (ground arith)
  ]

  pub insert-ne-nil : (k : K) (v : V) (m : Map K V) → insert k v m ≡ [] → ⊥
  unfolding insert
  insert-ne-nil k v [] e = cc
  insert-ne-nil k v ((i, w) ∷ m) e = ground arith
