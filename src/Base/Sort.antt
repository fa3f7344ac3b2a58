-- ===== src/Base/Sort.antt =====
-- Go's order of strings, and `sort`: by insertion, in one of the orders that Go allows for equal keys.
use mathlib.Core.Path.{◌≡◌, refl}
use mathlib.Core.Logic.{inl, inr}
use mathlib.Core.Bool.{Bool, true, false, ◌&&◌, ◌||◌}
use mathlib.Core.List.{List, [], ◌∷◌, Perm}
use native.Mathlib.Omega.{arith}
use langolier_bot.Base.Tests.{ltb, nat_beq, if◌then◌else◌, Bool-cases}
use langolier_bot.Base.Lists.{All}
use langolier_bot.Base.Text.{Text}
use mathlib.Core.List.Perm

-- The order of Go strings; on code points it is the same as on bytes.
unfoldable pub text_leb : Text → Text → Bool
text_leb [] t = true
text_leb (c ∷ s) [] = false
text_leb (c ∷ s) (d ∷ t) = let rest = text_leb s t in ltb c d || (nat_beq c d && rest)

text_leb-total : (s t : Text) → text_leb s t ≡ false → text_leb t s ≡ true
unfolding text_leb
text_leb-total [] t h = absurd cc
text_leb-total (c ∷ s) [] h = refl
text_leb-total (c ∷ s) (d ∷ t) h = ground (arith, text_leb-total s t)

text_leb_trans : (s t u : Text) → text_leb s t ≡ true → text_leb t u ≡ true → text_leb s u ≡ true
unfolding text_leb
text_leb_trans [] t u h k = refl
text_leb_trans (c ∷ s) [] u h k = absurd cc
text_leb_trans (c ∷ s) (d ∷ t) [] h k = absurd cc
text_leb_trans (c ∷ s) (d ∷ t) (e ∷ u) h k = ground (arith, text_leb_trans s t u)

module _ {ℓ} {A : Type ℓ} (key : A → Text) where
  unfoldable pub insert_by : A → List A → List A
  insert_by x [] = x ∷ []
  insert_by x (y ∷ ys) = if text_leb (key x) (key y) then x ∷ y ∷ ys else y ∷ insert_by x ys

  unfoldable pub sort_by : List A → List A
  sort_by [] = []
  sort_by (x ∷ xs) = insert_by x (sort_by xs)

  -- Every element is followed by greater or equal ones only.
  abbrev pub IsSorted : List A → Type 0
  IsSorted [] = Unit
  IsSorted (x ∷ xs) = All (λ (y : A). text_leb (key x) (key y) ≡ true) xs × IsSorted xs

  All-insert_by {κ} :
      (P : A → Type κ) (x : A) (ys : List A) → P x → All P ys → All P (insert_by x ys)
  unfolding insert_by
  All-insert_by P x [] p h = (p, tt)
  All-insert_by P x (y ∷ ys) p h = elim (Bool-cases (text_leb (key x) (key y))) [
    | inl e ↦ rw e (p, h)
    | inr e ↦ rw e (h.0, All-insert_by P x ys p h.1)
  ]

  All-trans :
      (s t : Text) (ys : List A)
      → text_leb s t ≡ true
      → All (λ (y : A). text_leb t (key y) ≡ true) ys
      → All (λ (y : A). text_leb s (key y) ≡ true) ys
  All-trans s t [] h k = tt
  All-trans s t (y ∷ ys) h k = (text_leb_trans s t (key y) h k.0, All-trans s t ys h k.1)

  insert_by-IsSorted : (x : A) (ys : List A) → IsSorted ys → IsSorted (insert_by x ys)
  unfolding insert_by
  insert_by-IsSorted x [] h = (tt, tt)
  insert_by-IsSorted x (y ∷ ys) h = elim (Bool-cases (text_leb (key x) (key y))) [
    | inl e ↦ rw e ((e, All-trans (key x) (key y) ys e h.0), h)
    | inr e ↦ rw e (
      All-insert_by (λ (z : A). text_leb (key y) (key z) ≡ true) x ys
          (text_leb-total (key x) (key y) e) h.0,
      insert_by-IsSorted x ys h.1,
    )
  ]

  pub sort_by-IsSorted : (xs : List A) → IsSorted (sort_by xs)
  unfolding sort_by
  sort_by-IsSorted [] = tt
  sort_by-IsSorted (x ∷ xs) = insert_by-IsSorted x (sort_by xs) (sort_by-IsSorted xs)

  insert_by-perm : (x : A) (ys : List A) → Perm (insert_by x ys) (x ∷ ys)
  unfolding insert_by
  insert_by-perm x [] = Perm.refl (x ∷ [])
  insert_by-perm x (y ∷ ys) = elim (Bool-cases (text_leb (key x) (key y))) [
    | inl e ↦ rw e (Perm.refl (x ∷ y ∷ ys))
    | inr e ↦ rw e (Perm.trans (Perm.cons y (insert_by-perm x ys)) (Perm.swap x y ys))
  ]

  pub sort_by-perm : (xs : List A) → Perm (sort_by xs) xs
  unfolding sort_by
  sort_by-perm [] = Perm.refl []
  sort_by-perm (x ∷ xs) = Perm.trans (insert_by-perm x (sort_by xs)) (Perm.cons x (sort_by-perm xs))

  pub All-sort_by {κ} : (P : A → Type κ) (xs : List A) → All P xs → All P (sort_by xs)
  unfolding sort_by
  All-sort_by P [] h = tt
  All-sort_by P (x ∷ xs) h = All-insert_by P x (sort_by xs) h.0 (All-sort_by P xs h.1)
