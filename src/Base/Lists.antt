-- ===== src/Base/Lists.antt =====
-- Lists measured by native numbers, membership as a test, and predicates on every element.
use Prim.Native.Nat.{ℕ, zero, suc, ◌+◌, ◌-◌, ◌≤◌, min}
use mathlib.Core.Path.{◌≡◌, refl, sym, ap, ◌∙◌}
use mathlib.Core.Bool.{Bool, true, false, ◌&&◌, ◌||◌}
use mathlib.Core.List.{List, [], ◌∷◌, ◌++◌}
use mathlib.Core.Logic.{inl, inr}
use mathlib.Core.Option.{Option, none, some}
use native.Mathlib.Omega.{arith}
use native.Mathlib.Nat.{zero-add, suc-add}
use langolier_bot.Base.Tests.{Equality, ◌==◌, if◌then◌else◌, Bool-cases}

-- What holds of the value, if there is one.
abbrev pub Holds {ℓ κ} : {A : Type ℓ} → (A → Type κ) → Option A → Type κ
Holds P none = Unit
Holds P (some a) = P a

module _ {ℓ} {A : Type ℓ} where
  abbrev pub length : List A → ℕ
  length [] = 0
  length (x ∷ xs) = suc (length xs)

  abbrev pub get_elem? : List A → ℕ → Option A
  get_elem? [] i = none
  get_elem? (x ∷ xs) zero = some x
  get_elem? (x ∷ xs) (suc i) = get_elem? xs i

  abbrev pub take : ℕ → List A → List A
  take zero xs = []
  take (suc n) [] = []
  take (suc n) (x ∷ xs) = x ∷ take n xs

  abbrev pub drop : ℕ → List A → List A
  drop zero xs = xs
  drop (suc n) [] = []
  drop (suc n) (x ∷ xs) = drop n xs

  pub length-append : (xs ys : List A) → length (xs ++ ys) ≡ length xs + length ys
  length-append [] ys = omega arith
  length-append (x ∷ xs) ys = omega (arith, length-append xs ys)

  pub take-append-drop : (n : ℕ) (xs : List A) → take n xs ++ drop n xs ≡ xs
  take-append-drop zero xs = refl
  take-append-drop (suc n) [] = refl
  take-append-drop (suc n) (x ∷ xs) = rw (take-append-drop n xs)

  pub length-take : (n : ℕ) (xs : List A) → length (take n xs) ≡ min n (length xs)
  length-take zero xs = omega arith
  length-take (suc n) [] = omega arith
  length-take (suc n) (x ∷ xs) = omega (arith, length-take n xs)

  pub length-drop : (n : ℕ) (xs : List A) → length (drop n xs) ≡ length xs - n
  length-drop zero xs = omega arith
  length-drop (suc n) [] = omega arith
  length-drop (suc n) (x ∷ xs) = omega (arith, length-drop n xs)

  pub length_cut : (n : ℕ) (xs : List A) → length (take n xs) + length (drop n xs) ≡ length xs
  length_cut n xs = sym (length-append (take n xs) (drop n xs)) ∙ ap length (take-append-drop n xs)

  pub drop-nil : (n : ℕ) → drop n [] ≡ []
  drop-nil zero = refl
  drop-nil (suc n) = refl

  pub take-nil : (n : ℕ) → take n [] ≡ []
  take-nil zero = refl
  take-nil (suc n) = refl

  pub drop-all : (n : ℕ) (xs : List A) → length xs ≤ n → drop n xs ≡ []
  drop-all n [] h = drop-nil n
  drop-all zero (x ∷ xs) h = absurd (omega arith)
  drop-all (suc n) (x ∷ xs) h = drop-all n xs (omega arith)

  abbrev pub flatten : List (List A) → List A
  flatten [] = []
  flatten (xs ∷ xss) = xs ++ flatten xss

  -- The elements that pass a test, in order.
  abbrev pub keep : (A → Bool) → List A → List A
  keep p [] = []
  keep p (x ∷ xs) = let rest = keep p xs in if p x then x ∷ rest else rest

  pub length-keep : (p : A → Bool) (xs : List A) → length (keep p xs) ≤ length xs
  length-keep p [] = omega arith
  length-keep p (x ∷ xs) = ground (arith, length-keep p xs)

  -- The pieces on both sides of a cut.
  pub take-drop-append : (i k : ℕ) (xs : List A) → take k (drop i xs) ++ drop (i + k) xs ≡ drop i xs
  take-drop-append zero k xs = rw zero-add (take-append-drop k xs)
  take-drop-append (suc i) k [] = rw (take-nil k) (drop-nil (suc i + k))
  take-drop-append (suc i) k (x ∷ xs) = rw suc-add (take-drop-append i k xs)

  abbrev pub All {κ} : (A → Type κ) → List A → Type κ
  All P [] = Unit
  All P (x ∷ xs) = P x × All P xs

  pub All-append {κ} : (P : A → Type κ) (xs ys : List A) → All P xs → All P ys → All P (xs ++ ys)
  All-append P [] ys hx hy = hy
  All-append P (x ∷ xs) ys hx hy = (hx.0, All-append P xs ys hx.1 hy)

  pub All-weaken {κ μ} :
      (P : A → Type κ) (Q : A → Type μ) (xs : List A) → ((x : A) → P x → Q x) → All P xs → All Q xs
  All-weaken P Q [] f h = tt
  All-weaken P Q (x ∷ xs) f h = (f x h.0, All-weaken P Q xs f h.1)

  pub All-parts {κ} : (P : A → Type κ) (xs ys : List A) → All P (xs ++ ys) → All P xs × All P ys
  All-parts P [] ys h = (tt, h)
  All-parts P (x ∷ xs) ys h = let (hx, hy) = All-parts P xs ys h.1 in ((h.0, hx), hy)

  pub All-take {κ} : (P : A → Type κ) (n : ℕ) (xs : List A) → All P xs → All P (take n xs)
  All-take P zero xs h = tt
  All-take P (suc n) [] h = tt
  All-take P (suc n) (x ∷ xs) h = (h.0, All-take P n xs h.1)

  pub All-drop {κ} : (P : A → Type κ) (n : ℕ) (xs : List A) → All P xs → All P (drop n xs)
  All-drop P zero xs h = h
  All-drop P (suc n) [] h = tt
  All-drop P (suc n) (x ∷ xs) h = All-drop P n xs h.1

  pub All-keep {κ} : (P : A → Type κ) (p : A → Bool) (xs : List A) → All P xs → All P (keep p xs)
  All-keep P p [] h = tt
  All-keep P p (x ∷ xs) h = elim (Bool-cases (p x)) [
    | inl e ↦ rw e (h.0, All-keep P p xs h.1)
    | inr e ↦ rw e (All-keep P p xs h.1)
  ]

  -- What holds of all elements holds of the one at a place, if there is one.
  pub All-get_elem? {κ} :
      (P : A → Type κ) (xs : List A) (i : ℕ) → All P xs → Holds P (get_elem? xs i)
  All-get_elem? P [] i h = tt
  All-get_elem? P (x ∷ xs) zero h = h.0
  All-get_elem? P (x ∷ xs) (suc i) h = All-get_elem? P xs i h.1

  pub All-swap {κ} :
      (R : A → A → Type κ) (xs ys : List A)
      → All (λ x. All (R x) ys) xs
      → All (λ y. All (λ x. R x y) xs) ys
  All-swap R xs [] h = tt
  All-swap R xs (y ∷ ys) h = (
    All-weaken (λ x. All (R x) (y ∷ ys)) (λ x. R x y) xs (λ x q. q.0) h,
    All-swap R xs ys (All-weaken (λ x. All (R x) (y ∷ ys)) (λ x. All (R x) ys) xs (λ x q. q.1) h),
  )

  pub keep-All : (p : A → Bool) (xs : List A) → All (λ x. p x ≡ true) xs → keep p xs ≡ xs
  keep-All p [] h = refl
  keep-All p (x ∷ xs) h = rw h.0 (ap (λ t. x ∷ t) (keep-All p xs h.1))

  pub keep_nothing : (p : A → Bool) (xs : List A) → All (λ x. p x ≡ false) xs → keep p xs ≡ []
  keep_nothing p [] h = refl
  keep_nothing p (x ∷ xs) h = rw h.0 (keep_nothing p xs h.1)

  pub keep-append : (p : A → Bool) (xs ys : List A) → keep p (xs ++ ys) ≡ keep p xs ++ keep p ys
  keep-append p [] ys = refl
  keep-append p (x ∷ xs) ys = ground (arith, keep-append p xs ys)

module _ {ℓ} {A : Type ℓ} ⦃e : Equality A⦄ where
  abbrev pub contains : List A → A → Bool
  contains [] a = false
  contains (x ∷ xs) a = (x == a) || contains xs a

  pub contains-append :
      (a : A) (xs ys : List A) → contains (xs ++ ys) a ≡ (contains xs a || contains ys a)
  contains-append a [] ys = refl
  contains-append a (x ∷ xs) ys = ground (arith, contains-append a xs ys)

  pub contains-keep :
      (p : A → Bool) (a : A) (xs : List A) → contains (keep p xs) a ≡ (contains xs a && p a)
  contains-keep p a [] = refl
  contains-keep p a (x ∷ xs) =
      ground (arith, e.same_iff x a, contains-keep p a xs, λ (q : x ≡ a). ap p q)

module _ {ℓ} {A : Type ℓ} where
  pub All-flatten {κ} :
      (P : A → Type κ) (xss : List (List A)) → All P (flatten xss) → All (All P) xss
  All-flatten P [] h = tt
  All-flatten P (xs ∷ xss) h =
      let (hx, rest) = All-parts P xs (flatten xss) h in (hx, All-flatten P xss rest)
