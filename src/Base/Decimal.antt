-- ===== src/Base/Decimal.antt =====
-- Go's `strconv`: FormatInt, Itoa, ParseInt and Atoi in base ten, on a 64-bit platform.
use Prim.Native.Nat.{ℕ, zero, suc, ◌+◌, ◌-◌, ◌*◌, ◌/◌, ◌%◌, ◌^◌, ◌<◌}
use mathlib.Core.Path.{◌≡◌, refl, sym, ap, ◌∙◌, subst}
use mathlib.Core.Logic.{inl, inr}
use mathlib.Core.Bool.{Bool, true, ◌&&◌}
use mathlib.Core.Option.{Option, none, some}
use mathlib.Core.List.{[], ◌∷◌}
use native.Mathlib.Omega.{arith}
use langolier_bot.Base.Tests.{nat_beq, ltb, leb, if◌then◌else◌, Bool-cases}
use langolier_bot.Base.Lists.{All, Holds}
use langolier_bot.Base.Int.{ℤ, pos, negsuc, InInt64}
use langolier_bot.Base.Text.{Text, codes, NoColon}

abbrev pub is_digit : ℕ → Bool
is_digit c = leb b'0' c && leb c b'9'

unfoldable pub digits_value : ℕ → Text → Option ℕ
digits_value n [] = some n
digits_value n (c ∷ s) =
    let rest = digits_value (n * 10 + (c - b'0')) s in if is_digit c then rest else none

unfoldable pub parse_uint : Text → Option ℕ
unfolding digits_value
parse_uint [] = none
parse_uint (c ∷ s) = digits_value 0 (c ∷ s)

abbrev as_positive : Option ℕ → Option ℤ
as_positive none = none
as_positive (some n) = if ltb n (2 ^ 63) then some (pos n) else none

abbrev negate : ℕ → ℤ
negate zero = pos 0
negate (suc n) = negsuc n

abbrev as_negative : Option ℕ → Option ℤ
as_negative none = none
as_negative (some n) = if leb n (2 ^ 63) then some (negate n) else none

-- strconv.ParseInt(s, 10, 64) and strconv.Atoi; `none` is an error, of syntax or of range.
unfoldable pub parse_int : Text → Option ℤ
parse_int [] = none
parse_int (c ∷ s) =
    if nat_beq c b'-'
    then as_negative (parse_uint s)
    else if nat_beq c b'+'
    then as_positive (parse_uint s)
    else as_positive (parse_uint (c ∷ s))

as_positive-InInt64 : (o : Option ℕ) → Holds InInt64 (as_positive o)
as_positive-InInt64 none = tt
as_positive-InInt64 (some n) = elim (Bool-cases (ltb n (2 ^ 63))) [
  | inl e ↦ rw e (ground arith)
  | inr e ↦ rw e tt
]

as_negative-InInt64 : (o : Option ℕ) → Holds InInt64 (as_negative o)
as_negative-InInt64 none = tt
as_negative-InInt64 (some zero) = (omega arith, omega arith)
as_negative-InInt64 (some (suc n)) = elim (Bool-cases (leb (suc n) (2 ^ 63))) [
  | inl e ↦ rw e (omega arith, ground arith)
  | inr e ↦ rw e tt
]

-- What is parsed is an int64.
pub parse_int-InInt64 : (s : Text) → Holds InInt64 (parse_int s)
unfolding parse_int
parse_int-InInt64 [] = tt
parse_int-InInt64 (c ∷ s) = elim (Bool-cases (nat_beq c b'-')) [
  | inl e ↦ rw e (as_negative-InInt64 (parse_uint s))
  | inr e ↦ elim (Bool-cases (nat_beq c b'+')) [
    | inl f ↦ rw (e, f) (as_positive-InInt64 (parse_uint s))
    | inr f ↦ rw (e, f) (as_positive-InInt64 (parse_uint (c ∷ s)))
  ]
]

-- Digits are put in front of `out`; each round divides by ten.
emit : ℕ → ℕ → Text → Text
emit zero n out = out
emit (suc fuel) n out =
    let rest = emit fuel (n / 10) ((b'0' + n % 10) ∷ out) in
    if ltb n 10 then (b'0' + n) ∷ out else rest

unfoldable pub format_nat : ℕ → Text
unfolding emit
format_nat n = emit (suc n) n []

-- strconv.FormatInt(z, 10) and strconv.Itoa
unfoldable pub format_int : ℤ → Text
format_int (pos n) = format_nat n
format_int (negsuc n) = b'-' ∷ format_nat (suc n)

abbrev pub IsDigits : Text → Type 0
IsDigits s = All (λ c. is_digit c ≡ true) s

emit-IsDigits : (fuel n : ℕ) (out : Text) → IsDigits out → IsDigits (emit fuel n out)
unfolding emit
emit-IsDigits zero n out h = h
emit-IsDigits (suc fuel) n out h = elim (Bool-cases (ltb n 10)) [
  | inl e ↦ rw e (ground arith, h)
  | inr e ↦ rw e (emit-IsDigits fuel (n / 10) ((b'0' + n % 10) ∷ out) (ground arith, h))
]

-- A natural number is printed as digits alone.
pub format_nat-IsDigits : (n : ℕ) → IsDigits (format_nat n)
unfolding format_nat
format_nat-IsDigits n = emit-IsDigits (suc n) n [] tt

digits_value-cons :
    (n k m : ℕ) (out : Text)
    → k < 10
    → n * 10 + k ≡ m
    → digits_value n ((b'0' + k) ∷ out) ≡ digits_value m out
unfolding digits_value
digits_value-cons n k m out h e = ground arith

digits_value-emit :
    (fuel n : ℕ) (out : Text) → n < fuel → digits_value 0 (emit fuel n out) ≡ digits_value n out
unfolding emit
digits_value-emit zero n out h = absurd (omega arith)
digits_value-emit (suc fuel) n out h = elim (Bool-cases (ltb n 10)) [
  | inl e ↦ rw e (digits_value-cons 0 n n out (ground arith) (omega arith))
  | inr e ↦
      rw (e, digits_value-emit fuel (n / 10) ((b'0' + n % 10) ∷ out) (ground arith))
        (digits_value-cons (n / 10) (n % 10) n out (omega arith) (omega arith))
]

abbrev IsCons : Text → Type 0
IsCons s = (c : ℕ) × (r : Text) × (s ≡ c ∷ r)

emit-IsCons : (fuel n : ℕ) (out : Text) → n < fuel → IsCons (emit fuel n out)
unfolding emit
emit-IsCons zero n out h = absurd (omega arith)
emit-IsCons (suc fuel) n out h = elim (Bool-cases (ltb n 10)) [
  | inl e ↦ rw e (b'0' + n, out, refl)
  | inr e ↦ rw e (emit-IsCons fuel (n / 10) ((b'0' + n % 10) ∷ out) (ground arith))
]

pub parse_uint-format_nat : (n : ℕ) → parse_uint (format_nat n) ≡ some n
unfolding parse_uint format_nat digits_value
parse_uint-format_nat n =
    let (c, r, e) = emit-IsCons (suc n) n [] (omega arith) in
    rw e (sym (ap (digits_value 0) e) ∙ digits_value-emit (suc n) n [] (omega arith))

-- The text of a number begins with a digit.
pub format_nat-cons : (n : ℕ) → (c : ℕ) × (r : Text) × (format_nat n ≡ c ∷ r) × (is_digit c ≡ true)
unfolding format_nat
format_nat-cons n =
    let (c, r, e) = emit-IsCons (suc n) n [] (omega arith) in
    (c, r, e, (subst IsDigits e (format_nat-IsDigits n)).0)

parse_int_digit :
    (c : ℕ) (r : Text) → is_digit c ≡ true → parse_int (c ∷ r) ≡ as_positive (parse_uint (c ∷ r))
unfolding parse_int
parse_int_digit c r h = ground arith

-- Every int64 is read back from its text.
pub parse-format : (z : ℤ) → InInt64 z → parse_int (format_int z) ≡ some z
unfolding parse_int format_int
parse-format (pos n) h =
    let (c, r, e, d) = format_nat-cons n in
    ap parse_int e
    ∙ parse_int_digit c r d
    ∙ ap (λ s. as_positive (parse_uint s)) (sym e)
    ∙ rw parse_uint-format_nat (ground arith)
parse-format (negsuc n) h = rw parse_uint-format_nat (ground arith)

format_minus : format_int (negsuc 1000000000041) ≡ codes "-1000000000042"
unfolding format_int format_nat
format_minus = refl

parse_signed : (parse_int (codes "+7") ≡ some (pos 7)) × (parse_int (codes "-") ≡ none)
unfolding parse_int parse_uint
parse_signed = (refl, refl)

parse_out_of_range : parse_int (codes "9223372036854775808") ≡ none
unfolding parse_int parse_uint
parse_out_of_range = refl

IsDigits-NoColon : (s : Text) → IsDigits s → NoColon s
IsDigits-NoColon [] h = tt
IsDigits-NoColon (c ∷ s) h = (ground (arith, h.0), IsDigits-NoColon s h.1)

-- The text of a number has no colon.
pub format_int-NoColon : (z : ℤ) → NoColon (format_int z)
unfolding format_int
format_int-NoColon (pos n) = IsDigits-NoColon (format_nat n) (format_nat-IsDigits n)
format_int-NoColon (negsuc n) = (refl, IsDigits-NoColon _ (format_nat-IsDigits _))
