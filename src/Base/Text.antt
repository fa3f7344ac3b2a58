-- ===== src/Base/Text.antt =====
-- Text as a list of code points, and the functions of Go's `strings` that the source calls.
use Prim.Native.Char.{code}
use Prim.Native.String.{String}
use Prim.Native.Nat.{ℕ}
use mathlib.Core.Path.{◌≡◌, refl}
use mathlib.Core.Logic.{◌↔◌}
use mathlib.Core.Bool.{Bool, true, false, ◌&&◌, ◌||◌}
use mathlib.Core.Option.{Option, none, some}
use mathlib.Core.List.{List, [], ◌∷◌, ◌++◌, reverse}
use native.Mathlib.Omega.{arith}
use langolier_bot.Base.Lists.{All}
use langolier_bot.Base.Tests.{nat_eq, nat_beq, leb, list_beq, if◌then◌else◌}

abbrev pub Text : Type 0
Text = List ℕ

abbrev pub codes : String → Text
codes String.[] = []
codes (String.◌∷◌ c s) = code c ∷ codes s

abbrev pub text_beq : Text → Text → Bool
text_beq s t = list_beq s t

abbrev pub is_empty : Text → Bool
is_empty [] = true
is_empty (c ∷ s) = false

pub is_empty_iff : (s : Text) → (is_empty s ≡ true) ↔ (s ≡ [])
is_empty_iff [] = ground arith
is_empty_iff (c ∷ s) = ground arith

-- unicode.IsSpace
unfoldable pub is_space : ℕ → Bool
is_space c =
    (leb 9 c && leb c 13)
    || nat_beq c 32
    || nat_beq c 0x85
    || nat_beq c 0xa0
    || nat_beq c 0x1680
    || (leb 0x2000 c && leb c 0x200a)
    || nat_beq c 0x2028
    || nat_beq c 0x2029
    || nat_beq c 0x202f
    || nat_beq c 0x205f
    || nat_beq c 0x3000

unfoldable pub trim_left : Text → Text
trim_left [] = []
trim_left (c ∷ s) = let rest = trim_left s in if is_space c then rest else c ∷ s

-- strings.TrimSpace
unfoldable pub trim_space : Text → Text
trim_space s = reverse (trim_left (reverse (trim_left s)))

-- strings.HasPrefix(s, p)
unfoldable pub has_prefix : Text → Text → Bool
has_prefix s [] = true
has_prefix [] (d ∷ p) = false
has_prefix (c ∷ s) (d ∷ p) = nat_beq c d && has_prefix s p

-- strings.CutPrefix(s, p): the rest, if `p` is a prefix
unfoldable pub cut_prefix : Text → Text → Option Text
cut_prefix s [] = some s
cut_prefix [] (d ∷ p) = none
cut_prefix (c ∷ s) (d ∷ p) = let rest = cut_prefix s p in if nat_beq c d then rest else none

-- strings.Cut(s, ":"): what stands before and after the first colon
abbrev with_head : ℕ → Option (Text × Text) → Option (Text × Text)
with_head c none = none
with_head c (some (a, b)) = some (c ∷ a, b)

unfoldable pub cut_colon : Text → Option (Text × Text)
cut_colon [] = none
cut_colon (c ∷ s) =
    let rest = with_head c (cut_colon s) in if nat_beq c b':' then some ([], s) else rest

has_prefix_sound : (s p : Text) → has_prefix s p ≡ true → (r : Text) × (s ≡ p ++ r)
unfolding has_prefix
has_prefix_sound s [] h = (s, refl)
has_prefix_sound [] (d ∷ p) h = cc
has_prefix_sound (c ∷ s) (d ∷ p) h =
    let (r, e) = has_prefix_sound s p (ground arith) in (r, ground arith)

pub has_prefix-append : (p r : Text) → has_prefix (p ++ r) p ≡ true
unfolding has_prefix
has_prefix-append [] [] = refl
has_prefix-append [] (c ∷ r) = refl
has_prefix-append (d ∷ p) r = ground (arith, has_prefix-append p r)

-- `p` is a prefix exactly if the text is `p` and something more.
pub has_prefix_iff : (s p : Text) → (has_prefix s p ≡ true) ↔ ((r : Text) × (s ≡ p ++ r))
has_prefix_iff s p = (has_prefix_sound s p, λ h. rw h.1 (has_prefix-append p h.0))

pub cut_prefix-append : (p r : Text) → cut_prefix (p ++ r) p ≡ some r
unfolding cut_prefix
cut_prefix-append [] [] = refl
cut_prefix-append [] (c ∷ r) = refl
cut_prefix-append (d ∷ p) r = ground (arith, cut_prefix-append p r)

-- No character of the text is a colon.
abbrev pub NoColon : Text → Type 0
NoColon s = All (λ c. nat_beq c b':' ≡ false) s

pub cut_colon-append : (a b : Text) → NoColon a → cut_colon (a ++ b':' ∷ b) ≡ some (a, b)
unfolding cut_colon
cut_colon-append [] b h = refl
cut_colon-append (c ∷ a) b h = rw (h.0, cut_colon-append a b h.1)
