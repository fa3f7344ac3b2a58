-- ===== src/Chatcfg/Config.antt =====
-- internal/chatcfg/chatcfg.go: Pattern, Config and the methods of Config.
use langolier_bot.Base.{
  Bool, true, false, ◌||◌, List, [], ◌∷◌, ◌≡◌, refl, arith, length, if◌then◌else◌, ltb, nat_beq,
}
use langolier_bot.Base.Int.{ℤ, pos, ◌*ℤ◌, ltb_ℤ, wrap64}
use langolier_bot.Base.Text.{Text, is_empty, text_beq, trim_space, has_prefix}

pub record Pattern : Type 0 where
  pub value : Text
  pub exact : Bool

-- `ttl_minutes` is an int. A nil slice of patterns and an empty one are one list.
pub record Config : Type 0 where
  pub ttl_minutes : ℤ
  pub patterns : List Pattern

-- time.Minute, in nanoseconds
abbrev pub minute : ℤ
minute = pos 60000000000

abbrev pub zero_config : Config
zero_config = record { ttl_minutes = pos 0; patterns = [] }

-- A Duration is an int64: the product wraps around.
unfoldable pub ttl : Config → ℤ
ttl c = wrap64 (c.ttl_minutes *ℤ minute)

unfoldable pub configured : Config → Bool
configured c = ltb_ℤ (pos 0) c.ttl_minutes || ltb 0 (length c.patterns)

unfoldable pub matches_any : Text → List Pattern → Bool
matches_any t [] = false
matches_any t (p ∷ ps) =
    let rest = matches_any t ps in
    if is_empty p.value
    then rest
    else if p.exact
    then (if text_beq t p.value then true else rest)
    else if has_prefix t p.value
    then true
    else rest

unfoldable pub matches : Config → Text → Bool
matches c text = let t = trim_space text in if is_empty t then false else matches_any t c.patterns

unfoldable pub clone : Config → Config
clone c =
    if nat_beq (length c.patterns) 0
    then record { ttl_minutes = c.ttl_minutes; patterns = [] }
    else record { ttl_minutes = c.ttl_minutes; patterns = c.patterns }

copy-id :
    (n : ℤ) (ps : List Pattern)
    → clone (record { ttl_minutes = n; patterns = ps }) ≡ record { ttl_minutes = n; patterns = ps }
unfolding clone
copy-id n [] = refl
copy-id n (p ∷ ps) = ground arith

-- A copy holds what the original holds.
pub clone-id : (c : Config) → clone c ≡ c
clone-id c = copy-id c.ttl_minutes c.patterns
