-- ===== src/Chatcfg/Tests.antt =====
-- Tests of internal/chatcfg, and its theorems at concrete inputs.
use langolier_bot.Base.{
  ℕ, zero, suc, ◌*◌, ◌-◌, ◌^◌, Bool, true, false, Option, none, some, List, [], ◌∷◌, ◌≡◌, ◌≢◌, ◌↔◌,
  refl, ap, arith, ◌∙◌,
}
use langolier_bot.Base.Tests.{list_beq}
use langolier_bot.Base.Int.{ℤ, pos, negsuc, InInt64}
use langolier_bot.Base.Maps.{lookup, insert, delete}
use langolier_bot.Base.Text.{Text, codes, trim_space, trim_left, is_space, has_prefix}
use langolier_bot.Base.Decimal.{format_int, format_nat}
use langolier_bot.Chatcfg.Config.{Pattern, Config, ttl, matches, matches_any, clone}
use langolier_bot.Chatcfg.Ttl.{ttl_overflow}
use langolier_bot.Chatcfg.Matching.{Any, Hits, matches_iff}
use langolier_bot.Chatcfg.Store.{
  Codec, Store, get, set_ttl, add_pattern, mutate, disable, open_store, ok,
}
use langolier_bot.Chatcfg.Spec.{
  Call, sets_ttl, adds, removes, disables, call, Agrees, effect, call-Agrees,
}
use langolier_bot.Chatcfg.Reload.{run, empty_store, restart}

-- A codec: characters are moved up by two, and 0 or 1 ends a pattern.
flag : Bool → ℕ
flag false = 0
flag true = 1

put_value : Text → Text → Text
put_value [] rest = rest
put_value (c ∷ s) rest = suc (suc c) ∷ put_value s rest

put_patterns : List Pattern → Text
put_patterns [] = []
put_patterns (p ∷ ps) = put_value p.value (flag p.exact ∷ put_patterns ps)

longer : ℕ → List Pattern → List Pattern
longer c [] = []
longer c (p ∷ ps) = record p { value = c ∷ p.value } ∷ ps

get_patterns : Text → List Pattern
get_patterns [] = []
get_patterns (zero ∷ s) = record { value = []; exact = false } ∷ get_patterns s
get_patterns (suc zero ∷ s) = record { value = []; exact = true } ∷ get_patterns s
get_patterns (suc (suc c) ∷ s) = longer c (get_patterns s)

get-put_value :
    (v : Text) (x : Bool) (ps : List Pattern)
    → get_patterns (put_value v (flag x ∷ put_patterns ps))
      ≡ record { value = v; exact = x } ∷ get_patterns (put_patterns ps)
unfolding get_patterns put_value flag longer
get-put_value [] true ps = refl
get-put_value [] false ps = refl
get-put_value (c ∷ v) x ps = ap (longer c) (get-put_value v x ps)

get-put_patterns : (ps : List Pattern) → get_patterns (put_patterns ps) ≡ ps
unfolding get_patterns put_patterns
get-put_patterns [] = refl
get-put_patterns (p ∷ ps) = get-put_value p.value p.exact ps ∙ ap (λ t. p ∷ t) (get-put_patterns ps)

put_int : ℤ → Text → Text
put_int (pos n) rest = 0 ∷ n ∷ rest
put_int (negsuc n) rest = 1 ∷ n ∷ rest

pub get_config : Text → Option Config
get_config (zero ∷ n ∷ s) = some (record { ttl_minutes = pos n; patterns = get_patterns s })
get_config (suc k ∷ n ∷ s) = some (record { ttl_minutes = negsuc n; patterns = get_patterns s })
get_config _ = none

pub put_config : Config → Text
put_config c = put_int c.ttl_minutes (put_patterns c.patterns)

get-put_int :
    (z : ℤ) (ps : List Pattern)
    → get_config (put_int z (put_patterns ps)) ≡ some (record { ttl_minutes = z; patterns = ps })
unfolding get_config put_int
get-put_int (pos n) ps = ground (arith, get-put_patterns ps)
get-put_int (negsuc n) ps = ground (arith, get-put_patterns ps)

pub get-put_config : (c : Config) (d : Text) → some (put_config c) ≡ some d → get_config d ≡ some c
unfolding put_config
get-put_config c d h = ground (arith, get-put_int c.ttl_minutes c.patterns)

abbrev pub toy : Codec
unfolding put_config put_patterns put_value flag put_int get_config get_patterns longer
toy = record {
  marshal = λ c. some (put_config c);
  unmarshal = get_config;
  unmarshal-marshal = get-put_config;
}

abbrev rule : Pattern
rule = record { value = codes " /roll "; exact = false }

abbrev history : List (ℤ × Option Text × Call)
history =
    (negsuc 41, none, sets_ttl (pos 60))
    ∷ (negsuc 41, none, adds rule)
    ∷ (pos 7, some (codes "disk full"), sets_ttl (pos 5))
    ∷ (negsuc 8, none, sets_ttl (pos 1))
    ∷ (negsuc 8, none, disables)
    ∷ []

after_history : get (run toy empty_store history) (negsuc 41) ≡ record {
  ttl_minutes = pos 60;
  patterns = record { value = codes "/roll"; exact = false } ∷ [];
}
unfolding run call set_ttl add_pattern mutate disable get lookup insert delete trim_space trim_left
    is_space clone format_int format_nat list_beq toy
after_history = refl

restart_example :
    (s' : Store) × (open_store toy (some (run toy empty_store history).bucket) none ≡ ok s')
    × ((j : ℤ) → InInt64 j → get s' j ≡ get (run toy empty_store history) j)
restart_example = restart toy history (omega arith)

call-Agrees_example :
    Agrees empty_store
      (pos 7)
      (effect (removes (pos 2)))
      (call toy empty_store (pos 7) none (removes (pos 2)))
call-Agrees_example = call-Agrees toy empty_store (pos 7) none (removes (pos 2))

abbrev chat : Config
chat = record {
  ttl_minutes = pos 1440;
  patterns = record { value = codes "/roll"; exact = false } ∷ [];
}

matches_iff_example : (matches chat (codes "  /roll 20") ≡ true) ↔ (
    (trim_space (codes "  /roll 20") ≢ [])
    × Any (Hits (trim_space (codes "  /roll 20"))) chat.patterns)
matches_iff_example = matches_iff chat (codes "  /roll 20")

match_prefix : (matches chat (codes "  /roll 20") ≡ true) × (matches chat (codes "roll") ≡ false)
unfolding matches matches_any trim_space trim_left is_space has_prefix
match_prefix = (refl, refl)

abbrev millennium : Config
millennium = record { ttl_minutes = pos 200000000; patterns = [] }

ttl_overflow_example : ttl millennium ≡ negsuc (2 ^ 64 - 1 - 200000000 * 60000000000)
ttl_overflow_example = ttl_overflow millennium 200000000 refl (omega arith) (omega arith)
