-- ===== src/Config.antt =====
-- internal/config/env.go: the variables of the environment. `env` stands for os.LookupEnv.
pub mod Laws
use langolier_bot.Base.{Bool, true, false, Option, none, some, ◌++◌, if◌then◌else◌}
use langolier_bot.Base.Int.{ℤ}
use langolier_bot.Base.Text.{Text, codes, is_empty}
use langolier_bot.Base.Decimal.{parse_int}

pub data EnvError : Type 0 where
  not_set : Text → EnvError
  not_integer : Text → Text → EnvError

pub data Read {ℓ} (A : Type ℓ) : Type ℓ where
  ok : A → Read A
  err : EnvError → Read A

infixl 5 ◌>>=◌
abbrev pub ◌>>=◌ {ℓ κ} : {A : Type ℓ} {B : Type κ} → Read A → (A → Read B) → Read B
ok a >>= f = f a
err e >>= f = err e

abbrev pub Env : Type 0
Env = Text → Option Text

abbrev pub present : Text → Option Text → Read Text
present key none = err (not_set key)
present key (some v) = if is_empty v then err (not_set key) else ok v

unfoldable pub env_string : Env → Text → Read Text
env_string env key = present key (env key)

abbrev pub or_default : Text → Option Text → Text
or_default def none = def
or_default def (some v) = if is_empty v then def else v

unfoldable pub env_string_default : Env → Text → Text → Text
env_string_default env key def = or_default def (env key)

abbrev pub integer : Text → Text → Option ℤ → Read ℤ
integer key v none = err (not_integer key v)
integer key v (some i) = ok i

-- EnvInt by strconv.Atoi and EnvInt64 by strconv.ParseInt, which agree where int has 64 bits.
unfoldable pub env_int : Env → Text → Read ℤ
env_int env key = do v ← env_string env key; integer key v (parse_int v)

unfoldable pub env_int64 : Env → Text → Read ℤ
env_int64 env key = do v ← env_string env key; integer key v (parse_int v)

-- A process goes on, or has exited with status 1 after it has printed an error.
pub data Process {ℓ} (A : Type ℓ) : Type ℓ where
  goes_on : A → Process A
  exits : Text → Process A

-- ExitWithError is `exits`. `quote` stands for the verb %q of fmt.
module _ (quote : Text → Text) where
  unfoldable pub describe : EnvError → Text
  describe (not_set key) = codes "variable " ++ (quote key ++ codes " not set or empty")
  describe (not_integer key v) =
      codes "variable " ++ (quote key ++ (codes " is not an integer: " ++ quote v))

  abbrev pub or_exit {ℓ} : {A : Type ℓ} → Read A → Process A
  or_exit (ok v) = goes_on v
  or_exit (err e) = exits (describe e)

  unfoldable pub must_env_string : Env → Text → Process Text
  must_env_string env key = or_exit (env_string env key)

  unfoldable pub must_env_int : Env → Text → Process ℤ
  must_env_int env key = or_exit (env_int env key)

  unfoldable pub must_env_int64 : Env → Text → Process ℤ
  must_env_int64 env key = or_exit (env_int64 env key)
