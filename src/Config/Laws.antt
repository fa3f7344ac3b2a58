-- ===== src/Config/Laws.antt =====
-- internal/config/env.go: what a variable has to hold.
use langolier_bot.Base.{◌⊎◌, inl, inr, Option, none, some, ◌≡◌, ◌≢◌, ◌↔◌, refl, ap, arith, [], ◌∷◌}
use langolier_bot.Base.Int.{ℤ, InInt64}
use langolier_bot.Base.Text.{Text}
use langolier_bot.Base.Decimal.{parse_int, format_int, parse-format}
use langolier_bot.Config.{
  or_default, env_string_default, Env, Read, ok, err, ◌>>=◌, present, integer, env_string, env_int,
  env_int64, goes_on, or_exit, must_env_string, must_env_int, must_env_int64,
}

-- A variable is set to a text that is not empty.
abbrev pub Holds : Env → Text → Text → Type 0
Holds env key v = (env key ≡ some v) × (v ≢ [])

-- A variable that is set and not empty has its value; any other has the default.
abbrev pub HoldsOr : Env → Text → Text → Text → Type 0
HoldsOr env key def v = Holds env key v ⊎ (((env key ≡ none) ⊎ (env key ≡ some [])) × (v ≡ def))

or_default_iff :
    (def : Text) (o : Option Text) (v : Text)
    → (v ≡ or_default def o)
      ↔ (((o ≡ some v) × (v ≢ [])) ⊎ (((o ≡ none) ⊎ (o ≡ some [])) × (v ≡ def)))
or_default_iff def none v = (λ e. inr (inl refl, e), elim [ inl h ↦ absurd cc | inr h ↦ h.1 ])
or_default_iff def (some []) v =
    (λ e. inr (inr refl, e), elim [ inl h ↦ absurd (h.1 cc) | inr h ↦ h.1 ])
or_default_iff def (some (x ∷ xs)) v = (
  λ e. inl (cc, λ q. cc),
  elim [ inl h ↦ cc | inr (inl q, d) ↦ absurd cc | inr (inr q, d) ↦ absurd cc ],
)

pub env_string_default_iff :
    (env : Env) (key def v : Text) → (v ≡ env_string_default env key def) ↔ HoldsOr env key def v
unfolding env_string_default
env_string_default_iff env key def v = or_default_iff def (env key) v

abbrev pub HoldsInteger : Env → Text → ℤ → Type 0
HoldsInteger env key i = (v : Text) × Holds env key v × (parse_int v ≡ some i)

present_iff :
    (key : Text) (o : Option Text) (v : Text) → (present key o ≡ ok v) ↔ ((o ≡ some v) × (v ≢ []))
present_iff key none v = ground arith
present_iff key (some []) v = ground arith
present_iff key (some (c ∷ s)) v = ground arith

pub env_string_iff : (env : Env) (key v : Text) → (env_string env key ≡ ok v) ↔ Holds env key v
unfolding env_string
env_string_iff env key v = present_iff key (env key) v

integer_iff : (key v : Text) (o : Option ℤ) (i : ℤ) → (integer key v o ≡ ok i) ↔ (o ≡ some i)
integer_iff key v none i = ground arith
integer_iff key v (some j) i = ground arith

env_int_complete :
    (env : Env) (key : Text) (i : ℤ) → HoldsInteger env key i → env_int env key ≡ ok i
unfolding env_int
env_int_complete env key i (v, h, p) = rw ((env_string_iff env key v).1 h, p) refl

env_int-HoldsInteger :
    (env : Env) (key : Text) (i : ℤ) (r : Read Text)
    → env_string env key ≡ r
    → (r >>= λ v. integer key v (parse_int v)) ≡ ok i
    → HoldsInteger env key i
env_int-HoldsInteger env key i (ok v) e h =
    (v, (env_string_iff env key v).0 e, (integer_iff key v (parse_int v) i).0 h)
env_int-HoldsInteger env key i (err x) e h = cc

-- EnvInt returns an integer exactly if the variable is set, not empty, and its text is read as that
-- integer.
pub env_int_iff :
    (env : Env) (key : Text) (i : ℤ) → (env_int env key ≡ ok i) ↔ HoldsInteger env key i
unfolding env_int
env_int_iff env key i =
    (env_int-HoldsInteger env key i (env_string env key) refl, env_int_complete env key i)

-- A number that was printed into a variable is read back from it.
pub env_int-format_int :
    (env : Env) (key : Text) (i : ℤ)
    → InInt64 i
    → env key ≡ some (format_int i)
    → env_int env key ≡ ok i
unfolding parse_int
env_int-format_int env key i r e =
    (env_int_iff env key i).1 (format_int i, (e, nonempty), parse-format i r)
  where
    nonempty : format_int i ≢ []
    nonempty n = cc (parse-format i r, ap parse_int n)

module _ (quote : Text → Text) where
  goes_on_iff {ℓ} : {A : Type ℓ} (r : Read A) (v : A) → (or_exit quote r ≡ goes_on v) ↔ (r ≡ ok v)
  goes_on_iff (ok w) v = ground arith
  goes_on_iff (err e) v = ground arith

  pub must_env_string_iff :
      (env : Env) (key v : Text) → (must_env_string quote env key ≡ goes_on v) ↔ Holds env key v
  unfolding must_env_string
  must_env_string_iff env key v =
      let to = goes_on_iff (env_string env key) v in
      let holds = env_string_iff env key v in (λ h. holds.0 (to.0 h), λ h. to.1 (holds.1 h))

  pub must_env_int_iff :
      (env : Env) (key : Text) (i : ℤ)
      → (must_env_int quote env key ≡ goes_on i) ↔ HoldsInteger env key i
  unfolding must_env_int
  must_env_int_iff env key i =
      let to = goes_on_iff (env_int env key) i in
      let holds = env_int_iff env key i in (λ h. holds.0 (to.0 h), λ h. to.1 (holds.1 h))

  pub must_env_int64_iff :
      (env : Env) (key : Text) (i : ℤ)
      → (must_env_int64 quote env key ≡ goes_on i) ↔ HoldsInteger env key i
  unfolding must_env_int64 env_int64 env_int must_env_int
  must_env_int64_iff env key i = must_env_int_iff env key i
