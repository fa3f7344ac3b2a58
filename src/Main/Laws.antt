-- ===== src/Main/Laws.antt =====
-- cmd/langolier/main.go: when the program serves, and with what.
use langolier_bot.Base.{◌≡◌, ◌↔◌, refl, ap, subst, arith}
use langolier_bot.Base.Int.{ℤ}
use langolier_bot.Base.Text.{Text, codes}
use langolier_bot.Config.{Env, Process, goes_on, exits}
use langolier_bot.Config.Laws.{
  Holds, HoldsOr, HoldsInteger, env_string_default_iff, must_env_string_iff, must_env_int_iff,
  must_env_int64_iff,
}
use langolier_bot.Config.{must_env_string, must_env_int, must_env_int64}
use langolier_bot.Main.{Settings, settings_of, short_version, ◌>>=◌, read_settings}

-- Five readings that go on have all gone on.
chain-goes_on :
    (p q : Process Text) (m n : Process ℤ) (r : Process Text)
    (f : Text → Text → ℤ → ℤ → Text → Settings) (s : Settings)
    → (do a ← p; b ← q; i ← m; j ← n; c ← r; goes_on (f a b i j c)) ≡ goes_on s
    → (a : Text) × (b : Text) × (i : ℤ) × (j : ℤ) × (c : Text) × (p ≡ goes_on a)
      × (q ≡ goes_on b)
      × (m ≡ goes_on i)
      × (n ≡ goes_on j)
      × (r ≡ goes_on c)
      × (f a b i j c ≡ s)
chain-goes_on (goes_on a) (goes_on b) (goes_on i) (goes_on j) (goes_on c) f s h =
    (a, b, i, j, c, refl, refl, refl, refl, refl, ground arith)
chain-goes_on (exits e) q m n r f s h = cc
chain-goes_on (goes_on a) (exits e) m n r f s h = cc
chain-goes_on (goes_on a) (goes_on b) (exits e) n r f s h = cc
chain-goes_on (goes_on a) (goes_on b) (goes_on i) (exits e) r f s h = cc
chain-goes_on (goes_on a) (goes_on b) (goes_on i) (goes_on j) (exits e) f s h = cc

-- What the environment says of the settings.
abbrev pub AreRead : Env → Text → Settings → Type 0
AreRead env version s =
    Holds env (codes "DATA_DIR") s.data_dir
    × Holds env (codes "BOT_TOKEN") s.bot_token
    × HoldsInteger env (codes "BOT_OWNER_ID") s.owner_id
    × HoldsInteger env (codes "API_ID") s.api_id
    × Holds env (codes "API_HASH") s.api_hash
    × HoldsOr env (codes "LOG_LEVEL") (codes "info") s.log_level
    × HoldsOr env (codes "TG_DEVICE_MODEL") (codes "Langolier") s.device_model
    × HoldsOr env (codes "TG_APP_VERSION") (short_version version) s.app_version
    × HoldsOr env (codes "TG_SYSTEM_VERSION") (codes "Linux") s.system_version

module _ (quote : Text → Text) (env : Env) (version : Text) where
  read_of : (s : Settings) → read_settings quote env version ≡ goes_on s → AreRead env version s
  unfolding read_settings
  read_of s h =
      let (dir, token, owner, id, hash, hd, ht, ho, hi, hh, e) =
        chain-goes_on (must_env_string quote env (codes "DATA_DIR"))
          (must_env_string quote env (codes "BOT_TOKEN"))
          (must_env_int64 quote env (codes "BOT_OWNER_ID"))
          (must_env_int quote env (codes "API_ID")) (must_env_string quote env (codes "API_HASH"))
          (settings_of env version) s h in
      subst (AreRead env version) e (
        (must_env_string_iff quote env _ dir).0 hd,
        (must_env_string_iff quote env _ token).0 ht,
        (must_env_int64_iff quote env _ owner).0 ho,
        (must_env_int_iff quote env _ id).0 hi,
        (must_env_string_iff quote env _ hash).0 hh,
        (env_string_default_iff env _ _ _).0 refl,
        (env_string_default_iff env _ _ _).0 refl,
        (env_string_default_iff env _ _ _).0 refl,
        (env_string_default_iff env _ _ _).0 refl,
      )

  of_read : (s : Settings) → AreRead env version s → read_settings quote env version ≡ goes_on s
  unfolding read_settings
  of_read s (hd, ht, ho, hi, hh, l, d, a, v) =
      rw
        (
          (must_env_string_iff quote env (codes "DATA_DIR") s.data_dir).1 hd,
          (must_env_string_iff quote env (codes "BOT_TOKEN") s.bot_token).1 ht,
          (must_env_int64_iff quote env (codes "BOT_OWNER_ID") s.owner_id).1 ho,
          (must_env_int_iff quote env (codes "API_ID") s.api_id).1 hi,
          (must_env_string_iff quote env (codes "API_HASH") s.api_hash).1 hh,
        )
        (ap goes_on (
          ground (
            arith,
            (env_string_default_iff env (codes "LOG_LEVEL") (codes "info") s.log_level).1 l,
            (env_string_default_iff env (codes "TG_DEVICE_MODEL") (codes "Langolier")
                  s.device_model).1
                d,
            (env_string_default_iff env (codes "TG_APP_VERSION") (short_version version)
                  s.app_version).1
                a,
            (env_string_default_iff env (codes "TG_SYSTEM_VERSION") (codes "Linux")
                  s.system_version).1
                v,
          )))

  -- Reading the settings goes on with some settings exactly if the environment says so: the five
  -- required variables are set and not empty, two of them to integers; and each of the four other
  -- settings is the value of its variable if that is set and not empty, and else its default. Otherwise
  -- the program exits.
  pub read_settings_iff :
      (s : Settings) → (read_settings quote env version ≡ goes_on s) ↔ AreRead env version s
  read_settings_iff s = (read_of s, of_read s)
