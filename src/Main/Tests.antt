-- ===== src/Main/Tests.antt =====
-- Tests of cmd/langolier and internal/config, and their theorems at concrete inputs.
use langolier_bot.Base.{none, [], ◌∷◌, ◌≡◌, ◌↔◌, refl, nat_eq, list_eq}
use langolier_bot.Base.Int.{pos}
use langolier_bot.Base.Maps.{Map, lookup}
use langolier_bot.Base.Text.{Text, codes}
use langolier_bot.Base.Tests.{list_beq}
use langolier_bot.Base.Decimal.{parse_int, parse_uint, digits_value}
use langolier_bot.Base.Calls.{got}
use langolier_bot.Chatcfg.Store.{open_store, load}
use langolier_bot.Chatcfg.Tests.{toy}
use langolier_bot.Cleaner.State.{new_cleaner}
use langolier_bot.Cleaner.Deletions.{all_set}
use langolier_bot.Bot.Jobs.{attach}
use langolier_bot.Tgclient.Updates.{set_on_own, set_on_del, set_on_membership}
use langolier_bot.Bot.State.{new_bot}
use langolier_bot.Config.{
  Env, ok, goes_on, env_int, env_int64, env_string, env_string_default, must_env_string,
  must_env_int, must_env_int64,
}
use langolier_bot.Config.Laws.{HoldsInteger, env_int_iff}
use langolier_bot.Tgclient.Stack.{open_client}
use langolier_bot.Tgclient.Lifecycle.{new_client}
use langolier_bot.Main.{
  options_of, wire, Settings, Platform, Service, settings_of, read_settings, start_up,
  short_version,
}
use langolier_bot.Main.Laws.{AreRead, read_settings_iff}

abbrev variables : Map Text Text
variables =
    (codes "DATA_DIR", codes "/data")
    ∷ (codes "BOT_TOKEN", codes "7:token")
    ∷ (codes "BOT_OWNER_ID", codes "42")
    ∷ (codes "API_ID", codes "17")
    ∷ (codes "API_HASH", codes "abc")
    ∷ (codes "LOG_LEVEL", [])
    ∷ []

abbrev env : Env
unfolding lookup
env key = lookup key variables

abbrev version : Text
version = codes "0123456789abcdef"

abbrev settings : Settings
unfolding lookup
settings = settings_of env version (codes "/data") (codes "7:token") (pos 42) (pos 17) (codes "abc")

short_version_sha : short_version version ≡ codes "0123456"
unfolding short_version
short_version_sha = refl

abbrev platform : Platform Unit
platform = record {
  make_dir = λ dir w. (none, w);
  open_db = λ dir w. (got none, w);
  commit = λ w. (none, w);
  open_bot = λ token w. (none, w);
  open_session = λ w. (none, w);
  error_text = λ e. [];
}

abbrev service : Service Unit
unfolding lookup
service = record {
  settings = settings;
  system = record {
    bot = new_bot (pos 42);
    cfg = record { bucket = []; cache = [] };
    cl = new_cleaner;
    world = tt;
  };
  client = record {
    options = options_of settings;
    groups = [];
    callbacks = all_set;
    run = new_client;
  };
}

env_int_iff_example :
    (env_int env (codes "API_ID") ≡ ok (pos 17)) ↔ HoldsInteger env (codes "API_ID") (pos 17)
unfolding lookup
env_int_iff_example = env_int_iff env (codes "API_ID") (pos 17)

read_settings_iff_example :
    (read_settings (λ t. t) env version ≡ goes_on settings) ↔ AreRead env version settings
unfolding lookup
read_settings_iff_example = read_settings_iff (λ t. t) env version settings

started : start_up toy platform (λ t. t) env version tt ≡ goes_on service
unfolding lookup list_beq start_up read_settings must_env_string must_env_int must_env_int64
    env_string env_int env_int64 env_string_default parse_int parse_uint digits_value open_store
    load open_client wire attach set_on_own set_on_del set_on_membership
started = refl
