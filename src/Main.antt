-- ===== src/Main.antt =====
-- cmd/langolier/main.go: from the variables of the environment to the system that serves. The logger is
-- left out; LOG_LEVEL goes into the settings.
pub mod Laws
pub mod Tests
use langolier_bot.Base.{ℕ, Bool, Option, none, some, ◌++◌, ltb, take, length, if◌then◌else◌}
use langolier_bot.Base.Int.{ℤ}
use langolier_bot.Base.Text.{Text, codes}
use langolier_bot.Base.Calls.{Answer, got, failed}
use langolier_bot.Chatcfg.Store.{Codec, Bucket, Store, Error, Result, ok, err, open_store}
use langolier_bot.Cleaner.State.{new_cleaner}
use langolier_bot.Bot.State.{System, Api, Handled, new_bot}
use langolier_bot.Bot.Jobs.{attach, start, stop}
use langolier_bot.Tgclient.Updates.{Callbacks, set_on_own, set_on_del}
use langolier_bot.Tgclient.Stack.{Options, Client, open_client}
use langolier_bot.Config.{
  Env, env_string_default, Process, goes_on, exits, must_env_string, must_env_int, must_env_int64,
}

-- shortVersion, on the bytes of a version
unfoldable pub short_version : Text → Text
short_version v = if ltb 7 (length v) then take 7 v else v

pub record Settings : Type 0 where
  pub data_dir : Text
  pub bot_token : Text
  pub owner_id : ℤ
  pub api_id : ℤ
  pub api_hash : Text
  pub log_level : Text
  pub device_model : Text
  pub app_version : Text
  pub system_version : Text

infixl 5 ◌>>=◌
abbrev pub ◌>>=◌ {ℓ κ} : {A : Type ℓ} {B : Type κ} → Process A → (A → Process B) → Process B
goes_on a >>= f = f a
exits message >>= f = exits message

-- What main calls outside of the program: os.MkdirAll; bolt.Open below the directory, which yields what
-- the database holds under the bucket of the configurations; the transaction of chatcfg.New; the
-- client of the bot API; the transaction of tgclient.New. `error_text` is the text of an error.
pub record Platform (W : Type 0) : Type 0 where
  pub make_dir : Text → W → Option Text × W
  pub open_db : Text → W → Answer (Option Bucket) × W
  pub commit : W → Option Text × W
  pub open_bot : Text → W → Option Text × W
  pub open_session : W → Option Text × W
  pub error_text : Error → Text

-- The settings, of the five variables that have to be set.
abbrev pub settings_of : Env → Text → Text → Text → ℤ → ℤ → Text → Settings
settings_of env version data_dir bot_token owner_id api_id api_hash = record {
  data_dir = data_dir;
  bot_token = bot_token;
  owner_id = owner_id;
  api_id = api_id;
  api_hash = api_hash;
  log_level = env_string_default env (codes "LOG_LEVEL") (codes "info");
  device_model = env_string_default env (codes "TG_DEVICE_MODEL") (codes "Langolier");
  app_version = env_string_default env (codes "TG_APP_VERSION") (short_version version);
  system_version = env_string_default env (codes "TG_SYSTEM_VERSION") (codes "Linux");
}

unfoldable pub read_settings : (Text → Text) → Env → Text → Process Settings
read_settings quote env version = do
  data_dir ← must_env_string quote env (codes "DATA_DIR")
  bot_token ← must_env_string quote env (codes "BOT_TOKEN")
  owner_id ← must_env_int64 quote env (codes "BOT_OWNER_ID")
  api_id ← must_env_int quote env (codes "API_ID")
  api_hash ← must_env_string quote env (codes "API_HASH")
  goes_on (settings_of env version data_dir bot_token owner_id api_id api_hash)

-- buildLogger; `unmarshal` stands for Level.UnmarshalText, which is given the level before, and `builds`
-- for whether the configuration can be built.
pub data Logger (L : Type 0) : Type 0 where
  production : L → Logger L
  nop : Logger L

unfoldable pub build_logger : {L : Type 0} → L → (Text → L → L) → (L → Bool) → Text → Logger L
build_logger info unmarshal builds level =
    let lvl = unmarshal level info in if builds lvl then production lvl else nop

-- What runs from then on: the settings, which the client and the bot have been given, and the system.
pub record Service (W : Type 0) : Type 0 where
  pub settings : Settings
  pub system : System W
  pub client : Client

-- The Options of the client.
abbrev pub options_of : Settings → Options
options_of s = record {
  app_id = s.api_id;
  app_hash = s.api_hash;
  device_model = s.device_model;
  app_version = s.app_version;
  system_version = s.system_version;
}

-- Which callbacks of the client are set once the cleaner and the bot are attached.
unfoldable pub wire : Callbacks → Callbacks
unfolding set_on_own set_on_del attach
wire fns = attach (set_on_del (set_on_own fns))

module _ {W : Type 0} (codec : Codec) (os : Platform W) where
  abbrev pub client_opened : Settings → Store → W → Answer Client → Process (Service W)
  client_opened s cfg w (failed e) = exits e
  client_opened s cfg w (got c) = goes_on (record {
    settings = s;
    system = record { bot = new_bot s.owner_id; cfg = cfg; cl = new_cleaner; world = w };
    client = record c { callbacks = wire c.callbacks };
  })

  abbrev pub session_opened : Settings → Store → Option Text × W → Process (Service W)
  session_opened s cfg (answer, w) = client_opened s cfg w (open_client (options_of s) answer)

  abbrev pub bot_opened : Settings → Store → Option Text × W → Process (Service W)
  bot_opened s cfg (some e, w) = exits e
  bot_opened s cfg (none, w) = session_opened s cfg (os.open_session w)

  abbrev pub store_opened : Settings → Result Store → W → Process (Service W)
  store_opened s (err e) w = exits (os.error_text e)
  store_opened s (ok cfg) w = bot_opened s cfg (os.open_bot s.bot_token w)

  abbrev pub open_configs : Settings → Option Bucket → Option Text × W → Process (Service W)
  open_configs s bucket (answer, w) = store_opened s (open_store codec bucket answer) w

  abbrev pub db_opened : Settings → Answer (Option Bucket) × W → Process (Service W)
  db_opened s (failed e, w) = exits e
  db_opened s (got bucket, w) = open_configs s bucket (os.commit w)

  abbrev pub dir_made : Settings → Option Text × W → Process (Service W)
  dir_made s (some e, w) = exits e
  dir_made s (none, w) = db_opened s (os.open_db s.data_dir w)

  -- `main`, up to where it waits for a signal.
  unfoldable pub start_up : (Text → Text) → Env → Text → W → Process (Service W)
  start_up quote env version w = do
    s ← read_settings quote env version
    dir_made s (os.make_dir s.data_dir w)

-- The end of main: the bot starts; once a signal has come, it stops.
unfoldable pub serve : {W : Type 0} → Service W → Handled W
unfolding start
serve service = start service.system

unfoldable pub shut_down : {W : Type 0} → Api W → System W → System W
unfolding stop
shut_down api s = stop api s
