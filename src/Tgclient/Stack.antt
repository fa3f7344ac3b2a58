-- ===== src/Tgclient/Stack.antt =====
-- internal/tgclient/tgclient.go: New, and what buildStack gives to gotd, which is built anew for every
-- run of the client. The logger is left out.
use langolier_bot.Base.{ℕ, ◌*◌, Option, none, some, List, [], ◌++◌, if◌then◌else◌}
use langolier_bot.Base.Int.{ℤ}
use langolier_bot.Base.Text.{Text, codes, is_empty}
use langolier_bot.Base.Calls.{Answer, got, failed}
use langolier_bot.Tgclient.Hasher.{Bucket, new_hash_store}
use langolier_bot.Tgclient.Lifecycle.{new_client}
use langolier_bot.Tgclient.Resolve.{Groups}
use langolier_bot.Tgclient.Updates.{Callbacks, Update, Call, no_callbacks, handle}
use langolier_bot.Tgclient.Lifecycle

pub record Options : Type 0 where
  pub app_id : ℤ
  pub app_hash : Text
  pub device_model : Text
  pub app_version : Text
  pub system_version : Text

-- The Client: what it was made with, the cache of groups, the callbacks, and the fields of a run.
pub record Client : Type 0 where
  pub options : Options
  pub groups : Groups
  pub callbacks : Callbacks
  pub run : Lifecycle.Client

abbrev pub session_bucket : Text
session_bucket = codes "session"

-- New, for the answer of the database to the creation of the bucket of the session.
unfoldable pub open_client : Options → Option Text → Answer Client
open_client opts (some e) = failed (codes "session bucket: " ++ e)
open_client opts none =
    got (record { options = opts; groups = []; callbacks = no_callbacks; run = new_client })

-- telegram.DeviceConfig
pub record DeviceConfig : Type 0 where
  pub device_model : Text
  pub app_version : Text
  pub system_version : Text
  pub system_lang_code : Text
  pub lang_code : Text

unfoldable pub or_default : Text → Text → Text
or_default v def = if is_empty v then def else v

unfoldable pub device : Options → DeviceConfig
unfolding or_default
device opts = record {
  device_model = or_default opts.device_model (codes "Langolier");
  app_version = or_default opts.app_version (codes "dev");
  system_version = or_default opts.system_version (codes "Linux");
  system_lang_code = codes "en";
  lang_code = codes "en";
}

-- What the stack is built of. Durations are in nanoseconds; the callbacks are read when an update
-- comes.
pub record Stack : Type 0 where
  pub app_id : ℤ
  pub app_hash : Text
  pub session_key : Text
  pub session_in : Text
  pub hashes : Bucket
  pub handler : Callbacks → Update → List Call
  pub max_retries : ℕ
  pub max_wait : ℕ
  pub rate_every : ℕ
  pub rate_burst : ℕ
  pub device_config : DeviceConfig

abbrev second : ℕ
second = 1000000000

abbrev stack_over : Options → Answer Bucket → Answer Stack
stack_over opts (failed e) = failed (codes "hash store: " ++ e)
stack_over opts (got hashes) = got (record {
  app_id = opts.app_id;
  app_hash = opts.app_hash;
  session_key = codes "session";
  session_in = session_bucket;
  hashes = hashes;
  handler = handle;
  max_retries = 5;
  max_wait = 120 * second;
  rate_every = second;
  rate_burst = 3;
  device_config = device opts;
})

-- `hashes` is the bucket of the hashes, if it is there; `answer` is that of the database to its
-- creation.
unfoldable pub build_stack : Options → Option Bucket → Option Text → Answer Stack
unfolding new_hash_store device
build_stack opts hashes answer = stack_over opts (new_hash_store hashes answer)
