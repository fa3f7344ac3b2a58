-- ===== src/Bot/State.antt =====
-- internal/bot/bot.go: the state of the bot, what its handlers put out, and the requests for input of
-- the authorization. Handlers are functions from a system to a system and a list of outputs; what the
-- source starts with `go` is an output, whose body is a function of Bot/Jobs.
use langolier_bot.Base.{
  ℕ, Bool, true, false, ◌&&◌, Option, none, some, List, [], ◌∷◌, ◌++◌, leb, if◌then◌else◌,
}
use langolier_bot.Base.Int.{ℤ, pos}
use langolier_bot.Base.Text.{Text, codes, is_empty}
use langolier_bot.Chatcfg.Store.{Store, Error}
use langolier_bot.Cleaner.Env.{Tg, Host}
use langolier_bot.Cleaner.State.{Cleaner, Spawn}

pub data InputKind : Type 0 where
  input_none input_phone input_code input_password input_ttl input_pattern : InputKind

-- `auth_reply` is a channel with room for one reply, or nil; `poked` tells whether the channel of the
-- membership pokes holds one.
pub record Bot : Type 0 where
  pub owner_id : ℤ
  pub running : Bool
  pub pending : InputKind
  pub convo_chat : ℤ
  pub stage_text : Text
  pub auth_reply : Option (Option Text)
  pub poked : Bool

-- The bot, what it is attached to, and the world.
pub record System (W : Type 0) : Type 0 where
  pub bot : Bot
  pub cfg : Store
  pub cl : Cleaner
  pub world : W

pub record Button : Type 0 where
  pub label : Text
  pub callback_data : Text

abbrev pub Keyboard : Type 0
Keyboard = List (List Button)

-- The message to edit; that with the id 0 stands for none.
pub record EditTarget : Type 0 where
  pub chat_id : ℤ
  pub msg_id : ℕ

abbrev pub no_target : EditTarget
no_target = record { chat_id = pos 0; msg_id = 0 }

pub data Output : Type 0 where
  -- SendMessage: text; text with a keyboard; text that forces a reply, with its placeholder
  says : Text → Output
  shows : Text → Keyboard → Output
  asks : Text → Text → Output
  -- EditMessageText, DeleteMessage, AnswerCallbackQuery
  edits : EditTarget → Text → Keyboard → Output
  erases : ℤ → ℕ → Output
  answers : Text → Output
  -- The handler waits until the channel of the replies has room again.
  waits : Text → Output
  -- goroutines
  starts : Output
  cleans_history : ℤ → Output
  purges : ℤ → Output
  scans : ℤ → Output
  enables : ℤ → Output
  reconciles : Output
  spawns : Spawn → Output

-- What the handlers call outside of the process. `commit` answers for the database, `edit` tells
-- whether EditMessageText has succeeded, and `quote` and `error_text` stand for strconv.Quote and for
-- the texts of errors.
pub record Api (W : Type 0) : Type 0 where
  pub tg : Tg W
  pub host : Host W
  pub commit : W → Option Text × W
  pub edit : EditTarget → W → Bool × W
  pub stop_client : W → Option Text × W
  pub quote : Text → Text
  pub error_text : Error → Text

abbrev pub Handled : Type 0 → Type 0
Handled W = System W × List Output

abbrev with_more : {W : Type 0} → List Output → Handled W → Handled W
with_more out (s, more) = (s, out ++ more)

-- One part of a handler after another.
abbrev pub and_then : {W : Type 0} → Handled W → (System W → Handled W) → Handled W
and_then (s, out) f = with_more out (f s)

abbrev pub say : {W : Type 0} → Text → System W → Handled W
say text s = (s, says text ∷ [])

abbrev pub on_bot : {W : Type 0} → (Bot → Bot) → System W → System W
on_bot f s = record s { bot = f s.bot }

unfoldable pub clear_pending : Bot → Bot
clear_pending b = record b {
  pending = input_none;
  convo_chat = pos 0;
  stage_text = [];
  auth_reply = none;
}

-- New
abbrev pub new_bot : ℤ → Bot
new_bot owner = record {
  owner_id = owner;
  running = false;
  pending = input_none;
  convo_chat = pos 0;
  stage_text = [];
  auth_reply = none;
  poked = false;
}

-- The pokes are coalesced: one that is queued is enough. The loop takes all of them.
unfoldable pub poke_membership : Bot → Bot
poke_membership b = record b { poked = true }

unfoldable pub drain_chan : Bot → Bot
drain_chan b = record b { poked = false }

-- `ask`: what it does before it waits, and what it does with the reply or when the context is done.
unfoldable pub ask : InputKind → Text → Text → Bot → Bot × List Output
ask kind prompt placeholder b = (
  record b { pending = kind; auth_reply = some none },
  (if is_empty placeholder then says prompt ∷ [] else asks prompt placeholder ∷ []),
)

abbrev pub asked : Option (Option Text) → Bot → Option (Text × Bot)
asked (some (some v)) b = some (v, clear_pending b)
asked (some none) b = none
asked none b = none

-- The reply that `ask` returns; `none` means that it still waits.
unfoldable pub take_reply : Bot → Option (Text × Bot)
take_reply b = asked b.auth_reply b

unfoldable pub digits_only : Text → Text
digits_only [] = []
digits_only (c ∷ s) =
    let rest = digits_only s in if leb b'0' c && leb c b'9' then c ∷ rest else rest

abbrev pub phone_prompt : Text
phone_prompt = codes "Enter the account phone number (international format, e.g. +15551234567):"

unfoldable pub ask_phone : Bot → Bot × List Output
ask_phone b = ask input_phone phone_prompt (codes "+15551234567") b

abbrev pub code_prompt : Text
code_prompt =
    codes
      "Enter the login code with the digits broken up so Telegram does not void it — e.g. `1 2 3 4 5` or `1-2-3-4-5`. Everything except the digits is ignored."

unfoldable pub ask_code : Bot → Bot × List Output
ask_code b = ask input_code code_prompt (codes "1 2 3 4 5") b

abbrev digits_of : Option (Text × Bot) → Option (Text × Bot)
digits_of none = none
digits_of (some (v, b)) = some (digits_only v, b)

-- What AskCode returns
unfoldable pub take_code : Bot → Option (Text × Bot)
unfolding take_reply digits_only
take_code b = digits_of (take_reply b)

unfoldable pub ask_password : Text → Bot → Bot × List Output
ask_password hint b =
    ask input_password
      (codes "Enter the 2FA password."
        ++ (if is_empty hint then [] else codes " Hint: " ++ (hint ++ codes "."))
        ++ codes " If it is wrong I will just ask again — no need to /start over.")
      (codes "password") b
