-- ===== src/Bot/Tests.antt =====
-- Tests of internal/bot, and its theorems at concrete inputs.
use langolier_bot.Base.{ℕ, true, none, some, List, [], ◌∷◌, ◌<◌, ◌≡◌, refl, arith, length, keep}
use langolier_bot.Base.Int.{pos, negsuc}
use langolier_bot.Base.Text.{codes, trim_space, trim_left, is_space}
use langolier_bot.Base.Decimal.{parse_int, parse_uint}
use langolier_bot.Base.Calls.{got}
use langolier_bot.Chatcfg.Config.{Pattern}
use langolier_bot.Chatcfg.Store.{add_pattern}
use langolier_bot.Chatcfg.Tests.{toy}
use langolier_bot.Cleaner.Env.{Tg}
use langolier_bot.Cleaner.State.{new_cleaner}
use langolier_bot.Bot.Callback.{for_chat, ttl, patadd, patkind, patdel, payload, parse_callback}
use langolier_bot.Bot.Callback.RoundTrip.{parse_callback-payload}
use langolier_bot.Bot.State.{System, no_target, Api, new_bot, clear_pending}
use langolier_bot.Bot.Menus.{kind_text, page_count, clamp_page}
use langolier_bot.Bot.Handlers.{Message, Update, query, message, on_update}
use langolier_bot.Bot.Paging.{pages_from, pages-cover}
use langolier_bot.Bot.Talk.{after, pattern_talk}
use langolier_bot.Bot.Minutes.{Applied, ttl_talk}
use langolier_bot.Bot.Owner.{run_all, is_from, run_all-keep}

parse_callback-payload_example :
    parse_callback (payload (patdel (negsuc 1000000000041) (pos 3)))
    ≡ some (patdel (negsuc 1000000000041) (pos 3))
parse_callback-payload_example =
    parse_callback-payload (patdel (negsuc 1000000000041) (pos 3)) (omega arith)

abbrev numbers : List ℕ
numbers = 0 ∷ 1 ∷ 2 ∷ 3 ∷ 4 ∷ 5 ∷ 6 ∷ 7 ∷ 8 ∷ 9 ∷ []

pages-cover_example :
    (pages_from numbers 0 (page_count (length numbers)) ≡ numbers)
    × (clamp_page (pos 7) (page_count (length numbers)) < page_count (length numbers))
pages-cover_example = pages-cover numbers (pos 7) (omega arith)

abbrev pub tg : Tg Unit
tg = record {
  group = λ w marked. none;
  resolve_groups = λ w. (got [], w);
  scan_own = λ g w. (([], none), w);
  delete = λ g ids w. (([], none), w);
  message_link = λ g id. [];
}

abbrev pub api : Api Unit
api = record {
  tg = tg;
  host = record { now = λ w. 0; ctx_err = λ w. none; wait = λ n w. (none, w) };
  commit = λ w. (none, w);
  edit = λ t w. (true, w);
  stop_client = λ w. (none, w);
  quote = λ t. t;
  error_text = λ e. codes "error";
}

abbrev system : System Unit
system = record {
  bot = new_bot (pos 7);
  cfg = record { bucket = []; cache = [] };
  cl = new_cleaner;
  world = tt;
}

abbrev note : Message
note = record { chat_id = pos 7; id = 5; text = codes " 1-2 3 " }

pattern_talk_example :
    let opened =
      after toy api (query (pos 7) [] no_target (payload (for_chat patadd (negsuc 41)))) system in
    let named = after toy api (message (pos 7) note) opened in
    let done =
      after toy api (query (pos 7) [] no_target (payload (patkind (kind_text true)))) named in
    let p : Pattern = record { value = trim_space note.text; exact = true } in
    (done.cfg ≡ (add_pattern toy system.cfg (negsuc 41) p none).0)
    × (done.bot ≡ clear_pending system.bot)
    × (done.cl ≡ system.cl)
    × (done.world ≡ tt)
unfolding trim_space trim_left is_space
pattern_talk_example =
    pattern_talk toy api ([], []) (no_target, no_target) note (negsuc 41) true system (omega arith)
      (ground arith) refl

abbrev strangers : List Update
strangers = message (pos 8) note ∷ message (pos 7) note ∷ query (pos 9) [] no_target [] ∷ []

run_all-keep_example :
    run_all toy api strangers system ≡ run_all toy api (keep (is_from (pos 7)) strangers) system
run_all-keep_example = run_all-keep toy api strangers system

abbrev hour : Message
hour = record { chat_id = pos 7; id = 6; text = codes " 60 " }

ttl_talk_example :
    let opened =
      after toy api (query (pos 7) [] no_target (payload (for_chat ttl (negsuc 41)))) system in
    Applied toy api (negsuc 41) 60 system (on_update toy api (message (pos 7) hour) opened)
unfolding trim_space trim_left is_space parse_int parse_uint
ttl_talk_example = ttl_talk toy api [] no_target hour (negsuc 41) 60 system (omega arith) refl
