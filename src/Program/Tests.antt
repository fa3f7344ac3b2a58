-- ===== src/Program/Tests.antt =====
-- The theorems on the whole program at a concrete run.
use langolier_bot.Base.{none, some, [], ◌≡◌, refl}
use langolier_bot.Base.Int.{ℤ, pos, negsuc, InInt64}
use langolier_bot.Base.Text.{codes}
use langolier_bot.Chatcfg.Store.{Store, ok, get, load, open_store}
use langolier_bot.Chatcfg.Tests.{toy}
use langolier_bot.Tgclient.Updates.{delete_messages}
use langolier_bot.Cleaner.Deletions.{all_set}
use langolier_bot.Bot.Callback.{for_chat, ttl, payload}
use langolier_bot.Bot.State.{no_target}
use langolier_bot.Bot.Handlers.{Message, query, message}
use langolier_bot.Bot.Tests.{api}
use langolier_bot.Program.{
  Running, updated, told, readied, goes, step, served, Reached, first, happens,
}
use langolier_bot.Program.Durable.{Reached-Reads}

abbrev minutes : Message
minutes = record { chat_id = pos 7; id = 6; text = codes " 60 " }

abbrev empty : Store
empty = record { bucket = []; cache = [] }

-- The client gets ready, the owner sets the TTL of a chat to an hour, the cleaning of its history
-- begins, and messages of some basic group are deleted.
abbrev evening : Running Unit → Running Unit
evening r =
    let r1 = step toy api all_set readied r in
    let r2 =
      step toy api all_set
        (updated (query (pos 7) [] no_target (payload (for_chat ttl (negsuc 41))))) r1 in
    let r3 = step toy api all_set (updated (message (pos 7) minutes)) r2 in
    let r4 = step toy api all_set (goes 0) r3 in step toy api all_set (told (delete_messages [])) r4

after_evening : Reached toy api all_set (evening (served toy api all_set (pos 7) empty tt))
unfolding open_store load
after_evening =
    happens (happens (happens (happens (happens (first (pos 7) tt empty refl) _) _) _) _) _

Reached-Reads_example :
    let r = evening (served toy api all_set (pos 7) empty tt) in
    (cfg : Store) × (open_store toy (some r.system.cfg.bucket) none ≡ ok cfg)
    × ((j : ℤ) → InInt64 j → get cfg j ≡ get r.system.cfg j)
Reached-Reads_example =
    Reached-Reads toy api all_set (evening (served toy api all_set (pos 7) empty tt)) after_evening
