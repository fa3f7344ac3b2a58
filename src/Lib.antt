-- ===== src/Lib.antt =====
-- langolier-bot: a Telegram user client that deletes the account's own messages in group chats.
--
-- The parts of the program, and the files that model them:
--   Chatcfg: internal/chatcfg/chatcfg.go. Config and Pattern (Chatcfg/Config), the Store over a bbolt
--     bucket (Chatcfg/Store), its specification (Chatcfg/Spec), the reload (Chatcfg/Reload).
--   Tgclient: internal/tgclient/tgclient.go. Groups and their marked ids (Tgclient/Group,
--     Tgclient/Ids), ResolveGroups and the cache of groups (Tgclient/Resolve), deletion in batches
--     (Tgclient/Delete), the history scan (Tgclient/Scan), the handlers of updates (Tgclient/Updates),
--     authorize and its retries (Tgclient/Auth), New and buildStack (Tgclient/Stack), Start, Stop and
--     the goroutine of a run (Tgclient/Lifecycle), the client as the interface TG of the cleaner
--     (Tgclient/Interface).
--     internal/tgclient/auth.go (Tgclient/Relay) and internal/tgclient/hasher.go (Tgclient/Hasher).
--   Cleaner: internal/cleaner/cleaner.go. The index (Cleaner/State), deletion and the sweep
--     (Cleaner/Sweep), the history drain (Cleaner/Drain), the membership reconcile
--     (Cleaner/Reconcile), the status lines (Cleaner/Stats).
--   Bot: internal/bot/bot.go. The state and the requests for input (Bot/State), the keyboards and
--     texts (Bot/Menus), the payloads of the keyboards (Bot/Callback), the commands (Bot/Commands),
--     the handler of updates (Bot/Handlers), the bodies of the goroutines (Bot/Jobs).
--   Config: internal/config/env.go. The variables of the environment.
--   Main: cmd/langolier/main.go. The settings, the start and the end.
--   Program: the program while it serves. An event is an update of the Bot API or of gotd, a question
--     of the authorization, a round of a loop, or the body of a goroutine; a step hands it to the part
--     that main has wired for it. Program/Keeps goes through the events, with Bot/Moves and Bot/Keeps
--     for the handlers; Program/Durable is about the store, and Program/Own, with Cleaner/Own and
--     Tgclient/Own, about the messages that are deleted.
--   Base: what Go gives (maps, int64, text, strconv, sort), and the lemmas that the parts share.
--
-- The bot calls the store and the cleaner; the cleaner reads the store and calls the client through
-- the interface TG (Cleaner/Env); the client calls gotd, which is a parameter here.
--
-- Conventions. A method is a function from the old state to the new one. A call that leaves the
-- process takes and returns a state of the world, of any type. What the source starts with `go` is
-- returned as a value. Each function under a mutex is one step, and Cleaner/Tidy lets these steps
-- come in any order. Tgclient/Lifecycle is a step relation between the callers of Start and Stop and
-- the goroutines of the runs: a receive from a closed channel and the read of the error that follows
-- are one step, since the channel stays closed. Text is a list of code points. Chat ids are int64 and
-- wrap around; message ids are positive in Telegram and are natural numbers; times are nanoseconds
-- since the epoch. A map is an association list, and `range` goes through it in its order;
-- Cleaner/Bag looks at the sweep without that order.
--
-- Bounds and fuel: `drain_loop` counts the passes that are left, from the 50 of the source;
-- `chunks_from` has a round for every element of the list; `emit` of Base/Decimal has one for every
-- number up to the one that it prints. The loop of ScanOwn has the fuel that its caller gives; the
-- length of the history and one is enough. In Tgclient/Interface the context of a scan is done after
-- `patience` pages at the latest (`scan_within`), and ScanOwn returns the error of its context then;
-- before that it is the loop itself. The fuel of retry_password is one more than the number
-- of the wrong passwords to come.
--
-- Not modelled: the Telegram protocol, gotd, bbolt and encoding/json, which are parameters; logging;
-- the durations that the loops and the pages wait; in Program, what other goroutines do while the body
-- of one runs. A signal is the end of the events, after any of
-- them; what the operating system then releases is not part of the model.
pub mod Base
pub mod Config
pub mod Chatcfg
pub mod Tgclient
pub mod Cleaner
pub mod Bot
pub mod Main
pub mod Program
