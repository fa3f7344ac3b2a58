-- ===== src/Program/Own/Requests.antt =====
-- cmd/langolier/main.go, internal/tgclient/tgclient.go: the program with its client, and what it asks
-- Telegram for.
use langolier_bot.Base.{ℕ, List, [], ◌≡◌, sym, subst, All}
use langolier_bot.Base.Int.{ℤ}
use langolier_bot.Base.Maps.{lookup}
use langolier_bot.Chatcfg.Store.{Codec, Store}
use langolier_bot.Tgclient.Updates.{Callbacks}
use langolier_bot.Tgclient.Resolve.{group}
use langolier_bot.Tgclient.Interface.{Gotd, Session, client}
use langolier_bot.Tgclient.Own.{IsProper, Telegram}
use langolier_bot.Tgclient.Own.Chats.{IsChecked}
use langolier_bot.Tgclient.Own.Guarding.{GoodSession, client-Guards}
use langolier_bot.Bot.State.{Api}
use langolier_bot.Program.{Event, served}
use langolier_bot.Program.Keeps.{IsHonest}
use langolier_bot.Program.Own.{Outside, Surroundings, deletes_own}
use langolier_bot.Program.Keeps.Events.{after_all}

nothing-IsChecked : IsChecked []
unfolding group lookup
nothing-IsChecked j g e = absurd cc

module _ {G : Type 0} (codec : Codec) (fns : Callbacks) (gotd : Gotd G)
    (api : Api (Session G)) where
  -- main gives the client to the cleaner and to the bot.
  abbrev pub wired : Api (Session G)
  wired = record api { tg = client gotd }

  -- The program asks Telegram for the deletion of the account's own messages alone. Let a property of
  -- the server hold at first; let the calls of the server keep it, those that delete messages if these
  -- are the account's own; let the database, the Bot API, the end of a run and the clock keep it, and
  -- the chats that the client knows in order; and let Telegram report no messages as outgoing, and find
  -- none in a search that asks for the messages from the account itself, but the account's own. Each
  -- scan may be cut off by its context after any number of pages. A process comes to serve, over
  -- any store, whose client knows no chats yet. Then the property holds after every list of events:
  -- updates of the bot and of the client, sweeps, reconciles and goroutines in any order.
  pub requests_own :
      (K : ℤ → ℕ → Type 0) (Good : G → Type 0) (telegram : Telegram gotd K Good)
      (outside : Outside wired (GoodSession gotd K Good telegram)) (owner : ℤ) (cfg : Store)
      (s : Session G) (es : List Event)
      → Good s.server
      → s.groups ≡ []
      → All (IsHonest K) es
      → Good (after_all codec wired fns es (served codec wired fns owner cfg s)).system.world.server
  requests_own K Good telegram outside owner cfg s es g known k =
      let around : Surroundings wired K IsProper (GoodSession gotd K Good telegram) = record {
        guards = client-Guards gotd K Good telegram wired.host outside.waits_keep;
        outside = outside;
      } in
      (deletes_own codec wired fns K (GoodSession gotd K Good telegram) around owner cfg s es
        (g, subst IsChecked (sym known) nothing-IsChecked) k).0
