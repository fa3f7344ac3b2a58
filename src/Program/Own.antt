-- ===== src/Program/Own.antt =====
-- cmd/langolier/main.go: whose messages the program deletes while it serves. `K` tells which are the
-- account's own; `Good` stands for a property of the world that holds as long as no other is deleted.
pub mod Requests
pub mod Tests
use langolier_bot.Base.{ℕ, List, inl, inr, Bool-cases}
use langolier_bot.Base.Int.{ℤ}
use langolier_bot.Base.Lists.{All}
use langolier_bot.Chatcfg.Store.{Codec, Store}
use langolier_bot.Tgclient.Updates.{Callbacks}
use langolier_bot.Cleaner.State.{Cleaner, sweeps, deletes, drains, reset, loop_ended, run}
use langolier_bot.Cleaner.Own.{IsOwn, on_own_message-IsOwn, on_deleted-IsOwn, disable_chat-IsOwn}
use langolier_bot.Tgclient.Group.{Group}
use langolier_bot.Cleaner.Own.Requests.{Guards, delete_ids-Sound, sweep-Sound}
use langolier_bot.Bot.State.{Api, EditTarget, System, scans}
use langolier_bot.Program.{Event, served}
use langolier_bot.Cleaner.Own.Drains.{enable_chat-Sound, drain_chat-Sound}
use langolier_bot.Cleaner.Own.Reconciling.{reconcile-Fine, reconcile-world, IsOwn-Withstands}
use langolier_bot.Bot.Moves.{Move, commits, rewrites, resolves, stops, leaves, compares, after_move}
use langolier_bot.Bot.Keeps.{IsClosed}
use langolier_bot.Program.Keeps.{IsLasting, IsHonest}
use langolier_bot.Program.Keeps.Events.{after_all, after_all-AllSafe}

-- The database, the Bot API, the end of a run of the client and the clock leave the world good.
pub record Outside {W : Type 0} (api : Api W) (Good : W → Type 0) : Type 0 where
  pub commits_keep : (w : W) → Good w → Good (api.commit w).1
  pub edits_keep : (t : EditTarget) (w : W) → Good w → Good (api.edit t w).1
  pub stops_keep : (w : W) → Good w → Good (api.stop_client w).1
  pub waits_keep : (d : ℕ) (w : W) → Good w → Good (api.host.wait d w).1

-- What the rest of the world promises.
pub record Surroundings {W : Type 0} (api : Api W) (K : ℤ → ℕ → Type 0) (F : Group → Type 0)
    (Good : W → Type 0) : Type 0 where
  pub guards : Guards api.tg api.host K F Good
  pub outside : Outside api Good

module _ {W : Type 0} (codec : Codec) (api : Api W) (fns : Callbacks) (K : ℤ → ℕ → Type 0)
    (Good : W → Type 0) {F : Group → Type 0} (around : Surroundings api K F Good) where
  abbrev pub IsSafe : System W → Type 0
  IsSafe s = IsOwn K s.cl.index × Good s.world

  moves-IsSafe : (s : System W) (m : Move) → IsSafe s → IsSafe (after_move api m s)
  unfolding reset
  moves-IsSafe s commits h = (h.0, around.outside.commits_keep s.world h.1)
  moves-IsSafe s (rewrites t) h = (h.0, around.outside.edits_keep t s.world h.1)
  moves-IsSafe s resolves h = (h.0, around.guards.resolve_keeps s.world h.1)
  moves-IsSafe s stops h = (tt, around.outside.stops_keep s.world h.1)
  moves-IsSafe s (leaves marked) h = (disable_chat-IsOwn K marked s.cl h.0, h.1)
  moves-IsSafe s compares h = (
    (reconcile-Fine api.tg (λ c. IsOwn K c.index) (IsOwn-Withstands K) s.cfg s.cl s.world h.0).0,
    reconcile-world api.tg (λ c. IsOwn K c.index) (IsOwn-Withstands K) s.cfg s.cl s.world Good
        (around.guards.resolve_keeps s.world h.1),
  )

  IsSafe-IsClosed : IsClosed codec api IsSafe
  IsSafe-IsClosed = record {
    moves = moves-IsSafe;
    talks = λ s b same chat h. h;
    stores = λ s marked c answer m h. h;
  }

  run-IsOwn : (c : Cleaner) → IsOwn K c.index → IsOwn K (run c).0.index
  unfolding run
  run-IsOwn c h = elim (Bool-cases c.looping) [ inl e ↦ rw e h | inr e ↦ rw e h ]

  IsSafe-IsLasting : IsLasting codec api K IsSafe
  unfolding loop_ended
  IsSafe-IsLasting =
      let host = api.host in
      let guards = around.guards in
      record {
        closed = IsSafe-IsClosed;
        records = λ s marked id date text k h.
            (on_own_message-IsOwn K s.cfg marked id date text s.cl k h.0, h.1);
        forgets = λ s marked ids h. (on_deleted-IsOwn K marked ids s.cl h.0, h.1);
        runs = λ s h. (run-IsOwn s.cl h.0, h.1);
        ends = λ s h. h;
        sweeps = λ s h. sweep-Sound api.tg host K Good guards s.cfg s.cl s.world h;
        deletes = λ s marked ids k h.
            delete_ids-Sound api.tg host K Good guards marked ids s.cl s.world k h;
        scans = λ s marked h. enable_chat-Sound api.tg host K Good guards marked s.cl s.world h;
        drains =
            λ s marked h. drain_chat-Sound api.tg host K Good guards s.cfg marked s.cl s.world h;
      }

  -- The world stays good, from the moment when the program comes to serve, over any store.
  pub deletes_own :
      (owner : ℤ) (cfg : Store) (w : W) (es : List Event)
      → Good w
      → All (IsHonest K) es
      → Good (after_all codec api fns es (served codec api fns owner cfg w)).system.world
  deletes_own owner cfg w es g k =
      (after_all-AllSafe codec api fns K IsSafe IsSafe-IsLasting es
        (served codec api fns owner cfg w) k ((tt, g), tt)).0.1
