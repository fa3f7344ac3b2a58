-- ===== src/Program.antt =====
-- The program while it serves (cmd/langolier/main.go): the bot, the store, the cleaner and the client
-- put together. A state is the system and the goroutines that have been started and have not run; an
-- event is what happens next. Each body of a goroutine is one event here, and any event may come at
-- any time, also where the program would not let it: what holds after every list of events holds of
-- the program.

pub mod Keeps
pub mod Durable
pub mod Own
pub mod Tests
use langolier_bot.Base.{
  ℕ, suc, Bool, true, false, Option, none, some, List, [], ◌∷◌, ◌++◌, ◌≡◌, keep, take, drop,
  get_elem?,
}
use langolier_bot.Base.Int.{ℤ}
use langolier_bot.Base.Text.{Text}
use langolier_bot.Chatcfg.Store.{Codec, Store, ok, open_store}
use langolier_bot.Tgclient.Updates.{
  Callbacks, Call, own_message, deleted_messages, membership, handle,
}
use langolier_bot.Cleaner.State.{
  Cleaner, Spawn, deletes, drains, new_cleaner, on_own_message, on_deleted, loop_ended,
}
use langolier_bot.Cleaner.Sweep.{Report, delete_ids, sweep}
use langolier_bot.Cleaner.Drain.{drain_chat}
use langolier_bot.Bot.State.{
  Bot, System, Output, cleans_history, purges, scans, enables, spawns, Api, Handled, on_bot,
  new_bot, poke_membership, ask_phone, ask_code, ask_password, take_reply,
}
use langolier_bot.Bot.Commands.{spawn_all}
use langolier_bot.Bot.Handlers.{Update, on_update}
use langolier_bot.Bot.Jobs.{
  start_done, on_ready, tick, poked_round, clean_history, purge_chat, scan_chat, enable_job,
}
use langolier_bot.Tgclient.Updates

-- What has a body that ends.
abbrev pub is_goroutine : Output → Bool
is_goroutine (cleans_history marked) = true
is_goroutine (purges marked) = true
is_goroutine (scans marked) = true
is_goroutine (enables marked) = true
is_goroutine (spawns (deletes marked ids)) = true
is_goroutine (spawns (drains marked)) = true
is_goroutine other = false

pub record Running (W : Type 0) : Type 0 where
  pub system : System W
  pub jobs : List Output

-- A question of the authorization: AskPhone, AskCode, AskPassword with its hint.
pub data Question : Type 0 where
  phone code : Question
  password : Text → Question

pub data Event : Type 0 where
  -- The Bot API hands over an update; gotd hands over one.
  updated : Update → Event
  told : Updates.Update → Event
  -- The client asks the owner; it takes the reply.
  questions : Question → Event
  replied : Event
  -- Start has returned, with its error; the client is ready.
  came_up : Option Text → Event
  readied : Event
  -- The sweep of the loop; the end of the loop; the two cases of reconcileLoop.
  swept : Event
  loop_left : Event
  ticked : Event
  poked : Event
  -- The goroutine at a place in the list runs.
  goes : ℕ → Event

module _ {W : Type 0} (codec : Codec) (api : Api W) (fns : Callbacks) where
  abbrev cleaned : System W → Cleaner × List Spawn → Handled W
  cleaned s (cl, jobs) = (record s { cl = cl }, spawn_all jobs)

  -- The functions that main and Attach have set as callbacks: OnOwnMessage, OnDeleted, and the closure
  -- of Attach that pokes the membership loop.
  unfoldable pub call_back : Call → System W → Handled W
  call_back (own_message marked id date text) s =
      cleaned s (on_own_message s.cfg marked id date text s.cl)
  call_back (deleted_messages marked ids) s = (record s { cl = on_deleted marked ids s.cl }, [])
  call_back membership s = (on_bot poke_membership s, [])

  unfoldable pub call_all : List Call → System W → Handled W
  call_all [] s = (s, [])
  call_all (c ∷ cs) s =
      let (t, out) = call_back c s in let (u, more) = call_all cs t in (u, out ++ more)

  abbrev deleted : System W → Report × Cleaner × W → Handled W
  deleted s (rep, cl, w) = (record s { cl = cl; world = w }, [])

  abbrev drained : System W → (Report × Option Text) × Cleaner × W → Handled W
  drained s (rep, cl, w) = (record s { cl = cl; world = w }, [])

  -- The body of a goroutine.
  unfoldable pub body : Output → System W → Handled W
  body (cleans_history marked) s = clean_history api marked s
  body (purges marked) s = purge_chat api marked s
  body (scans marked) s = scan_chat api marked s
  body (enables marked) s = (enable_job api marked s, [])
  body (spawns (deletes marked ids)) s = deleted s (delete_ids api.tg marked ids s.cl s.world)
  body (spawns (drains marked)) s = drained s (drain_chat api.tg api.host s.cfg marked s.cl s.world)
  body other s = (s, [])

  abbrev swept_by : System W → Cleaner × W → Handled W
  swept_by s (cl, w) = (record s { cl = cl; world = w }, [])

  abbrev asked : System W → Bot × List Output → Handled W
  asked s (b, out) = (record s { bot = b }, out)

  unfoldable pub ask_owner : Question → System W → Handled W
  ask_owner phone s = asked s (ask_phone s.bot)
  ask_owner code s = asked s (ask_code s.bot)
  ask_owner (password hint) s = asked s (ask_password hint s.bot)

  abbrev taken : System W → Option (Text × Bot) → Handled W
  taken s none = (s, [])
  taken s (some (reply, b)) = (record s { bot = b }, [])

  abbrev run_job : Option Output → System W → Handled W
  run_job none s = (s, [])
  run_job (some job) s = body job s

  unfoldable pub happen : Event → List Output → System W → Handled W
  happen (updated u) jobs s = on_update codec api u s
  happen (told u) jobs s = call_all (handle fns u) s
  happen (questions q) jobs s = ask_owner q s
  happen replied jobs s = taken s (take_reply s.bot)
  happen (came_up err) jobs s = start_done err s
  happen readied jobs s = on_ready api s
  happen swept jobs s = swept_by s (sweep api.tg api.host s.cfg s.cl s.world)
  happen loop_left jobs s = (record s { cl = loop_ended s.cl }, [])
  happen ticked jobs s = tick api s
  happen poked jobs s = poked_round api s
  happen (goes k) jobs s = run_job (get_elem? jobs k) s

  -- The goroutines that are left when an event begins.
  abbrev left : Event → List Output → List Output
  left (goes k) jobs = take k jobs ++ drop (suc k) jobs
  left other jobs = jobs

  unfoldable pub step : Event → Running W → Running W
  step e r =
      let (s, out) = happen e r.jobs r.system in
      record { system = s; jobs = left e r.jobs ++ keep is_goroutine out }

  -- A process that has just come to serve, over a store.
  abbrev pub served : ℤ → Store → W → Running W
  served owner cfg w = record {
    system = record { bot = new_bot owner; cfg = cfg; cl = new_cleaner; world = w };
    jobs = [];
  }

  -- The states that the program can be in, from an empty database on, over any number of processes:
  -- each may end at any moment, and another one opens the bucket that is left.
  pub data Reached : Running W → Type 0 where
    first :
        (owner : ℤ) (w : W) (cfg : Store)
        → open_store codec none none ≡ ok cfg
        → Reached (served owner cfg w)
    happens : {r : Running W} → Reached r → (e : Event) → Reached (step e r)
    restarts :
        {r : Running W}
        → Reached r
        → (owner : ℤ) (w : W) (cfg : Store)
        → open_store codec (some r.system.cfg.bucket) none ≡ ok cfg
        → Reached (served owner cfg w)
