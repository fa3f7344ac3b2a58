-- ===== src/Tgclient/Lifecycle.antt =====
-- internal/tgclient/tgclient.go: Start, Stop and the goroutine that Start starts, as steps that any
-- number of callers take in any order. A step is a critical section, or an operation on a channel.
pub mod Returns
pub mod Alone
pub mod Progress
pub mod Api
pub mod Overlap
pub mod Tests
use langolier_bot.Base.{
  ℕ, suc, ◌<◌, Bool, true, false, Option, none, some, ◌≡◌, nat_beq, if◌then◌else◌,
}
use langolier_bot.Base.Text.{Text, codes}
use langolier_bot.Base.Calls.{Answer, got, failed}
use langolier_bot.Tgclient.Delete.{not_running}

-- context.Canceled, and any other error.
pub data Fault : Type 0 where
  cancelled : Fault
  fault : Text → Fault

-- The fields that belong to a run of the client: `current` is the run whose stack, cancel function and
-- channel are in the fields; runs are numbered in the order in which they are built.
pub record Client : Type 0 where
  pub running : Bool
  pub current : Option ℕ
  pub run_err : Option Fault

-- New
abbrev pub new_client : Client
new_client = record { running = false; current = none; run_err = none }

-- The critical section of Start, after buildStack has built the stack of run `k`.
unfoldable pub begin : ℕ → Client → Client
begin k c = record { running = true; current = some k; run_err = none }

unfoldable pub reset : Client → Client
reset c = record c { running = false; current = none }

-- apiRef, which returns the client of the run whose stack is in the fields.
abbrev pub ref : Option ℕ → Answer ℕ
ref none = failed not_running
ref (some k) = got k

unfoldable pub api_ref : Client → Answer ℕ
api_ref c = ref c.current

-- Running
unfoldable pub is_running : Client → Bool
is_running c = c.running

-- The goroutine of a run: it runs the stack, then stores the error, then closes `done`.
pub data Phase : Type 0 where
  working recorded ended : Phase

-- `ready` is what has been sent on the channel `ready`: nil, or the error of the startup.
pub record Run : Type 0 where
  pub phase : Phase
  pub ready : Option (Option Fault)
  pub is_cancelled : Bool

abbrev pub fresh_run : Run
fresh_run = record { phase = working; ready = none; is_cancelled = false }

abbrev pub update {ℓ} : {A : Type ℓ} → (ℕ → A) → ℕ → A → ℕ → A
update f k a j = if nat_beq k j then a else f j

pub record Memory : Type 0 where
  pub client : Client
  pub runs : ℕ → Run
  pub next : ℕ

abbrev pub with_run : ℕ → (Run → Run) → Memory → Memory
with_run k f m = record m { runs = update m.runs k (f (m.runs k)) }

abbrev pub begin_run : Memory → Memory
begin_run m = record {
  client = begin m.next m.client;
  runs = update m.runs m.next fresh_run;
  next = suc m.next;
}

abbrev pub cancel_run : Run → Run
cancel_run r = record r { is_cancelled = true }

abbrev pub cancel : ℕ → Memory → Memory
cancel k m = with_run k cancel_run m

abbrev pub reset_client : Memory → Memory
reset_client m = record m { client = reset m.client }

-- What a call has returned.
pub data Result : Type 0 where
  no_call : Result
  started : ℕ → Result
  already_running : Result
  not_built : Fault → Result
  start_failed : ℕ → Fault → Result
  was_stopped : Result
  stopped : ℕ → Option Fault → Result

-- Where a caller is: outside of a call; in Start, at the select; in Start, waiting for `done` after an
-- error; before the reset; in Stop, before the cancel; in Stop, waiting for `done`.
pub data Pc : Type 0 where
  rest : Result → Pc
  selecting : ℕ → Pc
  failing : ℕ → Fault → Pc
  resetting : Result → Pc
  cancelling : ℕ → Pc
  stopping : ℕ → Pc

-- if err != nil { return err }; return errors.New("tgclient: stopped during startup")
abbrev pub start_result : Option Fault → Fault
start_result none = fault (codes "tgclient: stopped during startup")
start_result (some e) = e

-- errors.Is(err, context.Canceled)
abbrev pub stop_result : Option Fault → Option Fault
stop_result none = none
stop_result (some cancelled) = none
stop_result (some (fault e)) = some (fault e)

-- A step of a caller. A select may take either case that is ready.
pub data Move (m : Memory) : Pc → Memory → Pc → Type 0 where
  start_refused : (r : Result) → m.client.running ≡ true → Move m (rest r) m (rest already_running)
  start_unbuilt :
      (r : Result) (e : Fault) → m.client.running ≡ false → Move m (rest r) m (rest (not_built e))
  start_begun :
      (r : Result) → m.client.running ≡ false → Move m (rest r) (begin_run m) (selecting m.next)
  start_ready : (k : ℕ) → (m.runs k).ready ≡ some none → Move m (selecting k) m (rest (started k))
  start_error :
      (k : ℕ) (e : Fault)
      → (m.runs k).ready ≡ some (some e)
      → Move m (selecting k) (cancel k m) (failing k e)
  start_waited :
      (k : ℕ) (e : Fault)
      → (m.runs k).phase ≡ ended
      → Move m (failing k e) m (resetting (start_failed k e))
  start_done :
      (k : ℕ)
      → (m.runs k).phase ≡ ended
      → Move m
          (selecting k)
          (cancel k m)
          (resetting (start_failed k (start_result m.client.run_err)))
  stop_idle : (r : Result) → m.client.running ≡ false → Move m (rest r) m (rest was_stopped)
  stop_begun :
      (r : Result) (k : ℕ)
      → m.client.running ≡ true
      → m.client.current ≡ some k
      → Move m (rest r) m (cancelling k)
  stop_cancels : (k : ℕ) → Move m (cancelling k) (cancel k m) (stopping k)
  stop_waited :
      (k : ℕ)
      → (m.runs k).phase ≡ ended
      → Move m (stopping k) m (resetting (stopped k (stop_result m.client.run_err)))
  reset_done : (r : Result) → Move m (resetting r) (reset_client m) (rest r)

abbrev pub send_run : Option Fault → Run → Run
send_run err r = record r { ready = some err }

abbrev pub move_run : Phase → Run → Run
move_run p r = record r { phase = p }

abbrev pub store_err : Option Fault → Memory → Memory
store_err err m = record m { client = record m.client { run_err = err } }

-- A step of the goroutine of a run: it may send on `ready` once; the stack may come back by itself, with
-- any error, at any time; it comes back when the context of the run has been cancelled; then the
-- goroutine closes `done`.
pub data Work (m : Memory) (k : ℕ) : Memory → Type 0 where
  sends :
      (err : Option Fault)
      → (m.runs k).phase ≡ working
      → (m.runs k).ready ≡ none
      → Work m k (with_run k (send_run err) m)
  breaks :
      (err : Option Fault)
      → (m.runs k).phase ≡ working
      → Work m k (with_run k (move_run recorded) (store_err err m))
  returns :
      (err : Option Fault)
      → (m.runs k).phase ≡ working
      → (m.runs k).is_cancelled ≡ true
      → Work m k (with_run k (move_run recorded) (store_err err m))
  closes : (m.runs k).phase ≡ recorded → Work m k (with_run k (move_run ended) m)

pub record System : Type 0 where
  pub memory : Memory
  pub pc : ℕ → Pc

-- `n` callers, and the goroutines of the runs that have begun.
pub data Step (n : ℕ) (s : System) : System → Type 0 where
  calls :
      (i : ℕ) {m : Memory} {p : Pc}
      → i < n
      → Move s.memory (s.pc i) m p
      → Step n s (record { memory = m; pc = update s.pc i p })
  works :
      (k : ℕ) {m : Memory}
      → k < s.memory.next
      → Work s.memory k m
      → Step n s (record s { memory = m })

abbrev pub initial : System
initial = record {
  memory = record { client = new_client; runs = λ k. fresh_run; next = 0 };
  pc = λ i. rest no_call;
}

pub data Steps (n : ℕ) (s : System) : System → Type 0 where
  here : Steps n s s
  later : {t u : System} → Steps n s t → Step n t u → Steps n s u
