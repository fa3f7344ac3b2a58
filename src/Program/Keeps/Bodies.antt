-- ===== src/Program/Keeps/Bodies.antt =====
-- internal/bot/bot.go, internal/cleaner/cleaner.go: the callbacks and the bodies of the goroutines.
use langolier_bot.Base.{refl, inl, ℕ, Option, none, some, List, [], ◌∷◌}
use langolier_bot.Base.Int.{ℤ}
use langolier_bot.Base.Lists.{All, All-append, All-weaken, Holds}
use langolier_bot.Base.Text.{Text, codes}
use langolier_bot.Chatcfg.Store.{Codec}
use langolier_bot.Tgclient.Updates.{Callbacks, Call, own_message, deleted_messages, membership}
use langolier_bot.Cleaner.State.{Cleaner, Spawn, sweeps, deletes, drains, on_own_message}
use langolier_bot.Cleaner.Sweep.{Report}
use langolier_bot.Cleaner.Drain.{purge_now}
use langolier_bot.Cleaner.Own.{SpawnsOwn, on_own_message-SpawnsOwn}
use langolier_bot.Bot.State.{
  System, Output, cleans_history, purges, scans, enables, spawns, says, shows, asks, edits, erases,
  answers, waits, starts, reconciles, Api, Handled, poke_membership,
}
use langolier_bot.Bot.Commands.{spawn_all}
use langolier_bot.Bot.Moves.{IsHarmless}
use langolier_bot.Bot.Keeps.{Kept}
use langolier_bot.Bot.Jobs.{reported, clean_history, purge_chat, scanned, scan_chat, enable_job}
use langolier_bot.Program.{call_back, call_all, body, run_job}
use langolier_bot.Program.Keeps.{IsLasting, CallsOwn, PutsOwn}

module _ {W : Type 0} (codec : Codec) (api : Api W) (fns : Callbacks) (K : ℤ → ℕ → Type 0)
    (P : System W → Type 0) (lasting : IsLasting codec api K P) where
  abbrev pub Safe : Handled W → Type 0
  Safe h = P h.0 × All (PutsOwn K) h.1

  harmless_own : (o : Output) → IsHarmless o → PutsOwn K o
  harmless_own (spawns sweeps) h = tt
  harmless_own (spawns (deletes marked ids)) h = absurd h
  harmless_own (spawns (drains marked)) h = tt
  harmless_own (cleans_history marked) h = tt
  harmless_own (purges marked) h = tt
  harmless_own (scans marked) h = tt
  harmless_own (enables marked) h = tt
  harmless_own (says t) h = tt
  harmless_own (shows t k) h = tt
  harmless_own (asks t p) h = tt
  harmless_own (edits t x k) h = tt
  harmless_own (erases m i) h = tt
  harmless_own (answers t) h = tt
  harmless_own (waits t) h = tt
  harmless_own starts h = tt
  harmless_own reconciles h = tt

  -- What a handler leaves that keeps the property.
  pub Kept-Safe : (h : Handled W) → Kept codec api P lasting.closed h → Safe h
  Kept-Safe h k = (k.0, All-weaken IsHarmless (PutsOwn K) h.1 harmless_own k.1)

  pub spawn_all-own :
      (jobs : List Spawn) → All (SpawnsOwn K) jobs → All (PutsOwn K) (spawn_all jobs)
  unfolding spawn_all
  spawn_all-own [] h = tt
  spawn_all-own (j ∷ jobs) h = (h.0, spawn_all-own jobs h.1)

  call_back-Safe :
      (c : Call) (s : System W) → CallsOwn K c → P s → Safe (call_back codec api fns c s)
  unfolding call_back poke_membership
  call_back-Safe (own_message marked id date text) s k h = (
    lasting.records s marked id date text k h,
    spawn_all-own (on_own_message s.cfg marked id date text s.cl).1
        (on_own_message-SpawnsOwn K s.cfg marked id date text s.cl k),
  )
  call_back-Safe (deleted_messages marked ids) s k h = (lasting.forgets s marked ids h, tt)
  call_back-Safe membership s k h = (lasting.closed.talks s _ refl (inl refl) h, tt)

  pub call_all-Safe :
      (cs : List Call) (s : System W)
      → All (CallsOwn K) cs
      → P s
      → Safe (call_all codec api fns cs s)
  unfolding call_all
  call_all-Safe [] s k h = (h, tt)
  call_all-Safe (c ∷ cs) s k h =
      let one = call_back-Safe c s k.0 h in
      let (t, out) = call_back codec api fns c s in
      let rest = call_all-Safe cs t k.1 one.0 in
      (rest.0, All-append (PutsOwn K) out (call_all codec api fns cs t).1 one.1 rest.1)

  reported-Safe :
      (failure kind : Text) (s : System W) (r : (Report × Option Text) × Cleaner × W)
      → P (record s { cl = r.1; world = r.2 })
      → Safe (reported api failure kind s r)
  reported-Safe failure kind s ((rep, none), cl, w) h = (h, (tt, tt))
  reported-Safe failure kind s ((rep, some e), cl, w) h = (h, (tt, tt))

  scanned-Safe :
      (marked : ℤ) (s : System W) (r : Option Text × Cleaner × W)
      → P (record s { cl = r.1; world = r.2 })
      → Safe (scanned api marked s r)
  scanned-Safe marked s (none, cl, w) h = (h, (tt, tt))
  scanned-Safe marked s (some e, cl, w) h = (h, (tt, tt))

  purge_now-Safe :
      (marked : ℤ) (s : System W)
      → P s
      → let r = purge_now api.tg api.host s.cfg marked s.cl s.world in
        P (record s { cl = r.1; world = r.2 })
  unfolding purge_now
  purge_now-Safe marked s h = lasting.drains s marked h

  spawned-Safe :
      (j : Spawn) (s : System W) → SpawnsOwn K j → P s → Safe (body codec api fns (spawns j) s)
  unfolding body
  spawned-Safe sweeps s k h = (h, tt)
  spawned-Safe (deletes marked ids) s k h = (lasting.deletes s marked ids k h, tt)
  spawned-Safe (drains marked) s k h = (lasting.drains s marked h, tt)

  body-Safe : (o : Output) (s : System W) → PutsOwn K o → P s → Safe (body codec api fns o s)
  unfolding body clean_history purge_chat scan_chat enable_job
  body-Safe (cleans_history marked) s k h =
      reported-Safe (codes "History cleanup failed: ") (codes "History cleanup") s _
        (purge_now-Safe marked s h)
  body-Safe (purges marked) s k h =
      reported-Safe (codes "Purge error: ") (codes "Purge") s _ (purge_now-Safe marked s h)
  body-Safe (scans marked) s k h = scanned-Safe marked s _ (lasting.scans s marked h)
  body-Safe (enables marked) s k h = (lasting.scans s marked h, tt)
  body-Safe (spawns j) s k h = spawned-Safe j s k h
  body-Safe (says t) s k h = (h, tt)
  body-Safe (shows t x) s k h = (h, tt)
  body-Safe (asks t p) s k h = (h, tt)
  body-Safe (edits t x y) s k h = (h, tt)
  body-Safe (erases m i) s k h = (h, tt)
  body-Safe (answers t) s k h = (h, tt)
  body-Safe (waits t) s k h = (h, tt)
  body-Safe starts s k h = (h, tt)
  body-Safe reconciles s k h = (h, tt)

  pub run_job-Safe :
      (job : Option Output) (s : System W)
      → Holds (PutsOwn K) job
      → P s
      → Safe (run_job codec api fns job s)
  run_job-Safe none s k h = (h, tt)
  run_job-Safe (some job) s k h = body-Safe job s k h
