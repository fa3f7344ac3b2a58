-- ===== src/Program/Durable.antt =====
-- cmd/langolier/main.go: the store of a program that may be stopped at any moment and started again.
use langolier_bot.Base.{none, some, ◌≡◌, sym, subst, ◌⊎◌, inl, inr, arith, ℕ, true, false}
use langolier_bot.Base.Int.{ℤ, InInt64}
use langolier_bot.Chatcfg.Store.{Codec, Store, ok, get, load, open_store}
use langolier_bot.Chatcfg.Reload.{
  IsSynced, empty_store, empty-IsSynced, call-IsSynced, reopen, reopen-IsSynced,
}
use langolier_bot.Tgclient.Updates.{
  Callbacks, message, service, empty, peer_chat, peer_channel, peer_user, new_message,
  new_channel_message, delete_messages, delete_channel_messages, channel_inaccessible,
}
use langolier_bot.Bot.State.{System, Api}
use langolier_bot.Bot.Keeps.{IsClosed}
use langolier_bot.Program.Keeps.{IsLasting, IsTruthful, TellsTruth, IsHonest}
use langolier_bot.Program.Keeps.Events.{AllSafe, step-AllSafe}
use langolier_bot.Program.{
  Running, Event, updated, told, questions, replied, came_up, readied, swept, loop_left, ticked,
  poked, goes, served, Reached, first, happens, restarts,
}
use langolier_bot.Tgclient.Updates

module _ {W : Type 0} (codec : Codec) (api : Api W) (fns : Callbacks) where
  -- The bucket and the cache are in step, and the chat of the conversation is an int64.
  abbrev IsDurable : System W → Type 0
  IsDurable s = IsSynced codec s.cfg × InInt64 s.bot.convo_chat

  in_range : (marked chat : ℤ) → (marked ≡ chat) ⊎ InInt64 marked → InInt64 chat → InInt64 marked
  in_range marked chat (inl e) r = subst InInt64 (sym e) r
  in_range marked chat (inr q) r = q

  IsDurable-IsClosed : IsClosed codec api IsDurable
  IsDurable-IsClosed = record {
    moves = λ s m h. h;
    talks = λ s b same chat h. (h.0, in_range b.convo_chat s.bot.convo_chat chat h.1);
    stores = λ s marked c answer m h. (
      call-IsSynced codec s.cfg marked answer c (in_range marked s.bot.convo_chat m h.1) h.0,
      h.1,
    );
  }

  -- What the store and the conversation hold does not depend on whose messages are deleted.
  abbrev Anyone : ℤ → ℕ → Type 0
  Anyone marked id = Unit

  IsDurable-IsLasting : IsLasting codec api Anyone IsDurable
  IsDurable-IsLasting = record {
    closed = IsDurable-IsClosed;
    records = λ s marked id date text k h. h;
    forgets = λ s marked ids h. h;
    runs = λ s h. h;
    ends = λ s h. h;
    sweeps = λ s h. h;
    deletes = λ s marked ids k h. h;
    scans = λ s marked h. h;
    drains = λ s marked h. h;
  }

  message-IsTruthful : (m : Updates.NewMessage) → IsTruthful Anyone m
  message-IsTruthful (message true (peer_chat id) msg_id date text) = tt
  message-IsTruthful (message true (peer_channel id) msg_id date text) = tt
  message-IsTruthful (message true (peer_user id) msg_id date text) = tt
  message-IsTruthful (message false peer msg_id date text) = tt
  message-IsTruthful (service action) = tt
  message-IsTruthful empty = tt

  update-TellsTruth : (u : Updates.Update) → TellsTruth Anyone u
  update-TellsTruth (new_message m) = message-IsTruthful m
  update-TellsTruth (new_channel_message m) = message-IsTruthful m
  update-TellsTruth (delete_messages ids) = tt
  update-TellsTruth (delete_channel_messages channel ids) = tt
  update-TellsTruth (channel_inaccessible channel) = tt

  event-IsHonest : (e : Event) → IsHonest Anyone e
  event-IsHonest (told u) = update-TellsTruth u
  event-IsHonest (updated u) = tt
  event-IsHonest (questions q) = tt
  event-IsHonest replied = tt
  event-IsHonest (came_up err) = tt
  event-IsHonest readied = tt
  event-IsHonest swept = tt
  event-IsHonest loop_left = tt
  event-IsHonest ticked = tt
  event-IsHonest poked = tt
  event-IsHonest (goes k) = tt

  abbrev Durable : Running W → Type 0
  Durable r = AllSafe codec api fns Anyone IsDurable IsDurable-IsLasting r

  served-IsDurable :
      (owner : ℤ) (cfg : Store) (w : W)
      → IsSynced codec cfg
      → IsDurable (served codec api fns owner cfg w).system
  served-IsDurable owner cfg w y = (y, omega arith)

  opened_empty : (cfg : Store) → open_store codec none none ≡ ok cfg → empty_store ≡ cfg
  unfolding open_store load
  opened_empty cfg e = ground arith

  Reached-Durable : {r : Running W} → Reached codec api fns r → Durable r
  Reached-Durable (first owner w cfg e) = (
    served-IsDurable owner cfg w
        (subst (IsSynced codec) (opened_empty cfg e) (empty-IsSynced codec)),
    tt,
  )
  Reached-Durable (happens {r} q e) =
      step-AllSafe codec api fns Anyone IsDurable IsDurable-IsLasting e r (event-IsHonest e)
        (Reached-Durable q)
  Reached-Durable (restarts {r} q owner w cfg e) = (
    served-IsDurable owner cfg w (reopen-IsSynced codec r.system.cfg cfg (Reached-Durable q).0.0 e),
    tt,
  )

  -- Nothing is lost: from an empty database on, whatever the owner, Telegram, the goroutines and the
  -- database do, in whatever order, and however often the program is stopped at any moment and started
  -- again: at every moment the bucket can be opened, and the configuration that is read from it is,
  -- for every chat, the one that the running program goes by.
  pub Reached-Reads :
      (r : Running W)
      → Reached codec api fns r
      → (cfg : Store) × (open_store codec (some r.system.cfg.bucket) none ≡ ok cfg)
        × ((j : ℤ) → InInt64 j → get cfg j ≡ get r.system.cfg j)
  Reached-Reads r q = reopen codec r.system.cfg (Reached-Durable q).0.0
