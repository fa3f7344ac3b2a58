-- ===== src/Bot/Keeps/Updates.antt =====
-- internal/bot/bot.go: the handlers of updates change the system by the moves of Bot/Moves, talk to the
-- owner, and call the store for the chat of the conversation or for an int64.
use langolier_bot.Base.{
  Bool, true, false, Option, none, some, [], ◌∷◌, refl, inl, inr, Option-cases, ◌==◌, nat_eq,
  list_eq, if◌then◌else◌, arith,
}
use langolier_bot.Base.Int.{ℤ, pos, int_beq, ltb_ℤ, InInt64}
use langolier_bot.Base.Text.{Text, codes, is_empty}
use langolier_bot.Base.Decimal.{parse_int}
use langolier_bot.Chatcfg.Store.{Codec, Error}
use langolier_bot.Chatcfg.Spec.{Call, sets_ttl, adds, removes, disables, call}
use langolier_bot.Bot.Callback.{
  Callback, page, for_chat, patkind, patdel, chat, ttl, ttlclear, pat, patadd, purge, off,
  parse_callback,
}
use langolier_bot.Bot.Callback.InRange.{InRange, parse_callback-InRange}
use langolier_bot.Bot.State.{
  InputKind, input_none, input_phone, input_code, input_password, input_ttl, input_pattern, System,
  EditTarget, Api, erases, clear_pending, no_target,
}
use langolier_bot.Bot.Moves.{commits, leaves, IsHarmless}
use langolier_bot.Base.Lists.{All}
use langolier_bot.Bot.Commands.{show_chat_menu, show_pattern_menu, run_purge}
use langolier_bot.Bot.Handlers.{
  Message, Update, query, message, other, on_update, on_message, on_callback, on_parsed, on_command,
  on_text, on_reply, delivered, deliver, on_minutes, on_pattern_text, pattern_added, ttl_applied,
  pattern_removed, chat_disabled, finish_pattern, apply_ttl,
}
use langolier_bot.Bot.Keeps.{
  IsCallable, IsClosed, Kept, by_test, render-Kept, cmd_config-Kept, cmd_start-Kept, cmd_stop-Kept,
  cmd_status-Kept,
}

module _ {W : Type 0} (codec : Codec) (api : Api W) (P : System W → Type 0)
    (closed : IsClosed codec api P) where
  -- A call of the store, and the answer of the database to it.
  stores_then :
      (s : System W) (marked : ℤ) (c : Call)
      → IsCallable marked s.bot
      → P s
      → P (record s {
        cfg = (call codec s.cfg marked (api.commit s.world).0 c).0;
        world = (api.commit s.world).1;
      })
  stores_then s marked c m h =
      closed.moves _ commits (closed.stores s marked c (api.commit s.world).0 m h)

  pattern_added-Kept :
      (kind value : Text) (r : Option Error × System W)
      → P r.1
      → Kept codec api P closed (pattern_added codec api kind value r)
  pattern_added-Kept kind value (none, s) h = (h, (tt, tt))
  pattern_added-Kept kind value (some e, s) h = (h, (tt, tt))

  cleared : (s : System W) → P s → P (record s { bot = clear_pending s.bot })
  unfolding clear_pending
  cleared s h = closed.talks s _ refl (inr (omega arith)) h

  finish_pattern-Kept :
      (kind : Text) (s : System W) → P s → Kept codec api P closed (finish_pattern codec api kind s)
  unfolding finish_pattern call
  finish_pattern-Kept kind s h =
      by_test codec api P closed _ _ _ (h, tt)
        (pattern_added-Kept kind _ _
          (cleared _ (stores_then s s.bot.convo_chat (adds _) (inl refl) h)))

  ttl_applied-Kept :
      (m n : ℤ) (first : Bool) (r : Option Error × System W)
      → P r.1
      → Kept codec api P closed (ttl_applied codec api m n first r)
  ttl_applied-Kept m n first (some e, s) h = (h, (tt, tt))
  ttl_applied-Kept m n first (none, s) h =
      by_test codec api P closed (ltb_ℤ (pos 0) n) _ _
        (by_test codec api P closed first _ _ (h, (tt, (tt, tt))) (h, (tt, (tt, tt))))
        (closed.moves s (leaves m) h, (tt, tt))

  apply_ttl-Kept :
      (m n : ℤ) (s : System W)
      → P (record s {
        cfg = (call codec s.cfg m (api.commit s.world).0 (sets_ttl n)).0;
        world = (api.commit s.world).1;
      })
      → Kept codec api P closed (apply_ttl codec api m n s)
  unfolding apply_ttl call
  apply_ttl-Kept m n s h = ttl_applied-Kept m n _ _ h

  pattern_removed-Kept :
      (m : ℤ) (t : EditTarget) (r : Option Error × System W)
      → P r.1
      → Kept codec api P closed (pattern_removed codec api m t r)
  unfolding show_pattern_menu
  pattern_removed-Kept m t (some e, s) h = (h, (tt, tt))
  pattern_removed-Kept m t (none, s) h = render-Kept codec api P closed t _ _ s h

  chat_disabled-Kept :
      (m : ℤ) (r : Option Error × System W)
      → P r.1
      → Kept codec api P closed (chat_disabled codec api m r)
  chat_disabled-Kept m (some e, s) h = (h, (tt, tt))
  chat_disabled-Kept m (none, s) h = (closed.moves s (leaves m) h, (tt, tt))

  awaits :
      (s : System W) (k : InputKind) (m : ℤ)
      → InInt64 m
      → P s
      → P (record s { bot = record s.bot { pending = k; convo_chat = m } })
  awaits s k m r h = closed.talks s _ refl (inr r) h

  on_parsed-Kept :
      (t : EditTarget) (c : Callback) (s : System W)
      → InRange c
      → P s
      → Kept codec api P closed (on_parsed codec api t c s)
  unfolding on_parsed show_chat_menu show_pattern_menu run_purge call
  on_parsed-Kept t (page p) s r h = cmd_config-Kept codec api P closed p t s h
  on_parsed-Kept t (for_chat chat m) s r h = render-Kept codec api P closed t _ _ s h
  on_parsed-Kept t (for_chat ttl m) s r h = (awaits s input_ttl m r h, (tt, tt))
  on_parsed-Kept t (for_chat ttlclear m) s r h =
      apply_ttl-Kept m (pos 0) s (stores_then s m (sets_ttl (pos 0)) (inr r) h)
  on_parsed-Kept t (for_chat pat m) s r h = render-Kept codec api P closed t _ _ s h
  on_parsed-Kept t (for_chat patadd m) s r h = (awaits s input_pattern m r h, (tt, tt))
  on_parsed-Kept t (for_chat purge m) s r h = (h, (tt, (tt, tt)))
  on_parsed-Kept t (for_chat off m) s r h =
      chat_disabled-Kept m _ (stores_then s m disables (inr r) h)
  on_parsed-Kept t (patkind arg) s r h = finish_pattern-Kept arg s h
  on_parsed-Kept t (patdel m idx) s r h =
      pattern_removed-Kept m t _ (stores_then s m (removes idx) (inr r) h)

  on_callback-Kept :
      (id : Text) (t : EditTarget) (text : Text) (s : System W)
      → P s
      → Kept codec api P closed (on_callback codec api id t text s)
  unfolding on_callback
  on_callback-Kept id t text s h = elim (Option-cases (parse_callback text)) [
    | inl e ↦ rw (on_callback, e) (h, (tt, tt))
    | inr (c, e) ↦
        let k = on_parsed-Kept t c s (rw e at (parse_callback-InRange text)) h in
        rw (on_callback, e) (k.0, (tt, k.1))
  ]

  on_command-Kept :
      (text : Text) (s : System W) → P s → Kept codec api P closed (on_command codec api text s)
  unfolding on_command
  on_command-Kept text s h =
      by_test codec api P closed (text == codes "/start") _ _
        (cmd_start-Kept codec api P closed s h)
        (by_test codec api P closed (text == codes "/stop") _ _
          (cmd_stop-Kept codec api P closed s h)
          (by_test codec api P closed (text == codes "/config") _ _
            (cmd_config-Kept codec api P closed (pos 0) no_target s h)
            (by_test codec api P closed (text == codes "/status") _ _
              (cmd_status-Kept codec api P closed s h) (h, (tt, tt)))))

  erased-IsHarmless :
      (msg : Message) (secret : Bool)
      → All IsHarmless (if secret then erases msg.chat_id msg.id ∷ [] else [])
  erased-IsHarmless msg true = (tt, tt)
  erased-IsHarmless msg false = tt

  delivered-Kept :
      (msg : Message) (text : Text) (secret : Bool) (s : System W) (r : Option (Option Text))
      → P s
      → Kept codec api P closed
          (delivered codec api msg text secret s (deliver codec api text r s.bot))
  delivered-Kept msg text secret s none h = (h, erased-IsHarmless msg secret)
  delivered-Kept msg text secret s (some none) h =
      (closed.talks s _ refl (inl refl) h, erased-IsHarmless msg secret)
  delivered-Kept msg text secret s (some (some v)) h = (h, (tt, tt))

  on_reply-Kept :
      (msg : Message) (text : Text) (secret : Bool) (s : System W)
      → P s
      → Kept codec api P closed (on_reply codec api msg text secret s)
  unfolding on_reply
  on_reply-Kept msg text secret s h = delivered-Kept msg text secret s s.bot.auth_reply h

  on_minutes-Kept :
      (text : Text) (s : System W) → P s → Kept codec api P closed (on_minutes codec api text s)
  unfolding on_minutes
  on_minutes-Kept text s h = elim (Option-cases (parse_int text)) [
    | inl e ↦ rw (on_minutes, e) (h, (tt, tt))
    | inr (n, e) ↦
        rw (on_minutes, e)
          (by_test codec api P closed (ltb_ℤ n (pos 0)) _ _ (h, (tt, tt))
            (apply_ttl-Kept s.bot.convo_chat n _
              (cleared _ (stores_then s s.bot.convo_chat (sets_ttl n) (inl refl) h))))
  ]

  on_text-Kept :
      (kind : InputKind) (msg : Message) (text : Text) (s : System W)
      → P s
      → Kept codec api P closed (on_text codec api kind msg text s)
  unfolding on_text on_pattern_text
  on_text-Kept input_none msg text s h = on_command-Kept text s h
  on_text-Kept input_phone msg text s h = on_reply-Kept msg text false s h
  on_text-Kept input_code msg text s h = on_reply-Kept msg text true s h
  on_text-Kept input_password msg text s h = on_reply-Kept msg text true s h
  on_text-Kept input_ttl msg text s h = on_minutes-Kept text s h
  on_text-Kept input_pattern msg text s h =
      by_test codec api P closed (is_empty text) _ _ (h, (tt, tt))
        (closed.talks s _ refl (inl refl) h, (tt, tt))

  pub on_update-Kept :
      (u : Update) (s : System W) → P s → Kept codec api P closed (on_update codec api u s)
  unfolding on_update on_message
  on_update-Kept (query sender id t text) s h =
      by_test codec api P closed (int_beq sender s.bot.owner_id) _ _
        (on_callback-Kept id t text s h) (h, tt)
  on_update-Kept (message sender msg) s h =
      by_test codec api P closed (int_beq sender s.bot.owner_id) _ _
        (on_text-Kept s.bot.pending msg _ s h) (h, tt)
  on_update-Kept other s h = (h, tt)
