-- ===== src/Bot/Talk.antt =====
-- internal/bot/bot.go: conversations of several updates.
use langolier_bot.Base.{
  Bool, true, false, Option, none, some, ◌≡◌, ◌≢◌, refl, sym, ◌∙◌, ap, subst, arith, inl, inr,
}
use langolier_bot.Base.Int.{ℤ, pos, InInt64, int_eq, int_beq, int_beq_iff}
use langolier_bot.Base.Tests.{list_beq}
use langolier_bot.Base.Text.{Text, is_empty, trim_space}
use langolier_bot.Chatcfg.Config.{Pattern}
use langolier_bot.Chatcfg.Store.{Codec, Error, add_pattern}
use langolier_bot.Bot.Callback.{for_chat, patkind, patadd, payload, Callback}
use langolier_bot.Bot.Callback.RoundTrip.{IsCarried, parse_callback-payload}
use langolier_bot.Bot.State.{System, EditTarget, Api, on_bot, clear_pending}
use langolier_bot.Bot.Menus.{kind_text}
use langolier_bot.Bot.Handlers.{
  Message, Update, query, message, on_update, on_message, on_callback, on_parsed, on_text,
  on_pattern_text, finish_pattern, pattern_added,
}

kind_text-IsCarried : (exact : Bool) → IsCarried (patkind (kind_text exact))
kind_text-IsCarried true = inl refl
kind_text-IsCarried false = inr refl

nonzero : (m : ℤ) → m ≢ pos 0 → int_beq m (pos 0) ≡ false
nonzero m n = ground arith

pub own : (owner : ℤ) → int_beq owner owner ≡ true
own owner = (int_beq_iff owner owner).1 refl

module _ {W : Type 0} (codec : Codec) (api : Api W) where
  -- What an update leaves.
  abbrev pub after : Update → System W → System W
  after u s = (on_update codec api u s).0

  -- The owner presses a button with the payload of a callback.
  pub pressed :
      (id : Text) (t : EditTarget) (c : Callback) (s : System W)
      → IsCarried c
      → after (query s.bot.owner_id id t (payload c)) s ≡ (on_parsed codec api t c s).0
  unfolding on_update on_callback
  pressed id t c s h = rw (after, on_update, own s.bot.owner_id, parse_callback-payload c h) refl

  -- The owner sends a message.
  pub sent :
      (msg : Message) (s : System W)
      → after (message s.bot.owner_id msg) s
        ≡ (on_text codec api s.bot.pending msg (trim_space msg.text) s).0
  unfolding on_update on_message
  sent msg s = rw (after, on_update, own s.bot.owner_id) refl

  -- What the end of a conversation about a pattern leaves, of the system in which it began.
  abbrev Added : Text → Bool → System W → System W → Type 0
  Added value exact s done =
      let (answer, w) = api.commit s.world in
      let p : Pattern = record { value = value; exact = exact } in
      (done.cfg ≡ (add_pattern codec s.cfg s.bot.convo_chat p answer).0)
      × (done.bot ≡ clear_pending s.bot)
      × (done.cl ≡ s.cl)
      × (done.world ≡ w)

  pattern_added-after :
      (kind value : Text) (r : Option Error × System W)
      → (pattern_added codec api kind value r).0 ≡ r.1
  pattern_added-after kind value (none, s) = refl
  pattern_added-after kind value (some e, s) = refl

  finish_pattern-Added :
      (exact : Bool) (s : System W)
      → s.bot.convo_chat ≢ pos 0
      → is_empty s.bot.stage_text ≡ false
      → Added s.bot.stage_text exact s (finish_pattern codec api (kind_text exact) s).0
  unfolding finish_pattern list_beq
  finish_pattern-Added true s n e =
      rw (finish_pattern, nonzero s.bot.convo_chat n, e, pattern_added-after)
        (refl, refl, refl, refl)
  finish_pattern-Added false s n e =
      rw (finish_pattern, nonzero s.bot.convo_chat n, e, pattern_added-after)
        (refl, refl, refl, refl)

  -- The owner adds a pattern to a chat: presses the button of the chat, sends a text that is not
  -- blank, and presses the button of a match. Then AddPattern has been called once, for that chat
  -- with the trimmed text and that match, and nothing is awaited any more.
  pub pattern_talk :
      (ids : Text × Text) (ts : EditTarget × EditTarget) (msg : Message) (marked : ℤ) (exact : Bool)
      (s : System W)
      → InInt64 marked
      → marked ≢ pos 0
      → is_empty (trim_space msg.text) ≡ false
      → let owner = s.bot.owner_id in
        let opened = after (query owner ids.0 ts.0 (payload (for_chat patadd marked))) s in
        let named = after (message owner msg) opened in
        let done = after (query owner ids.1 ts.1 (payload (patkind (kind_text exact)))) named in
        let (answer, w) = api.commit s.world in
        let p : Pattern = record { value = trim_space msg.text; exact = exact } in
        (done.cfg ≡ (add_pattern codec s.cfg marked p answer).0)
        × (done.bot ≡ clear_pending s.bot)
        × (done.cl ≡ s.cl)
        × (done.world ≡ w)
  unfolding on_parsed on_text on_pattern_text clear_pending
  pattern_talk ids ts msg marked exact s h n e =
      let s1 = (on_parsed codec api ts.0 (for_chat patadd marked) s).0 in
      let named : after (message s.bot.owner_id msg) s1
          ≡ on_bot (λ b. record b { stage_text = trim_space msg.text }) s1 =
        sent msg s1 ∙ rw e refl in
      let opened = pressed ids.0 ts.0 (for_chat patadd marked) s h in
      let staged = on_bot (λ b. record b { stage_text = trim_space msg.text }) s1 in
      let total =
        ap (after (query s.bot.owner_id ids.1 ts.1 (payload (patkind (kind_text exact)))))
          (ap (after (message s.bot.owner_id msg)) opened ∙ named)
        ∙ pressed ids.1 ts.1 (patkind (kind_text exact)) staged (kind_text-IsCarried exact) in
      subst (Added (trim_space msg.text) exact staged) (sym total)
        (finish_pattern-Added exact staged n e)
