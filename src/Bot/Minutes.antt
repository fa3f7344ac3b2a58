-- ===== src/Bot/Minutes.antt =====
-- internal/bot/bot.go: the conversation in which the owner sets the TTL of a chat, and what it starts.
use langolier_bot.Base.{
  ℕ, zero, suc, Bool, Bool-cases, inl, inr, true, false, ◌&&◌, Option, none, some, List, [], ◌∷◌,
  ◌≡◌, refl, sym, subst, arith, keep, if◌then◌else◌,
}
use langolier_bot.Base.Int.{ℤ, pos, InInt64, leb_ℤ, ltb_ℤ}
use langolier_bot.Base.Text.{Text, trim_space}
use langolier_bot.Base.Decimal.{parse_int}
use langolier_bot.Chatcfg.Store.{Codec, Error, Outcome, get, set_ttl}
use langolier_bot.Cleaner.State.{Cleaner, disable_chat}
use langolier_bot.Bot.Callback.{for_chat, ttl, payload}
use langolier_bot.Bot.State.{
  System, EditTarget, Output, cleans_history, scans, Api, Handled, on_bot, clear_pending,
}
use langolier_bot.Bot.Handlers.{
  Message, query, message, on_update, on_message, on_parsed, on_text, on_minutes, apply_ttl,
  ttl_applied, stored,
}
use langolier_bot.Bot.Talk.{after, pressed, own}

-- The goroutines that go through the history of a chat.
abbrev pub is_job : Output → Bool
is_job (cleans_history marked) = true
is_job (scans marked) = true
is_job other = false

-- What is started, for the error of SetTTL, the new TTL, and the one before.
abbrev pub jobs_of : Option Error → ℕ → ℤ → ℤ → List Output
jobs_of (some e) n before marked = []
jobs_of none zero before marked = []
jobs_of none (suc n) before marked =
    if leb_ℤ before (pos 0) then cleans_history marked ∷ [] else scans marked ∷ []

abbrev pub cleaner_of : Option Error → ℕ → ℤ → Cleaner → Cleaner
cleaner_of (some e) n marked c = c
cleaner_of none zero marked c = disable_chat marked c
cleaner_of none (suc n) marked c = c

module _ {W : Type 0} (codec : Codec) (api : Api W) where
  -- What the end of the conversation leaves, of the system in which it began, and what it starts.
  abbrev pub Applied : ℤ → ℕ → System W → Handled W → Type 0
  Applied marked n s (done, out) =
      let (answer, w) = api.commit s.world in
      let (store, e) = set_ttl codec s.cfg marked (pos n) answer in
      (done.cfg ≡ store)
      × (done.bot ≡ clear_pending s.bot)
      × (done.world ≡ w)
      × (done.cl ≡ cleaner_of e n marked s.cl)
      × (keep is_job out ≡ jobs_of e n (get s.cfg marked).ttl_minutes marked)

  -- After the call of SetTTL, whatever it has returned.
  ttl_applied-jobs :
      (marked before : ℤ) (n : ℕ) (o : Outcome) (w : W) (s : System W)
      → let (done, out) =
          ttl_applied codec api marked
            (pos n)
            (ltb_ℤ (pos 0) (pos n) && leb_ℤ before (pos 0))
            (stored codec api s o w) in
        (done.cfg ≡ o.0)
        × (done.bot ≡ s.bot)
        × (done.world ≡ w)
        × (done.cl ≡ cleaner_of o.1 n marked s.cl)
        × (keep is_job out ≡ jobs_of o.1 n before marked)
  ttl_applied-jobs marked before n (store, some e) w s = (refl, refl, refl, refl, refl)
  ttl_applied-jobs marked before zero (store, none) w s = (refl, refl, refl, refl, refl)
  ttl_applied-jobs marked before (suc n) (store, none) w s =
      let positive : (ltb_ℤ (pos 0) (pos (suc n)) ≡ true) = ground arith in
      elim (Bool-cases (leb_ℤ before (pos 0))) [
        | inl e ↦ rw (positive, e) (refl, refl, refl, refl, refl)
        | inr e ↦ rw (positive, e) (refl, refl, refl, refl, refl)
      ]

  apply_ttl-Applied :
      (marked : ℤ) (n : ℕ) (s : System W)
      → Applied marked n s (apply_ttl codec api marked (pos n) (on_bot clear_pending s))
  unfolding apply_ttl
  apply_ttl-Applied marked n s =
      ttl_applied-jobs marked (get s.cfg marked).ttl_minutes n
        (set_ttl codec s.cfg marked (pos n) (api.commit s.world).0) (api.commit s.world).1
        (on_bot clear_pending s)

  on_minutes-apply_ttl :
      (text : Text) (n : ℕ) (s : System W)
      → parse_int text ≡ some (pos n)
      → on_minutes codec api text s
        ≡ apply_ttl codec api s.bot.convo_chat (pos n) (on_bot clear_pending s)
  unfolding on_minutes
  on_minutes-apply_ttl text n s e =
      let natural : (ltb_ℤ (pos n) (pos 0) ≡ false) = ground arith in
      rw (e, on_minutes, natural) refl

  -- The owner sets the TTL of a chat: presses the button of the chat, and sends a text that reads as
  -- `n`. Then SetTTL has been called once, for that chat with `n`, and nothing is awaited any more. If
  -- it has returned no error, then for a positive `n` one pass through the history is started: a
  -- cleaning if the TTL was not positive before, and a scan if it was; and for zero the chat is no
  -- longer maintained. If it has returned an error, nothing is started, and the cleaner is as it was.
  pub ttl_talk :
      (id : Text) (t : EditTarget) (msg : Message) (marked : ℤ) (n : ℕ) (s : System W)
      → InInt64 marked
      → parse_int (trim_space msg.text) ≡ some (pos n)
      → let owner = s.bot.owner_id in
        let opened = after codec api (query owner id t (payload (for_chat ttl marked))) s in
        Applied marked n s (on_update codec api (message owner msg) opened)
  unfolding on_update on_message on_text on_minutes on_parsed clear_pending
  ttl_talk id t msg marked n s h e =
      let s1 = (on_parsed codec api t (for_chat ttl marked) s).0 in
      subst (λ opened. Applied marked n s (on_update codec api (message s.bot.owner_id msg) opened))
        (sym (pressed codec api id t (for_chat ttl marked) s h))
        (rw (own s.bot.owner_id) (
          subst (Applied marked n s) (sym (on_minutes-apply_ttl (trim_space msg.text) n s1 e))
            (apply_ttl-Applied marked n s1)))
