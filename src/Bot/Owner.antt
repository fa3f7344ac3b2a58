-- ===== src/Bot/Owner.antt =====
-- internal/bot/bot.go: the bot listens to its owner alone.
use langolier_bot.Base.{
  Bool, false, List, [], ◌∷◌, ◌++◌, ◌≡◌, refl, ◌∙◌, ap, Bool-cases, inl, inr, keep, nat_eq, list_eq,
}
use langolier_bot.Base.Int.{ℤ, int_beq}
use langolier_bot.Chatcfg.Store.{Codec}
use langolier_bot.Bot.State.{System, Api, Handled, and_then}
use langolier_bot.Bot.Keeps.{IsClosed}
use langolier_bot.Bot.Keeps.Updates.{on_update-Kept}
use langolier_bot.Bot.Handlers.{Update, query, message, other, on_update}

-- Whether an update comes from the owner.
abbrev pub is_from : ℤ → Update → Bool
is_from owner (query sender id t text) = int_beq sender owner
is_from owner (message sender msg) = int_beq sender owner
is_from owner other = false

module _ {W : Type 0} (codec : Codec) (api : Api W) where
  abbrev IsOwned : ℤ → System W → Type 0
  IsOwned o s = s.bot.owner_id ≡ o

  IsOwned-IsClosed : (o : ℤ) → IsClosed codec api (IsOwned o)
  IsOwned-IsClosed o = record {
    moves = λ s m h. h;
    talks = λ s b same chat h. same ∙ h;
    stores = λ s marked c answer m h. h;
  }

  on_update-owner :
      (u : Update) (s : System W) → (on_update codec api u s).0.bot.owner_id ≡ s.bot.owner_id
  on_update-owner u s =
      (on_update-Kept codec api (IsOwned s.bot.owner_id) (IsOwned-IsClosed s.bot.owner_id) u s
        refl).0

  -- The updates of a list, one after another.
  abbrev pub run_all : List Update → System W → Handled W
  run_all [] s = (s, [])
  run_all (u ∷ us) s = and_then (on_update codec api u s) (run_all us)

  ignores :
      (u : Update) (s : System W)
      → is_from s.bot.owner_id u ≡ false
      → on_update codec api u s ≡ (s, [])
  unfolding on_update
  ignores (query sender id t text) s e = rw e refl
  ignores (message sender msg) s e = rw e refl
  ignores other s e = refl

  -- Updates that do not come from the owner have no part in what the bot does: any list of updates
  -- leaves and puts out the same as those of the list that come from the owner.
  pub run_all-keep :
      (us : List Update) (s : System W)
      → run_all us s ≡ run_all (keep (is_from s.bot.owner_id) us) s
  run_all-keep [] s = refl
  run_all-keep (u ∷ us) s = elim (Bool-cases (is_from s.bot.owner_id u)) [
    | inl e ↦
        let (t, out) = on_update codec api u s in
        rw e (
          ap (λ (h : Handled W). (h.0, out ++ h.1))
            (run_all-keep us t ∙ ap (λ o. run_all (keep (is_from o) us) t) (on_update-owner u s)))
    | inr e ↦ rw (e, ignores u s e) (run_all-keep us s)
  ]
