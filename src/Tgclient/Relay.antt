-- ===== src/Tgclient/Relay.antt =====
-- internal/tgclient/auth.go: relayAuth, which gives gotd's flow what the operator enters.
use langolier_bot.Base.{
  ℕ, zero, suc, Bool, true, false, Option, none, some, List, [], ◌∷◌, ◌≡◌, refl, All, ap, subst,
  ◌∙◌, if◌then◌else◌,
}
use langolier_bot.Base.Text.{Text, codes, is_empty}
use langolier_bot.Base.Calls.{Answer, got, failed}

-- The operator, and gotd's AccountGetPassword with GetHint, which yields no hint or one.
pub record Relay (W : Type 0) : Type 0 where
  pub ask_phone : W → Answer Text × W
  pub ask_code : W → Answer Text × W
  pub ask_password : Text → W → Answer Text × W
  pub get_hint : W → Answer (Option Text) × W

abbrev pub sign_up_unsupported : Text
sign_up_unsupported = codes "tgclient: account sign-up is not supported"

-- `phone` is the cached phone number, and empty before one is known; `connected` is whether there is an
-- API client to ask for the hint.
pub record RelayAuth : Type 0 where
  pub connected : Bool
  pub phone : Text

module _ {W : Type 0} (relay : Relay W) where
  abbrev pub entered : RelayAuth → Answer Text × W → Answer Text × RelayAuth × W
  entered a (failed e, w) = (failed e, a, w)
  entered a (got p, w) = (got p, record a { phone = p }, w)

  unfoldable pub phone : RelayAuth → W → Answer Text × RelayAuth × W
  phone a w = if is_empty a.phone then entered a (relay.ask_phone w) else (got a.phone, a, w)

  unfoldable pub code : W → Answer Text × W
  code w = relay.ask_code w

  abbrev pub hint_of : Answer (Option Text) × W → Text × W
  hint_of (failed e, w) = ([], w)
  hint_of (got none, w) = ([], w)
  hint_of (got (some h), w) = (h, w)

  unfoldable pub hint : RelayAuth → W → Text × W
  hint a w = if a.connected then hint_of (relay.get_hint w) else ([], w)

  unfoldable pub password : RelayAuth → W → Answer Text × W
  password a w = let (h, w') = hint a w in relay.ask_password h w'

  unfoldable pub accept_terms_of_service : Option Text
  accept_terms_of_service = some sign_up_unsupported

  unfoldable pub sign_up : Answer (Unit {0})
  sign_up = failed sign_up_unsupported

  -- The flow is started anew some times, and each flow asks for the phone number once.
  abbrev pub phones : ℕ → RelayAuth → W → List (Answer Text) × RelayAuth × W
  phones zero a w = ([], a, w)
  phones (suc n) a w =
      let (p, a', w') = phone a w in let (ps, a'', w'') = phones n a' w' in (p ∷ ps, a'', w'')

  phone-known :
      (n : ℕ) (a : RelayAuth) (w : W)
      → is_empty a.phone ≡ false
      → All (λ (p : Answer Text). p ≡ got a.phone) (phones n a w).0
        × ((phones n a w).1 ≡ a)
        × ((phones n a w).2 ≡ w)
  unfolding phone
  phone-known zero a w h = (tt, refl, refl)
  phone-known (suc n) a w h =
      let (same, auth, world) = phone-known n a w h in rw (phone, h) ((refl, same), auth, world)

  entered-phone :
      (a : RelayAuth) (r : Answer Text × W) (p : Text)
      → (entered a r).0 ≡ got p
      → (entered a r).1.phone ≡ p
  entered-phone a (failed e, w) p h = cc
  entered-phone a (got q, w) p h = cc

  phone-cached :
      (a : RelayAuth) (w : W) (p : Text) → (phone a w).0 ≡ got p → (phone a w).1.phone ≡ p
  unfolding phone
  phone-cached a w p h = from (is_empty a.phone) (entered-phone a (relay.ask_phone w) p) h
    where
      from :
          (b : Bool)
          → ((entered a (relay.ask_phone w)).0 ≡ got p
              → (entered a (relay.ask_phone w)).1.phone ≡ p)
          → (if b then entered a (relay.ask_phone w) else (got a.phone, a, w)).0 ≡ got p
          → (if b then entered a (relay.ask_phone w) else (got a.phone, a, w)).1.phone ≡ p
      from true asked h = asked h
      from false asked h = cc

  -- Once Phone has returned a number that is not empty, however often the flow is started anew, each
  -- flow is given that number, the operator is not asked for it again, and nothing else changes.
  pub phone-again :
      (a : RelayAuth) (w later : W) (p : Text) (n : ℕ)
      → (phone a w).0 ≡ got p
      → is_empty p ≡ false
      → let known = (phone a w).1 in
        All (λ (q : Answer Text). q ≡ got p) (phones n known later).0
        × ((phones n known later).1 ≡ known)
        × ((phones n known later).2 ≡ later)
  phone-again a w later p n h e =
      let cached = phone-cached a w p h in
      let (same, auth, world) = phone-known n (phone a w).1 later (ap is_empty cached ∙ e) in
      (
        subst (λ q. All (λ (r : Answer Text). r ≡ got q) (phones n (phone a w).1 later).0) cached
            same,
        auth,
        world,
      )
