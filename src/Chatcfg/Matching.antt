-- ===== src/Chatcfg/Matching.antt =====
-- internal/chatcfg/chatcfg.go: which messages `Config.Matches` selects for instant deletion.
use langolier_bot.Base.{
  Bool, true, false, List, [], ◌∷◌, ◌++◌, ◌≡◌, ◌≢◌, ◌⊎◌, ◌↔◌, inl, inr, arith, list_beq_iff,
  Bool-cases, nat_eq, ◌||◌, if◌then◌else◌,
}
use langolier_bot.Base.Text.{
  Text, trim_space, is_empty, is_empty_iff, text_beq, has_prefix, has_prefix_iff,
}
use langolier_bot.Chatcfg.Config.{Pattern, Config, matches, matches_any}

-- What a pattern asks of a trimmed text.
abbrev pub Hits : Text → Pattern → Type 0
Hits t p =
    (p.value ≢ [])
    × (((p.exact ≡ true) × (t ≡ p.value)) ⊎ ((p.exact ≡ false) × ((r : Text) × (t ≡ p.value ++ r))))

abbrev pub Any : (Pattern → Type 0) → List Pattern → Type 0
Any P [] = ⊥
Any P (p ∷ ps) = P p ⊎ Any P ps

-- The verdict of one pattern.
hit_by : Text → Pattern → Bool
hit_by t p =
    if is_empty p.value then false else if p.exact then text_beq t p.value else has_prefix t p.value

matches_any-cons :
    (t : Text) (p : Pattern) (ps : List Pattern)
    → matches_any t (p ∷ ps) ≡ (hit_by t p || matches_any t ps)
unfolding matches_any hit_by
matches_any-cons t p ps = ground arith

hit_by_sound : (t : Text) (p : Pattern) → hit_by t p ≡ true → Hits t p
unfolding hit_by
hit_by_sound t p h = (
  λ e. ground (arith, is_empty_iff p.value),
  elim (Bool-cases p.exact) [
    | inl e ↦ inl (e, (list_beq_iff t p.value).0 (ground arith))
    | inr e ↦ inr (e, (has_prefix_iff t p.value).0 (ground arith))
  ],
)

hit_by_complete : (t : Text) (p : Pattern) → Hits t p → hit_by t p ≡ true
unfolding hit_by
hit_by_complete t p (filled, inl (e, q)) =
    ground (arith, is_empty_iff p.value, list_beq_iff t p.value)
hit_by_complete t p (filled, inr (e, q)) =
    ground (arith, is_empty_iff p.value, (has_prefix_iff t p.value).1 q)

Any-sound : (t : Text) (ps : List Pattern) → matches_any t ps ≡ true → Any (Hits t) ps
unfolding matches_any
Any-sound t [] h = cc
Any-sound t (p ∷ ps) h = elim (Bool-cases (hit_by t p)) [
  | inl e ↦ inl (hit_by_sound t p e)
  | inr e ↦ inr (Any-sound t ps (ground (arith, matches_any-cons t p ps)))
]

Any-complete : (t : Text) (ps : List Pattern) → Any (Hits t) ps → matches_any t ps ≡ true
Any-complete t [] h = absurd h
Any-complete t (p ∷ ps) (inl h) = ground (arith, hit_by_complete t p h, matches_any-cons t p ps)
Any-complete t (p ∷ ps) (inr h) = ground (arith, Any-complete t ps h, matches_any-cons t p ps)

-- A message is matched exactly if its trimmed text is not empty and some pattern with a text of its
-- own hits it: an exact pattern by equality, any other one as a prefix.
pub matches_iff :
    (c : Config) (text : Text)
    → (matches c text ≡ true) ↔ ((trim_space text ≢ []) × Any (Hits (trim_space text)) c.patterns)
unfolding matches
matches_iff c text = (
  λ h. (
    λ e. ground (arith, is_empty_iff (trim_space text)),
    Any-sound (trim_space text) c.patterns (ground arith),
  ),
  λ (filled, hit).
      ground (arith, is_empty_iff (trim_space text), Any-complete (trim_space text) c.patterns hit),
)
