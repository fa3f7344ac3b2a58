-- ===== src/Chatcfg/Spec.antt =====
-- internal/chatcfg/chatcfg.go: what the Store promises its clients. Abstractly the store is a
-- function from chats to configurations; an operation that reports no error changes it at its chat
-- alone, and an operation that reports an error changes nothing.
use langolier_bot.Base.{
  ℕ, Option, none, some, List, [], ◌∷◌, ◌++◌, ◌≡◌, inl, inr, ◌==◌, refl, arith, if◌then◌else◌,
  Option-cases, Bool-cases, ap, subst, fun_ext, zero, suc, take, drop, length, ◌<◌, ◌≤◌,
}
use langolier_bot.Base.Int.{ℤ, pos, negsuc, int_eq}
use langolier_bot.Base.Maps.{Map, insert, delete, lookup-insert, lookup-delete}
use langolier_bot.Base.Text.{Text, trim_space, is_empty}
use langolier_bot.Chatcfg.Config.{Pattern, Config, zero_config, clone, clone-id}
use langolier_bot.Chatcfg.Store.{
  Codec, Store, Outcome, cached, get, mutate, set_ttl, add_pattern, remove_pattern, disable, write,
  with_ttl, at_least_zero, without_pattern,
}

-- The calls that change a store, each for one chat.
pub data Call : Type 0 where
  sets_ttl : ℤ → Call
  adds : Pattern → Call
  removes : ℤ → Call
  disables : Call

-- The list without its element at an index; unchanged where there is none.
abbrev pub erase_at {ℓ} : {A : Type ℓ} → ℤ → List A → List A
erase_at i [] = []
erase_at (pos zero) (x ∷ xs) = xs
erase_at (pos (suc n)) (x ∷ xs) = x ∷ erase_at (pos n) xs
erase_at (negsuc n) (x ∷ xs) = x ∷ xs

-- What a call makes of the configuration of its chat.
abbrev pub effect : Call → Config → Config
effect (sets_ttl (pos n)) c = record c { ttl_minutes = pos n }
effect (sets_ttl (negsuc n)) c = record c { ttl_minutes = pos 0 }
effect (adds p) c = record c {
  patterns = c.patterns ++ record p { value = trim_space p.value } ∷ [];
}
effect (removes i) c = record c { patterns = erase_at i c.patterns }
effect disables c = zero_config

cut_at-erase_at :
    (n : ℕ) (ps : List Pattern) → n < length ps → take n ps ++ drop (suc n) ps ≡ erase_at (pos n) ps
cut_at-erase_at n [] h = elim h [ ]
cut_at-erase_at zero (p ∷ ps) h = refl
cut_at-erase_at (suc n) (p ∷ ps) h = ap (λ t. p ∷ t) (cut_at-erase_at n ps (omega arith))

erase_at-outside : (n : ℕ) (ps : List Pattern) → length ps ≤ n → erase_at (pos n) ps ≡ ps
erase_at-outside n [] h = refl
erase_at-outside zero (p ∷ ps) h = absurd (omega arith)
erase_at-outside (suc n) (p ∷ ps) h = ap (λ t. p ∷ t) (erase_at-outside n ps (omega arith))

erase_at-negsuc : (n : ℕ) (ps : List Pattern) → erase_at (negsuc n) ps ≡ ps
erase_at-negsuc n [] = refl
erase_at-negsuc n (p ∷ ps) = refl

without_pattern-effect : (i : ℤ) (c : Config) → without_pattern i c ≡ effect (removes i) c
without_pattern-effect (pos n) c =
    ground (arith, cut_at-erase_at n c.patterns, erase_at-outside n c.patterns)
without_pattern-effect (negsuc n) c = ground (arith, erase_at-negsuc n c.patterns)

abbrev pub Agrees : Store → ℤ → (Config → Config) → Outcome → Type 0
Agrees s chat fn (s', some e) = s' ≡ s
Agrees s chat fn (s', none) = (j : ℤ) → get s' j ≡ (if chat == j then fn (get s chat) else get s j)

pub get-cached : (s : Store) (chat : ℤ) → get s chat ≡ cached s.cache chat
unfolding get
get-cached s chat = clone-id _

cached-insert :
    (chat j : ℤ) (c : Config) (m : Map ℤ Config)
    → cached (insert chat c m) j ≡ (if chat == j then c else cached m j)
cached-insert chat j c m = ground (arith, lookup-insert chat j c m)

cached-delete :
    (chat j : ℤ) (m : Map ℤ Config)
    → cached (delete chat m) j ≡ (if chat == j then zero_config else cached m j)
cached-delete chat j m = ground (arith, lookup-delete chat j m)

module _ (codec : Codec) where
  -- Runs one call; `outcome` is what the database answers.
  unfoldable pub call : Store → ℤ → Option Text → Call → Outcome
  call s chat outcome (sets_ttl minutes) = set_ttl codec s chat minutes outcome
  call s chat outcome (adds p) = add_pattern codec s chat p outcome
  call s chat outcome (removes i) = remove_pattern codec s chat i outcome
  call s chat outcome disables = disable s chat outcome

  written :
      (s : Store) (chat : ℤ) (fn : Config → Config) (encoded : Text) (outcome : Option Text)
      → Agrees s chat fn (write s chat (fn (clone (cached s.cache chat))) encoded outcome)
  written s chat fn encoded (some e) = refl
  written s chat fn encoded none = λ j. simp (get-cached, cached-insert, clone-id)

  mutate-Agrees :
      (s : Store) (chat : ℤ) (fn : Config → Config) (outcome : Option Text)
      → Agrees s chat fn (mutate codec s chat fn outcome)
  unfolding mutate
  mutate-Agrees s chat fn outcome =
      elim (Option-cases (codec.marshal (fn (clone (cached s.cache chat))))) [
        | inl e ↦ rw (e, mutate) refl
        | inr (d, e) ↦ rw (e, mutate) (written s chat fn d outcome)
      ]

  mutate-Agrees' :
      (s : Store) (chat : ℤ) (fn gn : Config → Config) (outcome : Option Text)
      → ((c : Config) → fn c ≡ gn c)
      → Agrees s chat gn (mutate codec s chat fn outcome)
  mutate-Agrees' s chat fn gn outcome same =
      subst (λ f. Agrees s chat f (mutate codec s chat fn outcome)) (fun_ext same)
        (mutate-Agrees s chat fn outcome)

  -- Whatever the database answers, every call is its effect on the configuration of its chat, seen
  -- by Get, if it reports no error, and leaves the whole store as it was if it reports one.
  pub call-Agrees :
      (s : Store) (chat : ℤ) (outcome : Option Text) (c : Call)
      → Agrees s chat (effect c) (call s chat outcome c)
  unfolding call set_ttl add_pattern remove_pattern disable
  call-Agrees s chat outcome (sets_ttl (pos n)) =
      mutate-Agrees' s chat (with_ttl (at_least_zero (pos n))) (effect (sets_ttl (pos n))) outcome
        (λ c. ground arith)
  call-Agrees s chat outcome (sets_ttl (negsuc n)) =
      mutate-Agrees' s chat (with_ttl (at_least_zero (negsuc n))) (effect (sets_ttl (negsuc n)))
        outcome (λ c. ground arith)
  call-Agrees s chat outcome (adds p) = elim (Bool-cases (is_empty (trim_space p.value))) [
    | inl e ↦ rw e refl
    | inr e ↦ rw e (mutate-Agrees s chat _ outcome)
  ]
  call-Agrees s chat outcome (removes i) =
      mutate-Agrees' s chat _ _ outcome (without_pattern-effect i)
  call-Agrees s chat none disables = λ j. simp (get-cached, cached-delete)
  call-Agrees s chat (some e) disables = refl
