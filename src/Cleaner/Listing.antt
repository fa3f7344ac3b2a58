-- ===== src/Cleaner/Listing.antt =====
-- internal/cleaner/cleaner.go: what Stats lists.
use langolier_bot.Base.{
  Bool, true, false, ◌||◌, ◌&&◌, not, same_refl, subst, List, [], ◌∷◌, ◌++◌, ◌≡◌, refl, sym, ap,
  ◌∙◌, arith, contains, contains-append, Bool-cases, inl, inr, if◌then◌else◌, ◌==◌, map,
}
use mathlib.Core.List.{Perm, append-nil, append_assoc}
use mathlib.Core.List.Perm
use langolier_bot.Base.{ℕ, Option, none, some, length, All, nat_eq}
use langolier_bot.Base.Int.{pos}
use langolier_bot.Base.Text.{Text}
use langolier_bot.Base.Sort.{All-sort_by}
use langolier_bot.Tgclient.Group.{Group}
use langolier_bot.Chatcfg.Config.{zero_config}
use langolier_bot.Cleaner.State.{Messages}
use langolier_bot.Cleaner.Sweep.{title_of, count_of}
use langolier_bot.Base.Int.{ℤ, int_eq, int_beq_iff}
use langolier_bot.Base.Maps.{Map, lookup, insert, keys, lookup-insert}
use langolier_bot.Base.Sort.{IsSorted, sort_by-IsSorted, sort_by-perm}
use langolier_bot.Chatcfg.Config.{Config}
use langolier_bot.Chatcfg.Store.{Store, list}
use langolier_bot.Cleaner.Env.{Tg}
use langolier_bot.Cleaner.State.{Cleaner, Chats}
use langolier_bot.Cleaner.Reconcile.{mem}
use langolier_bot.Cleaner.Stats.{ChatStat, sort_stats, stat_of, add, add_chats, stats}

-- A list without its repetitions, in the order of the first occurrences; `seen` has come before.
abbrev pub fresh : Chats → List ℤ → List ℤ
fresh seen [] = []
fresh seen (j ∷ js) =
    let old = fresh seen js in
    let new = j ∷ fresh (insert j tt seen) js in if mem seen j then old else new

abbrev pub NoRepeats : List ℤ → Type 0
NoRepeats [] = Unit
NoRepeats (j ∷ js) = (contains js j ≡ false) × NoRepeats js

and-false : (b : Bool) → (b && false) ≡ false
and-false true = refl
and-false false = refl

mem-insert : (seen : Chats) (i j : ℤ) → mem (insert j tt seen) i ≡ ((j == i) || mem seen i)
mem-insert seen i j = ground (arith, lookup-insert j i tt seen)

contains-fresh :
    (seen : Chats) (js : List ℤ) (i : ℤ)
    → contains (fresh seen js) i ≡ (contains js i && not (mem seen i))
contains-fresh seen [] i = refl
contains-fresh seen (j ∷ js) i = ground (
  arith,
  contains-fresh seen js i,
  contains-fresh (insert j tt seen) js i,
  mem-insert seen i j,
  int_beq_iff j i,
)

fresh-NoRepeats : (seen : Chats) (js : List ℤ) → NoRepeats (fresh seen js)
fresh-NoRepeats seen [] = tt
fresh-NoRepeats seen (j ∷ js) = elim (Bool-cases (mem seen j)) [
  | inl e ↦ rw e (fresh-NoRepeats seen js)
  | inr e ↦ rw e (
    contains-fresh (insert j tt seen) js j
        ∙ rw (mem-insert seen j j, same_refl j) (and-false (contains js j)),
    fresh-NoRepeats (insert j tt seen) js,
  )
]

by_cases :
    {A B : Type 0} (Q : A → B → Type 0) (b : Bool) (x x' : A) (y y' : B)
    → Q x y
    → Q x' y'
    → Q (if b then x else x') (if b then y else y')
by_cases Q true x x' y y' h h' = h
by_cases Q false x x' y y' h h' = h'

module _ {W : Type 0} (tg : Tg W) (cfgs : Map ℤ Config) (c : Cleaner) (w : W) where
  abbrev pub stats_of : List ℤ → List ChatStat
  stats_of js = map (stat_of tg cfgs c w) js

  add-cases :
      (Q : Chats × List ChatStat → List ℤ → Type 0) (j : ℤ) (js : List ℤ) (seen : Chats)
      (out : List ChatStat)
      → Q (seen, out) (fresh seen js)
      → Q (insert j tt seen, out ++ stat_of tg cfgs c w j ∷ []) (j ∷ fresh (insert j tt seen) js)
      → Q (add tg cfgs c w j (seen, out)) (fresh seen (j ∷ js))
  add-cases Q j js seen out old new = by_cases Q (mem seen j) _ _ _ _ old new

  add_chats-fresh :
      (js : List ℤ) (seen : Chats) (out : List ChatStat)
      → (add_chats tg cfgs c w js (seen, out)).1 ≡ out ++ stats_of (fresh seen js)
  unfolding add_chats
  add_chats-fresh [] seen out = sym (append-nil out)
  add_chats-fresh (j ∷ js) seen out =
      let one = stat_of tg cfgs c w j ∷ [] in
      add-cases (λ acc ks. (add_chats tg cfgs c w js acc).1 ≡ out ++ stats_of ks) j js seen out
        (add_chats-fresh js seen out)
        (add_chats-fresh js (insert j tt seen) (out ++ one)
          ∙ append_assoc out one (stats_of (fresh (insert j tt seen) js)))

  add_chats-append :
      (xs ys : List ℤ) (acc : Chats × List ChatStat)
      → add_chats tg cfgs c w ys (add_chats tg cfgs c w xs acc)
        ≡ add_chats tg cfgs c w (xs ++ ys) acc
  unfolding add_chats
  add_chats-append [] ys acc = refl
  add_chats-append (x ∷ xs) ys acc = add_chats-append xs ys (add tg cfgs c w x acc)

abbrev pub text_of : Option Group → Text
text_of none = []
text_of (some g) = g.title

abbrev pub minutes_of : Option Config → ℤ
minutes_of none = pos 0
minutes_of (some cfg) = cfg.ttl_minutes

abbrev pub size_of {ℓ κ} : {A : Type ℓ} {B : Type κ} → (A → List B) → Option A → ℕ
size_of f none = 0
size_of f (some a) = length (f a)

abbrev pub number_of : Option ℕ → ℕ
number_of none = 0
number_of (some n) = n

-- What a line of the statistics says of its chat.
abbrev pub IsRight : {W : Type 0} → Tg W → Map ℤ Config → Cleaner → W → ChatStat → Type 0
IsRight tg cfgs c w s =
    (s.title ≡ text_of (tg.group w s.marked_id))
    × (s.ttl_minutes ≡ minutes_of (lookup s.marked_id cfgs))
    × (s.patterns ≡ size_of (λ (cfg : Config). cfg.patterns) (lookup s.marked_id cfgs))
    × (s.indexed ≡ size_of (λ (m : Messages). m) (lookup s.marked_id c.index))
    × (s.deleted ≡ number_of (lookup s.marked_id c.deleted))

title-text : (g : Option Group) → title_of g ≡ text_of g
title-text none = refl
title-text (some g) = refl

messages-size :
    (m : Option Messages)
    → length (elim m [ none ↦ [] | some x ↦ x ]) ≡ size_of (λ (x : Messages). x) m
messages-size none = refl
messages-size (some m) = refl

count-number : (n : Option ℕ) → (elim n [ none ↦ 0 | some x ↦ x ]) ≡ number_of n
count-number none = refl
count-number (some n) = refl

config-numbers :
    (c : Option Config)
    → let cfg : Config = elim c [ none ↦ zero_config | some x ↦ x ] in
      (cfg.ttl_minutes ≡ minutes_of c)
      × (length cfg.patterns ≡ size_of (λ (x : Config). x.patterns) c)
config-numbers none = (refl, refl)
config-numbers (some c) = (refl, refl)

stat_of-IsRight :
    {W : Type 0} (tg : Tg W) (cfgs : Map ℤ Config) (c : Cleaner) (w : W) (j : ℤ)
    → IsRight tg cfgs c w (stat_of tg cfgs c w j)
unfolding stat_of count_of
stat_of-IsRight tg cfgs c w j =
    let (minutes, patterns) = config-numbers (lookup j cfgs) in
    (
      title-text (tg.group w j),
      minutes,
      patterns,
      messages-size (lookup j c.index),
      count-number (lookup j c.deleted),
    )

stats_of-IsRight :
    {W : Type 0} (tg : Tg W) (cfgs : Map ℤ Config) (c : Cleaner) (w : W) (js : List ℤ)
    → All (IsRight tg cfgs c w) (stats_of tg cfgs c w js)
stats_of-IsRight tg cfgs c w [] = tt
stats_of-IsRight tg cfgs c w (j ∷ js) =
    (stat_of-IsRight tg cfgs c w j, stats_of-IsRight tg cfgs c w js)

ids-stats_of :
    {W : Type 0} (tg : Tg W) (cfgs : Map ℤ Config) (c : Cleaner) (w : W) (js : List ℤ)
    → map (λ (s : ChatStat). s.marked_id) (stats_of tg cfgs c w js) ≡ js
unfolding stat_of
ids-stats_of tg cfgs c w [] = refl
ids-stats_of tg cfgs c w (j ∷ js) = ap (λ (ks : List ℤ). j ∷ ks) (ids-stats_of tg cfgs c w js)

-- Stats has one entry for each chat that has an entry in the configuration or in the index, and no
-- other, and they are sorted by title. Each has the title of its chat, if the client knows it, the TTL
-- and the number of the patterns that it is configured with, how many of its messages are in the index,
-- and how many have been deleted; zero stands for what there is none of.
pub stats_lem :
    {W : Type 0} (tg : Tg W) (store : Store) (c : Cleaner) (w : W)
    → let cfgs = list store in
      let chats = fresh [] (keys cfgs ++ keys c.index) in
      Perm (map (λ (s : ChatStat). s.marked_id) (stats tg store c w)) chats
      × All (IsRight tg cfgs c w) (stats tg store c w)
      × NoRepeats chats
      × ((j : ℤ) → contains chats j ≡ (contains (keys cfgs) j || contains (keys c.index) j))
      × IsSorted (λ (s : ChatStat). s.title) (stats tg store c w)
unfolding stats sort_stats lookup
stats_lem tg store c w =
    let cfgs = list store in
    let both = keys cfgs ++ keys c.index in
    let listed =
      ap (λ (acc : Chats × List ChatStat). acc.1)
        (add_chats-append tg cfgs c w (keys cfgs) (keys c.index) ([], []))
      ∙ add_chats-fresh tg cfgs c w both [] [] in
    (
      subst (Perm _) (ids-stats_of tg cfgs c w (fresh [] both)) (
          Perm.map (λ (s : ChatStat). s.marked_id)
            (subst (Perm _) listed (sort_by-perm (λ (s : ChatStat). s.title) _))),
      All-sort_by (λ (s : ChatStat). s.title) (IsRight tg cfgs c w) _
          (subst (All (IsRight tg cfgs c w)) (sym listed)
            (stats_of-IsRight tg cfgs c w (fresh [] both))),
      fresh-NoRepeats [] both,
      λ j. ground (arith, contains-fresh [] both j, contains-append j (keys cfgs) (keys c.index)),
      sort_by-IsSorted _ _,
    )
