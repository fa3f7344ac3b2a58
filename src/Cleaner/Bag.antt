-- ===== src/Cleaner/Bag.antt =====
-- internal/cleaner/cleaner.go: the sweep over the index as a bag of messages, since the order in which
-- Go goes through its maps is not fixed.
pub mod Tests
use langolier_bot.Base.{
  ℕ, Option, none, some, List, [], ◌∷◌, ◌++◌, ◌≡◌, refl, ap, sym, ◌∙◌, Bool-cases, inl, inr,
  if◌then◌else◌,
}
use langolier_bot.Base.Int.{ℤ, pos, leb_ℤ}
use langolier_bot.Chatcfg.Config.{ttl}
use langolier_bot.Chatcfg.Store.{Store, get}
use langolier_bot.Cleaner.State.{Index, Messages}
use langolier_bot.Cleaner.Sweep.{is_due, due_ids, add_job, collect}
use mathlib.Core.List.{filter_map}
use mathlib.Mathlib.Data.Multiset.Defs.{Multiset, of_list}
use mathlib.Core.Option.{Option-elim}
use mathlib.Mathlib.Data.Multiset.Filter

-- A message of the index: its chat, its id and its date.
abbrev pub Entry : Type 0
Entry = ℤ × ℕ × ℕ

abbrev entries_of : ℤ → Messages → List Entry
entries_of marked [] = []
entries_of marked ((id, sent) ∷ m) = (marked, id, sent) ∷ entries_of marked m

abbrev entries : Index → List Entry
entries [] = []
entries ((marked, m) ∷ index) = entries_of marked m ++ entries index

abbrev requests_of : ℤ → List ℕ → List (ℤ × ℕ)
requests_of marked [] = []
requests_of marked (id ∷ ids) = (marked, id) ∷ requests_of marked ids

abbrev requests : List (ℤ × List ℕ) → List (ℤ × ℕ)
requests [] = []
requests ((marked, ids) ∷ jobs) = requests_of marked ids ++ requests jobs

-- The messages of an index, and those whose deletion a list of jobs asks for, in no order.
abbrev pub held : Index → Multiset Entry
held index = of_list (entries index)

abbrev pub asked : List (ℤ × List ℕ) → Multiset (ℤ × ℕ)
asked jobs = of_list (requests jobs)

module _ (cfg : Store) (now : ℕ) where
  -- What becomes of a message: it is deleted if its chat has a TTL, which it has reached.
  abbrev pub fate : Entry → Option (ℤ × ℕ)
  fate (marked, id, sent) =
      let t = ttl (get cfg marked) in
      if leb_ℤ t (pos 0) then none else if is_due t now sent then some (marked, id) else none

  abbrev due_requests : ℤ → Messages → List (ℤ × ℕ)
  due_requests marked m =
      let t = ttl (get cfg marked) in
      if leb_ℤ t (pos 0) then [] else requests_of marked (due_ids t now m)

  filter_map-entries_of :
      (marked : ℤ) (m : Messages) (rest : List Entry)
      → filter_map fate (entries_of marked m ++ rest)
        ≡ due_requests marked m ++ filter_map fate rest
  unfolding filter_map due_ids Option-elim
  filter_map-entries_of marked [] rest = elim (Bool-cases (leb_ℤ (ttl (get cfg marked)) (pos 0))) [
    | inl e ↦ rw e refl
    | inr e ↦ rw e refl
  ]
  filter_map-entries_of marked ((id, sent) ∷ m) rest =
      let more = filter_map-entries_of marked m rest in
      let t = ttl (get cfg marked) in
      elim (Bool-cases (leb_ℤ t (pos 0))) [
        | inl e ↦ rw e (rw e at more)
        | inr e ↦ elim (Bool-cases (is_due t now sent)) [
          | inl d ↦ rw (e, d) (ap (λ (xs : List (ℤ × ℕ)). (marked, id) ∷ xs) (rw e at more))
          | inr d ↦ rw (e, d) (rw e at more)
        ]
      ]

  requests-add_job :
      (marked : ℤ) (ids : List ℕ) (jobs : List (ℤ × List ℕ))
      → requests (add_job marked ids jobs) ≡ requests_of marked ids ++ requests jobs
  requests-add_job marked [] jobs = refl
  requests-add_job marked (id ∷ ids) jobs = refl

  requests-collect :
      (index : Index) → requests (collect cfg now index) ≡ filter_map fate (entries index)
  unfolding collect filter_map
  requests-collect [] = refl
  requests-collect ((marked, m) ∷ index) =
      let t = ttl (get cfg marked) in
      let all = filter_map-entries_of marked m (entries index) in
      let rest = requests-collect index in
      elim (Bool-cases (leb_ℤ t (pos 0))) [
        | inl e ↦ rw e (rest ∙ sym (rw e at all))
        | inr e ↦ rw e (
            requests-add_job marked (due_ids t now m) (collect cfg now index)
            ∙ (ap (λ (xs : List (ℤ × ℕ)). requests_of marked (due_ids t now m) ++ xs) rest
                ∙ sym (rw e at all)))
      ]

  collect-Bag :
      (index : Index) → asked (collect cfg now index) ≡ Filter.filter_map fate (held index)
  collect-Bag index =
      ap of_list (requests-collect index) ∙ sym (Filter.filter_map-coe fate (entries index))

  -- The sweep goes by the bag of the messages that the index holds. What it asks for is the bag of those
  -- messages whose chat has a positive TTL that they have reached, each as often as the index holds it;
  -- and two indexes that hold the same messages, whatever the order of the chats and of the messages of
  -- a chat, are swept alike.
  pub asked-collect :
      (index other : Index)
      → held index ≡ held other
      → (asked (collect cfg now index) ≡ Filter.filter_map fate (held index))
        × (asked (collect cfg now index) ≡ asked (collect cfg now other))
  asked-collect index other h = (
    collect-Bag index,
    collect-Bag index ∙ (ap (Filter.filter_map fate) h ∙ sym (collect-Bag other)),
  )
