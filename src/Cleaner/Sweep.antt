-- ===== src/Cleaner/Sweep.antt =====
-- internal/cleaner/cleaner.go: deleteIDs and the sweep.
use langolier_bot.Base.{
  ℕ, ◌+◌, ◌^◌, ◌-◌, Bool, not, Option, none, some, List, [], ◌∷◌, ◌++◌, leb, nat_eq, if◌then◌else◌,
  length, keep, contains,
}
use langolier_bot.Base.Int.{ℤ, pos, negsuc, int_eq, leb_ℤ, ltb_ℤ, sub_ℕ}
use langolier_bot.Base.Maps.{Map, lookup, insert}
use langolier_bot.Base.Text.{Text, is_empty}
use langolier_bot.Chatcfg.Config.{ttl}
use langolier_bot.Chatcfg.Store.{Store, get}
use langolier_bot.Tgclient.Group.{Group}
use langolier_bot.Base.Calls.{Visit}
use langolier_bot.Cleaner.Env.{Tg, Host}
use langolier_bot.Cleaner.State.{Cleaner, Index, remove_locked, loop_ended}

-- now.Sub(sent): the difference as a Duration, cut off at the ends of int64.
unfoldable pub since : ℕ → ℕ → ℤ
since now sent =
    let d = sub_ℕ now sent in
    if ltb_ℤ (pos (2 ^ 63 - 1)) d
    then pos (2 ^ 63 - 1)
    else if ltb_ℤ d (negsuc (2 ^ 63 - 1))
    then negsuc (2 ^ 63 - 1)
    else d

abbrev pub is_due : ℤ → ℕ → ℕ → Bool
is_due ttl now sent = leb_ℤ ttl (since now sent)

-- The ids of the messages that are due, in the order of the list.
unfoldable pub due_ids : ℤ → ℕ → List Visit → List ℕ
due_ids ttl now [] = []
due_ids ttl now ((id, sent) ∷ msgs) =
    let rest = due_ids ttl now msgs in if is_due ttl now sent then id ∷ rest else rest

abbrev pub add_job : ℤ → List ℕ → List (ℤ × List ℕ) → List (ℤ × List ℕ)
add_job marked [] rest = rest
add_job marked (id ∷ ids) rest = (marked, id ∷ ids) ∷ rest

-- The first half of `sweep`, under the mutex.
unfoldable pub collect : Store → ℕ → Index → List (ℤ × List ℕ)
unfolding due_ids
collect cfg now [] = []
collect cfg now ((marked, msgs) ∷ index) =
    let t = ttl (get cfg marked) in
    let rest = collect cfg now index in
    if leb_ℤ t (pos 0) then rest else add_job marked (due_ids t now msgs) rest

pub record Report : Type 0 where
  pub title : Text
  pub deleted : ℕ
  pub failed : ℕ
  pub links : List Text

abbrev pub purge_link_limit : ℕ
purge_link_limit = 10

-- sort.Ints
insert_sorted : ℕ → List ℕ → List ℕ
insert_sorted x [] = x ∷ []
insert_sorted x (y ∷ ys) = if leb x y then x ∷ y ∷ ys else y ∷ insert_sorted x ys

unfoldable pub sort_ints : List ℕ → List ℕ
unfolding insert_sorted
sort_ints [] = []
sort_ints (x ∷ xs) = insert_sorted x (sort_ints xs)

unfoldable pub count_of : Map ℤ ℕ → ℤ → ℕ
unfolding lookup
count_of m marked = elim (lookup marked m) [ none ↦ 0 | some n ↦ n ]

abbrev pub title_of : Option Group → Text
title_of none = []
title_of (some g) = g.title

module _ {W : Type 0} (tg : Tg W) where
  -- The loop over the sorted failed ids.
  unfoldable pub add_links : Group → List ℕ → List Text → List Text
  add_links g [] links = links
  add_links g (id ∷ ids) links =
      let link = tg.message_link g id in
      let rest = add_links g ids (if is_empty link then links else links ++ link ∷ []) in
      if leb purge_link_limit (length links) then links else rest

  -- What follows the RPC: the ids that did not fail leave the index, and are counted.
  unfoldable pub settle : Group → ℤ → List ℕ → List ℕ → Cleaner → Report × Cleaner
  unfolding sort_ints add_links
  settle g marked ids failed c =
      let ok_ids = keep (λ id. not (contains failed id)) ids in
      (
        record {
          title = g.title;
          deleted = length ok_ids;
          failed = length failed;
          links = add_links g (sort_ints failed) [];
        },
        record c {
          index = remove_locked marked ok_ids c.index;
          deleted = insert marked (count_of c.deleted marked + length ok_ids) c.deleted;
        },
      )

  abbrev pub empty_report : Option Group → Report
  empty_report g = record { title = title_of g; deleted = 0; failed = 0; links = [] }

  abbrev pub delete_found : Option Group → ℤ → List ℕ → Cleaner → W → Report × Cleaner × W
  delete_found none marked ids c w = (empty_report none, c, w)
  delete_found (some g) marked [] c w = (empty_report (some g), c, w)
  delete_found (some g) marked (id ∷ ids) c w =
      let ((failed, err), w') = tg.delete g (id ∷ ids) w in
      let (rep, c') = settle g marked (id ∷ ids) failed c in (rep, c', w')

  unfoldable pub delete_ids : ℤ → List ℕ → Cleaner → W → Report × Cleaner × W
  delete_ids marked ids c w = delete_found (tg.group w marked) marked ids c w

  module _ (host : Host W) where
    -- The second half of `sweep`.
    unfoldable pub run_jobs : List (ℤ × List ℕ) → Cleaner → W → Cleaner × W
    run_jobs [] c w = (c, w)
    run_jobs ((marked, ids) ∷ jobs) c w = elim (host.ctx_err w) [
      | some e ↦ (c, w)
      | none ↦ let (rep, c', w') = delete_ids marked ids c w in run_jobs jobs c' w'
    ]

    unfoldable pub sweep : Store → Cleaner → W → Cleaner × W
    sweep cfg c w = run_jobs (collect cfg (host.now w) c.index) c w

    -- The loop of Run, until its context is done: before each tick of the ticker the other goroutines
    -- and the world go on.
    unfoldable pub loop : Store → List (Cleaner → W → Cleaner × W) → Cleaner → W → Cleaner × W
    unfolding sweep
    loop cfg [] c w = (loop_ended c, w)
    loop cfg (others ∷ ticks) c w =
        let (c', w') = others c w in let (c'', w'') = sweep cfg c' w' in loop cfg ticks c'' w''
