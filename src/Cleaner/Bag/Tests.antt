-- ===== src/Cleaner/Bag/Tests.antt =====
-- Two orders of one index.
use langolier_bot.Base.{[], ◌∷◌, ◌≡◌}
use langolier_bot.Base.Int.{pos, negsuc}
use langolier_bot.Chatcfg.Store.{Store}
use langolier_bot.Cleaner.State.{Index}
use langolier_bot.Cleaner.Sweep.{collect}
use langolier_bot.Cleaner.Bag.{fate, held, asked, asked-collect}
use mathlib.Core.Quot.{sound}
use mathlib.Core.List.Perm
use mathlib.Mathlib.Data.Multiset.Filter

-- An hour for one chat, and none for the other.
abbrev store : Store
store = record {
  bucket = [];
  cache = (negsuc 41, record { ttl_minutes = pos 60; patterns = [] }) ∷ [];
}

abbrev index : Index
index = (negsuc 41, (12, 1000000000) ∷ (14, 6000000000) ∷ []) ∷ (negsuc 8, (12, 5) ∷ []) ∷ []

abbrev other : Index
other = (negsuc 41, (14, 6000000000) ∷ (12, 1000000000) ∷ []) ∷ (negsuc 8, (12, 5) ∷ []) ∷ []

same_messages : held index ≡ held other
same_messages = sound (Perm.swap _ _ _)

asked-collect_example :
    (asked (collect store 3605000000000 index)
      ≡ Filter.filter_map (fate store 3605000000000) (held index))
    × (asked (collect store 3605000000000 index) ≡ asked (collect store 3605000000000 other))
asked-collect_example = asked-collect store 3605000000000 index other same_messages
