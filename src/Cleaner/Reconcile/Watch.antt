-- ===== src/Cleaner/Reconcile/Watch.antt =====
-- internal/cleaner/cleaner.go: the chats that Reconcile watches, and what is asked of one of them.
use langolier_bot.Base.{
  ℕ, Bool, false, not, ◌&&◌, ◌||◌, none, List, [], ◌∷◌, ◌++◌, ◌≡◌, refl, arith, if◌then◌else◌, ◌==◌,
  contains, nat_eq,
}
use langolier_bot.Base.Int.{ℤ, pos, int_eq, ltb_ℤ}
use langolier_bot.Base.Maps.{Map, lookup, insert, keys, lookup-insert, lookup-delete, contains-keys}
use langolier_bot.Chatcfg.Config.{Config, ttl}
use langolier_bot.Chatcfg.Store.{Store, get, list}
use langolier_bot.Tgclient.Group.{Group}
use langolier_bot.Cleaner.State.{
  Cleaner, Chats, Spawn, drains, sweeps, deletes, is_active, mark_active, disable_chat,
}
use langolier_bot.Cleaner.Lookup.{sent_at, sent_at-delete}
use langolier_bot.Cleaner.Reconcile.{mem, present_of, watch_configured, watch_active, watch_of}

-- A group of the dialog list has the given marked id.
abbrev pub is_among : List Group → ℤ → Bool
is_among [] j = false
is_among (g ∷ gs) j = (g.marked_id == j) || is_among gs j

-- A chat is configured with a positive number of minutes.
abbrev pub has_minutes : Map ℤ Config → ℤ → Bool
has_minutes [] j = false
has_minutes ((marked, cfg) ∷ m) j =
    ((marked == j) && ltb_ℤ (pos 0) cfg.ttl_minutes) || has_minutes m j

-- A chat that is configured to be cleaned.
abbrev pub is_wanted : Store → ℤ → Bool
is_wanted cfg j = has_minutes (list cfg) j && ltb_ℤ (pos 0) (ttl (get cfg j))

-- A drain of the chat has been started.
abbrev pub starts : List Spawn → ℤ → Bool
starts [] j = false
starts (sweeps ∷ s) j = starts s j
starts (deletes m ids ∷ s) j = starts s j
starts (drains m ∷ s) j = (m == j) || starts s j

pub starts-append :
    (s : List Spawn) (m j : ℤ) → starts (s ++ drains m ∷ []) j ≡ (starts s j || (m == j))
starts-append [] m j = ground arith
starts-append (sweeps ∷ s) m j = starts-append s m j
starts-append (deletes x ids ∷ s) m j = starts-append s m j
starts-append (drains x ∷ s) m j = ground (arith, starts-append s m j)

pub mem-insert : (m : Chats) (k j : ℤ) → mem (insert k tt m) j ≡ ((k == j) || mem m j)
mem-insert m k j = ground (arith, lookup-insert k j tt m)

pub mem-present_of :
    (gs : List Group) (m : Chats) (j : ℤ) → mem (present_of gs m) j ≡ (is_among gs j || mem m j)
unfolding present_of
mem-present_of [] m j = refl
mem-present_of (g ∷ gs) m j =
    ground (arith, mem-present_of gs (insert g.marked_id tt m) j, mem-insert m g.marked_id j)

pub mem-watch_configured :
    (cfgs : Map ℤ Config) (m : Chats) (j : ℤ)
    → mem (watch_configured cfgs m) j ≡ (has_minutes cfgs j || mem m j)
unfolding watch_configured
mem-watch_configured [] m j = refl
mem-watch_configured ((k, cfg) ∷ cfgs) m j = ground (
  arith,
  mem-watch_configured cfgs (if ltb_ℤ (pos 0) cfg.ttl_minutes then insert k tt m else m) j,
  mem-insert m k j,
)

pub mem-watch_active :
    (active m : Chats) (j : ℤ) → mem (watch_active active m) j ≡ (mem active j || mem m j)
unfolding watch_active lookup
mem-watch_active [] m j = refl
mem-watch_active ((k, u) ∷ active) m j =
    ground (arith, mem-watch_active active (insert k tt m) j, mem-insert m k j)

pub contains-mem : (m : Chats) (j : ℤ) → contains (keys m) j ≡ mem m j
contains-mem m j = ground (arith, contains-keys j m)

pub is_active-mem : (c : Cleaner) (j : ℤ) → is_active j c ≡ mem c.active j
unfolding is_active
is_active-mem c j = refl

-- The watch list: the chats that are configured with a TTL, or maintained.
pub contains-watch_of :
    (cfg : Store) (c : Cleaner) (j : ℤ)
    → contains (keys (watch_of cfg c)) j ≡ (is_active j c || has_minutes (list cfg) j)
unfolding lookup
contains-watch_of cfg c j = ground (
  arith,
  contains-mem (watch_of cfg c) j,
  mem-watch_active c.active (watch_configured (list cfg) []) j,
  mem-watch_configured (list cfg) [] j,
  is_active-mem c j,
)

pub is_active-mark_active :
    (m j : ℤ) (c : Cleaner) → is_active j (mark_active m c) ≡ ((m == j) || is_active j c)
unfolding is_active mark_active
is_active-mark_active m j c = ground (arith, lookup-insert m j tt c.active)

pub is_active-disable_chat :
    (m j : ℤ) (c : Cleaner) → is_active j (disable_chat m c) ≡ (not (m == j) && is_active j c)
unfolding is_active disable_chat
is_active-disable_chat m j c = ground (arith, lookup-delete m j c.active)

pub sent_at-disable_chat :
    (m j : ℤ) (c : Cleaner) (id : ℕ)
    → sent_at (disable_chat m c).index j id ≡ (if m == j then none else sent_at c.index j id)
unfolding disable_chat
sent_at-disable_chat m j c id = sent_at-delete c.index m j id

pub index-mark_active : (m : ℤ) (c : Cleaner) → (mark_active m c).index ≡ c.index
unfolding mark_active
index-mark_active m c = refl
