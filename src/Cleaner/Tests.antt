-- ===== src/Cleaner/Tests.antt =====
-- Tests of internal/cleaner, and its theorems at concrete inputs.
use langolier_bot.Base.{
  ℕ, ◌+◌, ◌*◌, ◌≤◌, ◌<◌, Bool, true, false, not, ◌&&◌, ◌||◌, Option, none, some, List, [], ◌∷◌, ◌≡◌,
  ◌↔◌, refl, arith, if◌then◌else◌, ◌==◌, contains, keep, nat_eq, map, ◌++◌,
}
use langolier_bot.Base.Int.{ℤ, pos, negsuc, int_eq, ltb_ℤ}
use langolier_bot.Base.Maps.{lookup, keys}
use langolier_bot.Base.Text.{Text, codes, trim_space, trim_left, is_space, has_prefix}
use langolier_bot.Chatcfg.Config.{Config, matches, matches_any, clone}
use langolier_bot.Chatcfg.Store.{Store, get, list}
use langolier_bot.Tgclient.Group.{Group, message_link}
use langolier_bot.Base.Calls.{Visit, got}
use langolier_bot.Cleaner.Env.{Tg, Host}
use langolier_bot.Cleaner.State.{Cleaner, deletes, new_cleaner, on_own_message, is_active}
use langolier_bot.Cleaner.Sweep.{delete_ids, collect}
use langolier_bot.Cleaner.Drain.{drain_chat}
use langolier_bot.Cleaner.Reconcile.{reconcile, no_result}
use langolier_bot.Cleaner.Reconcile.Watch.{is_among, is_wanted, starts}
use langolier_bot.Cleaner.Reconcile.Membership.{reconcile-members, reconcile-again}
use langolier_bot.Cleaner.Lookup.{sent_at, on_own_message_lem}
use langolier_bot.Cleaner.Counting.{Reports, drain_chat-Reports}
use langolier_bot.Cleaner.Deleting.{failures, is_known, delete_ids-index}
use langolier_bot.Tgclient.Ids.{mark_channel, mark_chat}
use langolier_bot.Tgclient.Updates.{delete_messages, delete_channel_messages, handle}
use langolier_bot.Cleaner.Deletions.{all_set, forget, Forgets, deletion_update}
use mathlib.Core.List.{Perm}
use langolier_bot.Base.Sort.{IsSorted}
use langolier_bot.Cleaner.Stats.{ChatStat, stats}
use langolier_bot.Base.{All}
use langolier_bot.Cleaner.Listing.{IsRight, fresh, NoRepeats, stats_lem}
use langolier_bot.Cleaner.Due.{asks, sweep_exact}
use langolier_bot.Cleaner.Tidy.{
  Event, records, forgets, settles, handle_all, IsTidy, handle_all-IsTidy,
}

-- A world with a clock, the own messages of one chat, and the groups of the account.
record World : Type 0 where
  clock : ℕ
  history : List Visit
  groups : List Group
  online : Bool

find_group : List Group → ℤ → Option Group
find_group [] marked = none
find_group (g ∷ gs) marked = if g.marked_id == marked then some g else find_group gs marked

without : List ℕ → List Visit → List Visit
without ids [] = []
without ids ((id, sent) ∷ msgs) =
    let rest = without ids msgs in if contains ids id then rest else (id, sent) ∷ rest

-- Message 13 cannot be deleted; a client that is offline fails before any request.
delete_in : List ℕ → World → (List ℕ × Option Text) × World
unfolding without
delete_in ids w =
    if not w.online
    then (([], some (codes "not running")), w)
    else if contains ids 13
    then (
      (13 ∷ [], some (codes "forbidden")),
      record w { history = without (keep (λ (x : ℕ). not (x == 13)) ids) w.history },
    )
    else (([], none), record w { history = without ids w.history })

abbrev tg : Tg World
unfolding find_group delete_in message_link
tg = record {
  group = λ w marked. find_group w.groups marked;
  resolve_groups = λ w. (got w.groups, w);
  scan_own = λ g w. ((w.history, none), w);
  delete = λ g ids w. delete_in ids w;
  message_link = message_link;
}

abbrev host : Host World
host = record {
  now = λ w. w.clock;
  ctx_err = λ w. none;
  wait = λ d w. (none, record w { clock = w.clock + d });
}

abbrev one_id : List ℕ
one_id = 12 ∷ []

abbrev two_ids : List ℕ
two_ids = 12 ∷ 13 ∷ []

abbrev chat : ℤ
chat = negsuc 1000000000041

abbrev dev_group : Group
dev_group = record {
  marked_id = chat;
  title = codes "dev";
  username = [];
  is_channel = true;
  raw_id = pos 42;
  access_hash = pos 7;
}

-- One hour and five seconds, in nanoseconds.
abbrev world : World
world = record {
  clock = 3605000000000;
  history = (14, 4000000000) ∷ (13, 3000000000) ∷ (12, 1000000000) ∷ [];
  groups = dev_group ∷ [];
  online = true;
}

abbrev hourly : Config
hourly = record {
  ttl_minutes = pos 60;
  patterns = record { value = codes "/roll"; exact = false } ∷ [];
}

abbrev store : Store
store = record { bucket = []; cache = (chat, hourly) ∷ [] }

abbrev indexed : Cleaner
indexed = record new_cleaner {
  index = (chat, (12, 1000000000) ∷ (14, 6000000000) ∷ []) ∷ (negsuc 8, (12, 5) ∷ []) ∷ [];
}

on_own_message_lem_example :
    let cfg = get store chat in
    let r = on_own_message store chat 15 7 (codes " /roll 6") indexed in
    (sent_at r.0.index chat 15 ≡ (
      if not (matches cfg (codes " /roll 6"))
        && (ltb_ℤ (pos 0) cfg.ttl_minutes && ((chat == chat) && true))
      then some 7
      else sent_at indexed.index chat 15))
    × (r.1 ≡ (if matches cfg (codes " /roll 6") then deletes chat (15 ∷ []) ∷ [] else []))
on_own_message_lem_example = on_own_message_lem store chat chat 15 15 7 (codes " /roll 6") indexed

rolled : (on_own_message store chat 15 7 (codes " /roll 6") indexed).1 ≡ deletes chat (15 ∷ []) ∷ []
unfolding on_own_message matches matches_any get lookup clone trim_space trim_left is_space
    has_prefix
rolled = refl

drain_chat-Reports_example :
    let r = drain_chat tg host store chat new_cleaner world in Reports chat new_cleaner r.0.0 r.1
drain_chat-Reports_example = drain_chat-Reports tg host store chat new_cleaner world

delete_ids-index_example : sent_at (delete_ids tg chat two_ids indexed world).1.index chat 12 ≡ (
    if is_known (tg.group world chat)
      && ((chat == chat)
          && (contains two_ids 12
              && not (contains (failures tg (tg.group world chat) two_ids world) 12)))
    then none
    else sent_at indexed.index chat 12)
delete_ids-index_example = delete_ids-index tg chat chat two_ids indexed world 12

sweep_exact_example : (asks (collect store 3605000000000 indexed.index) chat 12 ≡ true) ↔ (
    (0 < 60)
    × ((sent : ℕ) × (sent_at indexed.index chat 12 ≡ some sent)
        × (sent + 60 * 60000000000 ≤ 3605000000000)))
unfolding get lookup clone
sweep_exact_example =
    sweep_exact store 3605000000000 60 indexed.index chat 12
      ((refl, (refl, tt)), ((refl, (refl, tt)), ((refl, tt), tt))) refl (omega arith)

abbrev events : List Event
events =
    records chat 12 5
    ∷ records chat 13 6
    ∷ settles dev_group chat (12 ∷ 13 ∷ []) (13 ∷ [])
    ∷ forgets (pos 0) (13 ∷ [])
    ∷ forgets chat (13 ∷ [])
    ∷ []

handle_all-IsTidy_example : IsTidy (handle_all tg events new_cleaner).index
handle_all-IsTidy_example = handle_all-IsTidy tg events new_cleaner (tt, tt)

reconcile-members_example :
    let (c', spawned) = (reconcile tg store new_cleaner world).1 in
    (is_active chat c'
      ≡ (is_among (dev_group ∷ []) chat && (is_active chat new_cleaner || is_wanted store chat)))
    × (starts spawned chat ≡ (
        not (is_active chat new_cleaner)
        && (is_among (dev_group ∷ []) chat && is_wanted store chat)))
    × (sent_at c'.index chat 12 ≡ (
        if is_active chat new_cleaner && not (is_among (dev_group ∷ []) chat)
        then none
        else sent_at new_cleaner.index chat 12))
unfolding tg
reconcile-members_example =
    reconcile-members tg store new_cleaner world world (dev_group ∷ []) refl chat 12

reconcile-again_example :
    reconcile tg store (reconcile tg store new_cleaner world).1.0 world
    ≡ (got no_result, ((reconcile tg store new_cleaner world).1.0, []), world)
unfolding tg
reconcile-again_example =
    reconcile-again tg store new_cleaner world world (dev_group ∷ []) refl (dev_group ∷ []) world
      refl (λ j. refl)

abbrev two_chats : Cleaner
two_chats = record new_cleaner {
  index = (negsuc 1000000000041, (5, 1) ∷ []) ∷ (negsuc 41, (5, 1) ∷ []) ∷ [];
}

deletion_update_example :
    let in_channel =
      forget (handle all_set (delete_channel_messages (pos 42) (5 ∷ []))) two_chats in
    let in_groups = forget (handle all_set (delete_messages (5 ∷ []))) two_chats in
    Forgets (pos 42 == pos 42) two_chats in_channel (mark_channel (pos 42)) (5 ∷ []) 5
    × Forgets false two_chats in_channel (mark_chat (pos 42)) (5 ∷ []) 5
    × Forgets false two_chats in_groups (mark_channel (pos 42)) (5 ∷ []) 5
    × Forgets true two_chats in_groups (mark_chat (pos 42)) (5 ∷ []) 5
deletion_update_example =
    deletion_update two_chats (pos 42) (pos 42) (5 ∷ []) 5 (omega arith) (omega arith)

stats_lem_example :
    let chats = fresh [] (keys (list store) ++ keys two_chats.index) in
    Perm (map (λ (s : ChatStat). s.marked_id) (stats tg store two_chats world)) chats
    × All (IsRight tg (list store) two_chats world) (stats tg store two_chats world)
    × NoRepeats chats
    × ((j : ℤ)
        → contains chats j ≡ (contains (keys (list store)) j || contains (keys two_chats.index) j))
    × IsSorted (λ (s : ChatStat). s.title) (stats tg store two_chats world)
stats_lem_example = stats_lem tg store two_chats world
