-- ===== src/Tgclient/ClientTests.antt =====
-- Tests of the parts of internal/tgclient that hold state, and their theorems at concrete inputs.
use langolier_bot.Base.{contains, ◌&&◌, ◌==◌, if◌then◌else◌}
use langolier_bot.Base.Int.{negsuc, int_eq}
use langolier_bot.Tgclient.Interface.{Gotd, Session, client}
use langolier_bot.Tgclient.Offline.{delete_ids-offline}
use langolier_bot.Tgclient.Delete.{delete, delete_chunks}
use langolier_bot.Chatcfg.Store.{Store}
use langolier_bot.Cleaner.Env.{Host}
use langolier_bot.Cleaner.Sweep.{sweep}
use langolier_bot.Cleaner.Due.{wanted}
use langolier_bot.Cleaner.Deleting.{is_known}
use langolier_bot.Cleaner.Sweeping.{sweep-index}
use langolier_bot.Cleaner.State.{Cleaner, new_cleaner}
use langolier_bot.Cleaner.Sweep.{delete_ids}
use langolier_bot.Cleaner.Lookup.{sent_at}
use langolier_bot.Base.{
  ℕ, suc, Bool, not, true, false, none, some, List, [], ◌∷◌, ◌≡◌, refl, All, nat_eq,
}
use langolier_bot.Base.Int.{ℤ, pos}
use langolier_bot.Base.Text.{Text, codes}
use langolier_bot.Base.Calls.{Answer, got}
use langolier_bot.Base.Maps.{lookup}
use langolier_bot.Tgclient.Group.{Group, Elem, peer_chat, peer_channel}
use langolier_bot.Tgclient.Scan.{messages}
use langolier_bot.Tgclient.Resolve.{group, resolve_groups}
use langolier_bot.Tgclient.Resolve.Cache.{IsKeyed, Resolves, resolve_groups-Resolves}
use langolier_bot.Tgclient.Relay.{Relay, RelayAuth, phone, phones, phone-again}

abbrev basic_group : Elem
basic_group = record {
  peer = peer_chat (pos 42);
  chat = λ id. some (record {
    id = id;
    title = codes "dev";
    left = false;
    deactivated = false;
    migrated_to = none;
  });
  channel = λ id. none;
}

-- A channel of the account, which is a supergroup or not.
abbrev channel : ℤ → Text → Bool → Elem
channel id title megagroup = record {
  peer = peer_channel id (pos 7);
  chat = λ id. none;
  channel = λ id. some (record {
    id = id;
    title = title;
    username = none;
    broadcast = not megagroup;
    megagroup = megagroup;
    left = false;
  });
}

abbrev three_dialogs : List Elem
three_dialogs =
    basic_group ∷ channel (pos 5) (codes "news") false ∷ channel (pos 6) (codes "chat") true ∷ []

abbrev ask_dialogs : Unit {0} → Answer (List Elem) × Unit {0}
ask_dialogs w = (got three_dialogs, w)

nothing-IsKeyed : IsKeyed []
unfolding group lookup
nothing-IsKeyed j g e = cc

resolve_groups-Resolves_example :
    let r = resolve_groups ask_dialogs true [] tt in
    Resolves ask_dialogs (got three_dialogs) [] r.0 r.1 × IsKeyed r.1
resolve_groups-Resolves_example = resolve_groups-Resolves ask_dialogs [] tt nothing-IsKeyed

-- A server without messages, which refuses to delete anything.
abbrev gotd : Gotd Unit
gotd = record {
  dialogs = ask_dialogs;
  search = λ r w. (got (messages []), w);
  wait = λ w. (none, w);
  rpc = λ r w. (some (codes "forbidden"), w);
  patience = λ w. (0, codes "context canceled");
}

abbrev dev : Group
dev = record {
  marked_id = negsuc 41;
  title = codes "dev";
  username = [];
  is_channel = false;
  raw_id = pos 42;
  access_hash = pos 0;
}

abbrev offline : Session Unit
offline = record { running = false; groups = (negsuc 41, dev) ∷ []; server = tt }

abbrev indexed : Cleaner
indexed = record new_cleaner { index = (negsuc 41, (12, 5) ∷ (13, 6) ∷ []) ∷ [] }

delete_ids-offline_example :
    let r = delete_ids (client gotd) (negsuc 41) (12 ∷ []) indexed offline in
    (r.2 ≡ offline)
    × (r.0.deleted ≡ 1)
    × (r.0.failed ≡ 0)
    × ((j : ℤ) (id : ℕ)
        → sent_at r.1.index j id ≡ (
            if (negsuc 41 == j) && contains (12 ∷ []) id then none else sent_at indexed.index j id))
unfolding lookup group
delete_ids-offline_example =
    delete_ids-offline gotd dev (negsuc 41) (12 ∷ []) indexed offline refl refl

-- A server that deletes what it is asked to delete.
abbrev accepting : Gotd Unit
accepting = record gotd { rpc = λ r w. (none, w) }

accepted_chunks :
    (g : Group) (chunks : List (List ℕ)) (w : Unit {0})
    → (delete_chunks accepting.rpc g chunks ([], none) w).0.0 ≡ []
unfolding delete_chunks
accepted_chunks g [] w = refl
accepted_chunks g (chunk ∷ chunks) w = accepted_chunks g chunks w

accepted :
    (running : Bool) (g : Group) (ids : List ℕ) (w : Unit {0})
    → (delete accepting.rpc running g ids w).0.0 ≡ []
unfolding delete
accepted false g ids w = refl
accepted true g ids w = accepted_chunks g _ w

abbrev online : Session Unit
online = record { running = true; groups = (negsuc 41, dev) ∷ []; server = tt }

-- One hour and five seconds after the epoch.
abbrev late_host : Host (Session Unit)
late_host = record { now = λ w. 3605000000000; ctx_err = λ w. none; wait = λ d w. (none, w) }

abbrev hour_store : Store
hour_store = record {
  bucket = [];
  cache = (negsuc 41, record { ttl_minutes = pos 60; patterns = [] }) ∷ [];
}

abbrev two_messages : Cleaner
two_messages = record new_cleaner {
  index = (negsuc 41, (12, 1000000000) ∷ (14, 6000000000) ∷ []) ∷ [];
}

sweep-index_example :
    sent_at
      (sweep (client accepting) late_host hour_store two_messages online).0.index
      (negsuc 41)
      12
    ≡ (if is_known ((client accepting).group online (negsuc 41))
          && wanted hour_store 3605000000000 two_messages.index (negsuc 41) 12
        then none
        else sent_at two_messages.index (negsuc 41) 12)
sweep-index_example =
    sweep-index (client accepting) late_host (λ w. refl) (λ g ids w marked. refl)
      (λ g ids s. accepted s.running g ids s.server) hour_store two_messages online (negsuc 41) 12
      ((refl, tt), ((refl, (refl, tt)), tt))

abbrev operator : Relay ℕ
operator = record {
  ask_phone = λ w. (got (codes "+15551234567"), suc w);
  ask_code = λ w. (got (codes "12345"), suc w);
  ask_password = λ hint w. (got hint, suc w);
  get_hint = λ w. (got none, w);
}

abbrev new_auth : RelayAuth
new_auth = record { connected = true; phone = [] }

phone-again_example :
    let known = (phone operator new_auth 0).1 in
    All (λ (q : Answer Text). q ≡ got (codes "+15551234567")) (phones operator 3 known 1).0
    × ((phones operator 3 known 1).1 ≡ known)
    × ((phones operator 3 known 1).2 ≡ 1)
unfolding phone
phone-again_example = phone-again operator new_auth 0 1 (codes "+15551234567") 3 refl refl
