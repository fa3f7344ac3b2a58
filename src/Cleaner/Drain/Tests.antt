-- ===== src/Cleaner/Drain/Tests.antt =====
-- The theorems on drainChat and the sweep of internal/cleaner/cleaner.go at a concrete chat.
use langolier_bot.Base.{
  true, none, some, List, [], ◌∷◌, ◌≡◌, refl, length, take, if◌then◌else◌, arith,
}
use langolier_bot.Base.Int.{pos, negsuc, wrap64}
use langolier_bot.Base.Text.{codes}
use langolier_bot.Base.Calls.{Visit, got}
use langolier_bot.Base.Maps.{lookup}
use langolier_bot.Chatcfg.Config.{ttl, clone}
use langolier_bot.Chatcfg.Store.{Store, get}
use langolier_bot.Tgclient.Group.{Group}
use langolier_bot.Cleaner.Env.{Tg, Host}
use langolier_bot.Cleaner.State.{new_cleaner}
use langolier_bot.Cleaner.Sweep.{since}
use langolier_bot.Base.{◌==◌}
use langolier_bot.Base.Int.{int_eq}
use langolier_bot.Cleaner.Drain.{drain_chat}
use langolier_bot.Cleaner.Drain.Windows.{leave}
use langolier_bot.Cleaner.Drain.Passes.{IsQuiet}
use langolier_bot.Cleaner.Drain.Complete.{drain_chat_complete}

abbrev work_group : Group
work_group = record {
  marked_id = negsuc 1000000000041;
  title = codes "work";
  username = [];
  is_channel = true;
  raw_id = pos 42;
  access_hash = pos 7;
}

-- A chat whose search shows the newest two messages.
abbrev chat_tg : Tg (List Visit)
chat_tg = record {
  group = λ w marked. if marked == work_group.marked_id then some work_group else none;
  resolve_groups = λ w. (got (work_group ∷ []), w);
  scan_own = λ g w. ((take 2 w, none), w);
  delete = λ g ids w. (([], none), leave ids w);
  message_link = λ g id. [];
}

-- One hour and five seconds after the epoch.
abbrev chat_host : Host (List Visit)
chat_host = record { now = λ w. 3605000000000; ctx_err = λ w. none; wait = λ d w. (none, w) }

chat-IsQuiet : IsQuiet chat_tg chat_host work_group.marked_id work_group 2 (λ w. w)
chat-IsQuiet = record {
  finds = λ w. refl;
  scans = λ w. refl;
  scan_keeps = λ w. refl;
  deletes = λ ids w. refl;
  delete_leaves = λ ids w. refl;
  alive = λ w. refl;
  waits = λ d w. refl;
  wait_keeps = λ d w. refl;
}

abbrev hour_store : Store
hour_store = record {
  bucket = [];
  cache = (work_group.marked_id, record { ttl_minutes = pos 60; patterns = [] }) ∷ [];
}

abbrev young : List Visit
young = (14, 6000000000) ∷ []

abbrev due : List Visit
due = (13, 3000000000) ∷ (12, 2000000000) ∷ []

drain_chat_complete_example :
    let r =
      drain_chat chat_tg chat_host hour_store work_group.marked_id new_cleaner
        ((14, 6000000000) ∷ due) in
    (r.0.1 ≡ none) × (r.0.0.deleted ≡ length due) × (r.2 ≡ young)
unfolding ttl get lookup clone since wrap64
drain_chat_complete_example =
    drain_chat_complete chat_tg chat_host hour_store work_group.marked_id work_group 2 (λ w. w)
      young due new_cleaner ((14, 6000000000) ∷ due) chat-IsQuiet refl refl
      (
        omega arith,
        (
          (omega arith, (omega arith, tt)),
          (omega arith, ((omega arith, tt), (omega arith, (tt, tt)))),
        ),
      )
      (λ w. (refl, tt)) (λ w. (refl, (refl, tt))) (omega arith) (omega arith)
