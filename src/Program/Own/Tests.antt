-- ===== src/Program/Own/Tests.antt =====
-- A run in which the program deletes messages.
use langolier_bot.Base.{
  ℕ, true, false, none, some, List, [], ◌∷◌, ◌++◌, ◌≡◌, refl, leb, ◌*◌, All, nat_eq,
}
use langolier_bot.Base.Int.{ℤ, pos, negsuc}
use langolier_bot.Base.Lists.{All-append}
use langolier_bot.Base.Text.{codes}
use langolier_bot.Base.Calls.{got}
use langolier_bot.Chatcfg.Store.{Store}
use langolier_bot.Chatcfg.Tests.{toy}
use langolier_bot.Tgclient.Group.{Elem, peer_channel}
use langolier_bot.Tgclient.Updates.{message, new_channel_message}
use langolier_bot.Tgclient.Delete.{DeleteRequest, channels_delete, messages_delete}
use langolier_bot.Tgclient.Delete.Batches.{ids_of}
use langolier_bot.Tgclient.Scan.{
  messages, scan_own, scan_loop, scan_page, messages_of, visits_of, min_id_from,
}
use langolier_bot.Tgclient.Interface.{Gotd, Session}
use langolier_bot.Tgclient.Own.{AsksOwn, Telegram}
use langolier_bot.Cleaner.Deletions.{all_set}
use langolier_bot.Bot.State.{Api, no_target}
use langolier_bot.Bot.Callback.{for_chat, purge, payload}
use langolier_bot.Bot.Handlers.{query}
use langolier_bot.Program.{Event, updated, told, readied, swept, goes, served}
use langolier_bot.Program.Keeps.Events.{after_all}
use langolier_bot.Program.Own.Requests.{wired, requests_own}
use langolier_bot.Tgclient.Updates
use langolier_bot.Tgclient.Scan

-- The server is the list of the messages whose deletion it has been asked for. The own messages are
-- those with an id from 10 on.
abbrev Server : Type 0
Server = List ℕ

abbrev IsMine : ℤ → ℕ → Type 0
IsMine marked id = leb 10 id ≡ true

abbrev OnlyMine : Server → Type 0
OnlyMine w = All (IsMine (pos 0)) w

abbrev supergroup : Elem
supergroup = record {
  peer = peer_channel (pos 5) (pos 1);
  chat = λ id. none;
  channel = λ id. some (record {
    id = id;
    title = codes "Group";
    username = none;
    broadcast = false;
    megagroup = true;
    left = false;
  });
}

abbrev gotd : Gotd Server
gotd = record {
  dialogs = λ w. (got (supergroup ∷ []), w);
  search = λ r w. (got (messages (Scan.message 11 0 ∷ Scan.message 10 0 ∷ [])), w);
  wait = λ w. (none, w);
  rpc = λ r w. (none, w ++ ids_of r);
  patience = λ w. (5, codes "context canceled");
}

rpc-OnlyMine :
    (r : DeleteRequest) (w : Server) → AsksOwn IsMine r → OnlyMine w → OnlyMine (w ++ ids_of r)
rpc-OnlyMine (channels_delete c ids) w k h = All-append (IsMine (pos 0)) w ids h k
rpc-OnlyMine (messages_delete revoke ids) w k h = All-append (IsMine (pos 0)) w ids h k.1

telegram : Telegram gotd IsMine OnlyMine
unfolding messages_of
telegram = record {
  dialogs_keep = λ w h. h;
  search_keeps = λ r w h. h;
  search_own = λ r w self h. (refl, (refl, tt));
  wait_keeps = λ w h. h;
  rpc_keeps = rpc-OnlyMine;
}

abbrev api : Api (Session Server)
api = record {
  tg = record {
    group = λ s marked. none;
    resolve_groups = λ s. (got [], s);
    scan_own = λ g s. (([], none), s);
    delete = λ g ids s. (([], none), s);
    message_link = λ g id. [];
  };
  host = record { now = λ s. 3600 * 1000000000; ctx_err = λ s. none; wait = λ n s. (none, s) };
  commit = λ s. (none, s);
  edit = λ t s. (true, s);
  stop_client = λ s. (none, record s { running = false });
  quote = λ t. t;
  error_text = λ e. codes "error";
}

-- The chat has a TTL of a minute.
abbrev configured : Store
configured = record {
  bucket = [];
  cache = (negsuc 1000000000004, record { ttl_minutes = pos 1; patterns = [] }) ∷ [];
}

abbrev online : Session Server
online = record { running = true; groups = []; server = [] }

-- The client gets ready; a message of the account comes in and is swept; the owner purges the chat.
abbrev evening : List Event
evening =
    readied
    ∷ told (new_channel_message (message true (Updates.peer_channel (pos 5)) 12 7 (codes "hello")))
    ∷ swept
    ∷ updated (query (pos 7) [] no_target (payload (for_chat purge (negsuc 1000000000004))))
    ∷ goes 1
    ∷ []

requests_own_example :
    OnlyMine
      (after_all toy (wired toy all_set gotd api) all_set evening (
        served toy
          (wired toy all_set gotd api)
          all_set
          (pos 7)
          configured
          online)).system.world.server
requests_own_example =
    requests_own toy all_set gotd api IsMine OnlyMine telegram
      (record {
        commits_keep = λ s h. h;
        edits_keep = λ t s h. h;
        stops_keep = λ s h. h;
        waits_keep = λ d s h. h;
      })
      (pos 7) configured online evening tt refl (tt, (refl, (tt, (tt, (tt, tt)))))
