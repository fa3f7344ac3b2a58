-- ===== src/Tgclient/Tests.antt =====
-- Tests of internal/tgclient, and its theorems at concrete inputs.
use langolier_bot.Base.{
  ℕ, zero, suc, ◌<◌, ◌≤◌, ◌+◌, refl, ◌≢◌, true, false, Option, none, some, List, [], ◌∷◌, ◌≡◌,
  arith, map, flatten, All,
}
use langolier_bot.Base.Int.{pos, negsuc}
use langolier_bot.Base.Text.{Text, codes}
use langolier_bot.Tgclient.Group.{Group}
use langolier_bot.Tgclient.Delete.{DeleteRequest, delete}
use langolier_bot.Tgclient.Scan.{scan_own}
use langolier_bot.Tgclient.Scan.History.{Own, IsHistory}
use langolier_bot.Tgclient.Scan.Complete.{serve, in_nanoseconds, scan_own_complete}
use langolier_bot.Base.Calls.{Answer, got}
use langolier_bot.Tgclient.Auth.{
  auth_restart, password_invalid, Attempt, auth_restart_limit, restarts, enter, authorize,
  IsSettled, restarts-flows, authorize-IsSettled,
}
use langolier_bot.Tgclient.Hasher.{
  channel, Peer, InRange, set_access_hash, get_access_hash, get-set,
}
use langolier_bot.Tgclient.Delete.Batches.{
  recording, ids_of, IsFor, Accounts, delete-requests, delete-Accounts,
}

abbrev group : Group
group = record {
  marked_id = negsuc 41;
  title = codes "dev";
  username = [];
  is_channel = false;
  raw_id = pos 42;
  access_hash = pos 0;
}

-- Refuses every second request.
abbrev answer : List DeleteRequest → DeleteRequest → Option Text
answer [] r = none
answer (x ∷ log) r = some (codes "forbidden")

delete-requests_example :
    let log = (delete (recording answer) true group (3 ∷ 1 ∷ 2 ∷ []) []).1 in
    (flatten (map ids_of log) ≡ 3 ∷ 1 ∷ 2 ∷ []) × All (IsFor group) log
delete-requests_example = delete-requests answer group (3 ∷ 1 ∷ 2 ∷ [])

delete-Accounts_example :
    Accounts (3 ∷ 1 ∷ 2 ∷ []) (delete (recording answer) true group (3 ∷ 1 ∷ 2 ∷ []) []).0
delete-Accounts_example = delete-Accounts (recording answer) group (3 ∷ 1 ∷ 2 ∷ []) []

abbrev history : List Own
history = (30, 1700000300) ∷ (20, 1700000200) ∷ []

history-IsHistory : IsHistory history
history-IsHistory = (omega arith, ((omega arith, tt), (omega arith, (tt, tt))))

scan_own_complete_example :
    scan_own (serve history) (λ w. (none, w)) 3 true group tt
    ≡ some ((in_nanoseconds history, none), tt)
scan_own_complete_example = scan_own_complete group tt history 3 history-IsHistory (omega arith)

get-set_example :
    let after = (set_access_hash channel [] (pos 1) (pos 42) (negsuc 6) none).0 in
    (get_access_hash channel after (pos 1) (pos 42) none ≡ some (negsuc 6, true, none))
    × ((q : Peer)
        → InRange q
        → q ≢ (channel, pos 1, pos 42)
        → get_access_hash q.0 after q.1 q.2 none ≡ get_access_hash q.0 [] q.1 q.2 none)
get-set_example = get-set [] channel (pos 1) (pos 42) (negsuc 6) (omega arith) (omega arith)

-- A server that always answers AUTH_RESTART, and one that knows the number of wrong passwords to come.
abbrev restarting : ℕ → Attempt ℕ
restarting w = (some auth_restart, suc w)

abbrev no_password : ℕ → Answer Text × ℕ
no_password w = (got [], w)

abbrev rejecting : ℕ → Attempt ℕ
rejecting w = (some password_invalid, w)

abbrev try_password : Text → ℕ → Attempt ℕ
try_password pw zero = (none, zero)
try_password pw (suc n) = (some password_invalid, n)

restarts-flows_example :
    let (err, w') =
      restarts restarting no_password try_password auth_restart_limit (restarting 0) in
    (0 < w') × (w' ≤ 0 + 4) × (err ≡ some auth_restart → w' ≡ 0 + 4)
restarts-flows_example = restarts-flows restarting no_password try_password (λ w. w) 0 (λ w. refl)

fewer :
    (w : ℕ)
    → (enter rejecting no_password try_password (no_password w)).0 ≡ some password_invalid
    → (enter rejecting no_password try_password (no_password w)).1 < w
fewer zero e = absurd cc
fewer (suc n) e = omega arith

authorize-IsSettled_example :
    IsSettled rejecting no_password try_password (authorize rejecting no_password try_password 3 2)
unfolding restarts
authorize-IsSettled_example =
    authorize-IsSettled rejecting no_password try_password (λ w. w) 3 2 fewer (omega arith)
