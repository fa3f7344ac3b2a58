-- ===== src/Bot/Commands.antt =====
-- internal/bot/bot.go: the commands and the menus, which read the store and the cleaner.
use langolier_bot.Base.{
  Bool, true, false, Option, none, some, List, [], ◌∷◌, ◌++◌, nat_beq, if◌then◌else◌, length,
  list_eq, nat_eq,
}
use langolier_bot.Base.Int.{ℤ, int_eq}
use langolier_bot.Base.Text.{Text, codes, is_empty}
use langolier_bot.Base.Decimal.{format_int}
use langolier_bot.Base.Calls.{Answer, got, failed}
use langolier_bot.Chatcfg.Store.{get, list}
use langolier_bot.Tgclient.Group.{Group}
use langolier_bot.Cleaner.State.{Cleaner, Spawn, reset}
use langolier_bot.Cleaner.Reconcile.{ReconcileResult, reconcile}
use langolier_bot.Cleaner.Stats.{ChatStat, stats, sort_stats}
use langolier_bot.Bot.State.{
  System, Keyboard, EditTarget, Output, says, shows, edits, starts, purges, spawns, Api, Handled,
  and_then, say,
}
use langolier_bot.Bot.Menus.{
  page_count, clamp_page, group_menu, group_text, chat_text, chat_menu, pattern_menu, stat_lines,
}

unfoldable pub cmd_start : {W : Type 0} → System W → Handled W
cmd_start s = if s.bot.running then say (codes "User client is already running.") s else (
  s,
  says (
        codes
          "Starting the user client. You may be asked for the phone number, login code and 2FA password.")
      ∷ starts
      ∷ [],
)

abbrev pub stop_error : Option Text → List Output
stop_error none = []
stop_error (some e) = says (codes "Stop error: " ++ e) ∷ []

unfoldable pub lost_lines : List Text → List Output
lost_lines [] = []
lost_lines (t ∷ ts) =
    says (
      codes "Stopped cleaning "
      ++ (t ++ codes " — the account left or was removed. Config kept; cleanup resumes on rejoin."))
    ∷ lost_lines ts

unfoldable pub rejoined_lines : List Text → List Output
rejoined_lines [] = []
rejoined_lines (t ∷ ts) =
    says (codes "Rejoined " ++ (t ++ codes " — cleaning history in passes.")) ∷ rejoined_lines ts

unfoldable pub spawn_all : List Spawn → List Output
spawn_all [] = []
spawn_all (x ∷ xs) = spawns x ∷ spawn_all xs

abbrev pub status_text : List ChatStat → Text
status_text [] = codes "No configured chats."
status_text (x ∷ xs) = codes "Status:\n" ++ stat_lines (sort_stats (x ∷ xs))

module _ {W : Type 0} (api : Api W) where
  abbrev pub Handler : Type 0
  Handler = System W → Handled W

  unfoldable pub group_title : System W → ℤ → Text
  group_title s marked = elim (api.tg.group s.world marked) [
    | none ↦ format_int marked
    | some g ↦ if is_empty g.title then format_int marked else g.title
  ]

  abbrev pub edited : EditTarget → Text → Keyboard → System W → Bool × W → Handled W
  edited target text menu s (true, w) = (record s { world = w }, edits target text menu ∷ [])
  edited target text menu s (false, w) = (record s { world = w }, shows text menu ∷ [])

  unfoldable pub render : EditTarget → Text → Keyboard → Handler
  render target text menu s =
      if nat_beq target.msg_id 0
      then (s, shows text menu ∷ [])
      else edited target text menu s (api.edit target s.world)

  unfoldable pub show_chat_menu : ℤ → EditTarget → Handler
  show_chat_menu marked target s =
      render target (chat_text (group_title s marked) (get s.cfg marked)) (chat_menu marked) s

  unfoldable pub show_pattern_menu : ℤ → EditTarget → Handler
  show_pattern_menu marked target s =
      render target (group_title s marked ++ codes "\nInstant-delete patterns:")
        (pattern_menu marked (get s.cfg marked)) s

  unfoldable pub run_purge : ℤ → Handler
  run_purge marked s =
      (s, says (codes "Purging " ++ (group_title s marked ++ codes "…")) ∷ purges marked ∷ [])

  abbrev pub groups_shown : ℤ → EditTarget → System W → Answer (List Group) → Handled W
  groups_shown p target s (failed e) = say (codes "Failed to list chats: " ++ e) s
  groups_shown p target s (got []) = say (codes "No eligible group chats found.") s
  groups_shown p target s (got (g ∷ gs)) =
      let pages = page_count (length (g ∷ gs)) in
      let shown = clamp_page p pages in
      render target (group_text shown pages) (group_menu (list s.cfg) (g ∷ gs) shown) s

  unfoldable pub cmd_config : ℤ → EditTarget → Handler
  cmd_config p target s =
      if s.bot.running
      then (let (answer, w) = api.tg.resolve_groups s.world in
          groups_shown p target (record s { world = w }) answer)
      else say (codes "Run /start first.") s

  unfoldable pub cmd_stop : Handler
  cmd_stop s =
      if s.bot.running
      then (let (err, w) = api.stop_client s.world in
          (
            record s { bot = record s.bot { running = false }; cl = reset s.cl; world = w },
            stop_error err ++ says (codes "User client stopped. Send /start to launch again.") ∷ [],
          ))
      else say (codes "User client is not running.") s

  abbrev pub reconciled : System W → Answer ReconcileResult × (Cleaner × List Spawn) × W → Handled W
  reconciled s (failed e, (cl, jobs), w) = (record s { cl = cl; world = w }, spawn_all jobs)
  reconciled s (got res, (cl, jobs), w) = (
    record s { cl = cl; world = w },
    spawn_all jobs ++ (lost_lines res.lost ++ rejoined_lines res.rejoined),
  )

  unfoldable pub run_reconcile : Handler
  run_reconcile s = reconciled s (reconcile api.tg s.cfg s.cl s.world)

  unfoldable pub cmd_status : Handler
  cmd_status s =
      and_then (if s.bot.running then run_reconcile s else (s, []))
        (λ t. say (status_text (stats api.tg t.cfg t.cl t.world)) t)
