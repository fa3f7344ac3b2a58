-- ===== src/Bot/Menus.antt =====
-- internal/bot/bot.go: the keyboards and texts that the bot shows. The payload of each button is that
-- of a callback.
use langolier_bot.Base.{
  ℕ, suc, ◌+◌, ◌-◌, ◌*◌, ◌/◌, Bool, List, [], ◌∷◌, ◌++◌, ltb, if◌then◌else◌, length, take, drop,
}
use langolier_bot.Base.Int.{ℤ, pos, pos_part, leb_ℤ, ltb_ℤ}
use langolier_bot.Base.Maps.{Map}
use langolier_bot.Base.Text.{Text, codes, is_empty}
use langolier_bot.Base.Decimal.{format_int, format_nat}
use langolier_bot.Chatcfg.Config.{Config, Pattern, configured}
use langolier_bot.Chatcfg.Store.{cached}
use langolier_bot.Tgclient.Group.{Group}
use langolier_bot.Cleaner.Sweep.{Report}
use langolier_bot.Cleaner.Stats.{ChatStat}
use langolier_bot.Bot.Callback.{
  Callback, page, for_chat, patkind, patdel, payload, chat, ttl, ttlclear, pat, patadd, purge, off,
}
use langolier_bot.Bot.State.{Button, Keyboard}

abbrev pub btn : Text → Callback → Button
btn text c = record { label = text; callback_data = payload c }

-- groupsPerPage
abbrev pub groups_per_page : ℕ
groups_per_page = 8

unfoldable pub page_count : ℕ → ℕ
page_count n = (n + groups_per_page - 1) / groups_per_page

-- The page that is shown for a number that a button carries; there is at least one page.
unfoldable pub clamp_page : ℤ → ℕ → ℕ
clamp_page p pages =
    if ltb_ℤ p (pos 0) then 0 else if leb_ℤ (pos pages) p then pages - 1 else pos_part p

-- groups[start:end]
unfoldable pub page_groups {ℓ} : {A : Type ℓ} → List A → ℕ → List A
page_groups groups p = take groups_per_page (drop (p * groups_per_page) groups)

unfoldable pub group_rows : Map ℤ Config → List Group → Keyboard
group_rows cfgs [] = []
group_rows cfgs (g ∷ gs) =
    let label = if configured (cached cfgs g.marked_id) then codes "• " ++ g.title else g.title in
    (btn label (for_chat chat g.marked_id) ∷ []) ∷ group_rows cfgs gs

abbrev pub nav_row : ℕ → ℕ → List Button
nav_row p pages =
    (if ltb 0 p then btn (codes "‹ Prev") (page (pos (p - 1))) ∷ [] else [])
    ++ (if ltb p (pages - 1) then btn (codes "Next ›") (page (pos (p + 1))) ∷ [] else [])

abbrev pub as_row : List Button → Keyboard
as_row [] = []
as_row (b ∷ nav) = (b ∷ nav) ∷ []

unfoldable pub group_menu : Map ℤ Config → List Group → ℕ → Keyboard
group_menu cfgs groups p =
    group_rows cfgs (page_groups groups p) ++ as_row (nav_row p (page_count (length groups)))

abbrev pub group_text : ℕ → ℕ → Text
group_text p pages =
    codes "Select a group to configure (page "
    ++ (format_nat (p + 1) ++ (codes "/" ++ (format_nat pages ++ codes "):")))

unfoldable pub ttl_text : ℤ → Text
ttl_text minutes = if leb_ℤ minutes (pos 0) then codes "off" else format_int minutes ++ codes " min"

abbrev pub chat_text : Text → Config → Text
chat_text title cfg =
    title
    ++ (codes "\nTTL: "
        ++ (ttl_text cfg.ttl_minutes
            ++ (codes "\nInstant-delete patterns: " ++ format_nat (length cfg.patterns))))

unfoldable pub chat_menu : ℤ → Keyboard
chat_menu m =
    (btn (codes "Set TTL") (for_chat ttl m) ∷ btn (codes "Clear TTL") (for_chat ttlclear m) ∷ [])
    ∷ (btn (codes "Patterns") (for_chat pat m) ∷ [])
    ∷ (btn (codes "Purge now") (for_chat purge m) ∷ [])
    ∷ (btn (codes "Disable chat") (for_chat off m) ∷ [])
    ∷ (btn (codes "‹ Back") (page (pos 0)) ∷ [])
    ∷ []

abbrev pub kind_text : Bool → Text
kind_text exact = if exact then codes "exact" else codes "prefix"

unfoldable pub pattern_rows : ℤ → ℕ → List Pattern → Keyboard
pattern_rows m i [] = []
pattern_rows m i (p ∷ ps) =
    (btn (codes "❌ [" ++ (kind_text p.exact ++ (codes "] " ++ p.value))) (patdel m (pos i)) ∷ [])
    ∷ pattern_rows m (suc i) ps

unfoldable pub pattern_menu : ℤ → Config → Keyboard
pattern_menu m cfg =
    pattern_rows m 0 cfg.patterns
    ++ ((btn (codes "Add pattern") (for_chat patadd m) ∷ [])
        ∷ (btn (codes "‹ Back") (for_chat chat m) ∷ [])
        ∷ [])

abbrev pub match_menu : ℤ → Keyboard
match_menu m =
    (btn (codes "Exact") (patkind (codes "exact"))
      ∷ btn (codes "Prefix") (patkind (codes "prefix"))
      ∷ [])
    ∷ (btn (codes "Cancel") (for_chat chat m) ∷ [])
    ∷ []

unfoldable pub link_lines : List Text → Text
link_lines [] = []
link_lines (l ∷ ls) = codes "\n" ++ (l ++ link_lines ls)

unfoldable pub format_report : Text → Report → Text
format_report kind rep =
    kind
    ++ (codes " of "
        ++ (rep.title
            ++ (codes ": deleted "
                ++ (format_nat rep.deleted
                    ++ (codes ", failed " ++ (format_nat rep.failed ++ link_lines rep.links))))))

unfoldable pub stat_line : ChatStat → Text
stat_line s =
    codes "• "
    ++ ((if is_empty s.title then format_int s.marked_id else s.title)
        ++ (codes " — TTL "
            ++ (ttl_text s.ttl_minutes
                ++ (codes ", patterns "
                    ++ (format_nat s.patterns
                        ++ (codes ", indexed "
                            ++ (format_nat s.indexed
                                ++ (codes ", deleted "
                                    ++ (format_nat s.deleted ++ codes "\n")))))))))

unfoldable pub stat_lines : List ChatStat → Text
stat_lines [] = []
stat_lines (s ∷ ss) = stat_line s ++ stat_lines ss
