-- ===== src/Bot/Callback/RoundTrip.antt =====
-- internal/bot/bot.go: parseCallback reads what the keyboards write.
use langolier_bot.Base.{some, ◌≡◌, ◌⊎◌, inl, inr, refl, list_eq, nat_eq, ◌∙◌, ap}
use langolier_bot.Base.Tests.{list_beq}
use langolier_bot.Base.Int.{ℤ, InInt64}
use langolier_bot.Base.Text.{codes, cut_colon, cut_prefix, cut_colon-append}
use langolier_bot.Base.Decimal.{format_int-NoColon, format_int, parse-format}
use langolier_bot.Bot.Callback.{
  Kind, chat, ttl, ttlclear, pat, patadd, purge, off, Callback, page, for_chat, patkind, patdel,
  parse_parts, parse_callback, parse_patdel, payload,
}

-- What the buttons of the program carry: int64 numbers, and the two kinds of a match.
abbrev pub IsCarried : Callback → Type 0
IsCarried (page p) = InInt64 p
IsCarried (for_chat k m) = InInt64 m
IsCarried (patkind arg) = (arg ≡ codes "exact") ⊎ (arg ≡ codes "prefix")
IsCarried (patdel m idx) = InInt64 m × InInt64 idx

for_chat-parse :
    (k : Kind) (m : ℤ) → InInt64 m → parse_callback (payload (for_chat k m)) ≡ some (for_chat k m)
unfolding parse_callback payload cut_colon parse_parts list_beq
for_chat-parse chat m h = rw (parse-format m h)
for_chat-parse ttl m h = rw (parse-format m h)
for_chat-parse ttlclear m h = rw (parse-format m h)
for_chat-parse pat m h = rw (parse-format m h)
for_chat-parse patadd m h = rw (parse-format m h)
for_chat-parse purge m h = rw (parse-format m h)
for_chat-parse off m h = rw (parse-format m h)

-- Every payload that a button carries is parsed to the callback that it stands for.
pub parse_callback-payload : (c : Callback) → IsCarried c → parse_callback (payload c) ≡ some c
unfolding parse_callback payload cut_colon parse_parts list_beq cut_prefix
parse_callback-payload (page p) h = rw (parse-format p h)
parse_callback-payload (for_chat k m) h = for_chat-parse k m h
parse_callback-payload (patkind arg) (inl e) = rw e refl
parse_callback-payload (patkind arg) (inr e) = rw e refl
parse_callback-payload (patdel m idx) (hm, hi) =
    ap parse_patdel (cut_colon-append (format_int m) (format_int idx) (format_int-NoColon m))
    ∙ rw (parse-format m hm, parse-format idx hi) refl
