-- ===== src/Bot/Callback.antt =====
-- internal/bot/bot.go: the callback payloads that the keyboards carry, and parseCallback.
pub mod RoundTrip
pub mod InRange
use langolier_bot.Base.{Option, none, some, ◌++◌, if◌then◌else◌, ◌||◌, ◌==◌, list_eq, nat_eq}
use langolier_bot.Base.Int.{ℤ}
use langolier_bot.Base.Text.{Text, codes, cut_colon, cut_prefix}
use langolier_bot.Base.Decimal.{parse_int, format_int}

-- The kinds of a callback that go by the chat alone.
pub data Kind : Type 0 where
  chat ttl ttlclear pat patadd purge off : Kind

-- A parsed payload. The source has one struct with a string for the kind, whose other fields are
-- zero where a kind does not use them; here each kind has the fields that it uses.
pub data Callback : Type 0 where
  page : ℤ → Callback
  for_chat : Kind → ℤ → Callback
  patkind : Text → Callback
  patdel : ℤ → ℤ → Callback

abbrev pub as_page : Option ℤ → Option Callback
as_page none = none
as_page (some p) = some (page p)

abbrev pub as_chat : Kind → Option ℤ → Option Callback
as_chat k none = none
as_chat k (some m) = some (for_chat k m)

abbrev pub as_patdel : Option ℤ → Option ℤ → Option Callback
as_patdel none idx = none
as_patdel (some m) none = none
as_patdel (some m) (some idx) = some (patdel m idx)

abbrev pub parse_page : Option Text → Option Callback
parse_page none = none
parse_page (some n) = as_page (parse_int n)

abbrev pub parse_patdel : Option (Text × Text) → Option Callback
parse_patdel none = none
parse_patdel (some (a, b)) = as_patdel (parse_int a) (parse_int b)

-- The switch over the prefix.
unfoldable pub parse_parts : Text → Text → Option Callback
parse_parts prefix rest =
    if prefix == codes "cfg"
    then parse_page (cut_prefix rest (codes "page:"))
    else if prefix == codes "chat"
    then as_chat chat (parse_int rest)
    else if prefix == codes "ttl"
    then as_chat ttl (parse_int rest)
    else if prefix == codes "ttlclear"
    then as_chat ttlclear (parse_int rest)
    else if prefix == codes "pat"
    then as_chat pat (parse_int rest)
    else if prefix == codes "patadd"
    then as_chat patadd (parse_int rest)
    else if prefix == codes "purge"
    then as_chat purge (parse_int rest)
    else if prefix == codes "off"
    then as_chat off (parse_int rest)
    else if prefix == codes "patkind"
    then (if (rest == codes "exact") || (rest == codes "prefix") then some (patkind rest) else none)
    else if prefix == codes "patdel"
    then parse_patdel (cut_colon rest)
    else none

abbrev pub parse_cut : Option (Text × Text) → Option Callback
parse_cut none = none
parse_cut (some (prefix, rest)) = parse_parts prefix rest

unfoldable pub parse_callback : Text → Option Callback
parse_callback text = parse_cut (cut_colon text)

-- The payloads that the menus put on their buttons.
abbrev pub kind_name : Kind → Text
kind_name chat = codes "chat"
kind_name ttl = codes "ttl"
kind_name ttlclear = codes "ttlclear"
kind_name pat = codes "pat"
kind_name patadd = codes "patadd"
kind_name purge = codes "purge"
kind_name off = codes "off"

unfoldable pub payload : Callback → Text
payload (page p) = codes "cfg:page:" ++ format_int p
payload (for_chat k m) = kind_name k ++ (codes ":" ++ format_int m)
payload (patkind arg) = codes "patkind:" ++ arg
payload (patdel m idx) = codes "patdel:" ++ (format_int m ++ (codes ":" ++ format_int idx))
