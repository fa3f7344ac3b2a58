-- ===== src/Bot/Callback/InRange.antt =====
-- internal/bot/bot.go: the chats that parseCallback reads are int64.
use langolier_bot.Base.{
  Bool, true, false, Option, none, some, ◌||◌, ◌==◌, list_eq, nat_eq, if◌then◌else◌,
}
use langolier_bot.Base.Int.{ℤ, InInt64}
use langolier_bot.Base.Text.{Text, codes, cut_colon, cut_prefix}
use langolier_bot.Base.Lists.{Holds}
use langolier_bot.Base.Decimal.{parse_int, parse_int-InInt64}
use langolier_bot.Bot.Callback.{
  Kind, chat, ttl, ttlclear, pat, patadd, purge, off, Callback, page, for_chat, patkind, patdel,
  as_page, as_chat, as_patdel, parse_page, parse_patdel, parse_parts, parse_cut, parse_callback,
}

-- The chat of a callback, where it has one, is an int64.
abbrev pub InRange : Callback → Type 0
InRange (page p) = Unit
InRange (for_chat k m) = InInt64 m
InRange (patkind arg) = Unit
InRange (patdel m idx) = InInt64 m

either :
    (b : Bool) (x y : Option Callback)
    → Holds InRange x
    → Holds InRange y
    → Holds InRange (if b then x else y)
either true x y hx hy = hx
either false x y hx hy = hy

as_page-InRange : (o : Option ℤ) → Holds InRange (as_page o)
as_page-InRange none = tt
as_page-InRange (some p) = tt

as_chat-InRange : (k : Kind) (o : Option ℤ) → Holds InInt64 o → Holds InRange (as_chat k o)
as_chat-InRange k none h = tt
as_chat-InRange k (some m) h = h

as_patdel-InRange : (o i : Option ℤ) → Holds InInt64 o → Holds InRange (as_patdel o i)
as_patdel-InRange none i h = tt
as_patdel-InRange (some m) none h = tt
as_patdel-InRange (some m) (some i) h = h

parse_page-InRange : (o : Option Text) → Holds InRange (parse_page o)
parse_page-InRange none = tt
parse_page-InRange (some n) = as_page-InRange (parse_int n)

parse_patdel-InRange : (o : Option (Text × Text)) → Holds InRange (parse_patdel o)
parse_patdel-InRange none = tt
parse_patdel-InRange (some (a, b)) =
    as_patdel-InRange (parse_int a) (parse_int b) (parse_int-InInt64 a)

parse_parts-InRange : (prefix rest : Text) → Holds InRange (parse_parts prefix rest)
unfolding parse_parts
parse_parts-InRange prefix rest =
    let of_chat = λ (k : Kind). as_chat-InRange k (parse_int rest) (parse_int-InInt64 rest) in
    either (prefix == codes "cfg") _ _ (parse_page-InRange (cut_prefix rest (codes "page:"))) (
      either (prefix == codes "chat") _ _ (of_chat chat) (
        either (prefix == codes "ttl") _ _ (of_chat ttl) (
          either (prefix == codes "ttlclear") _ _ (of_chat ttlclear) (
            either (prefix == codes "pat") _ _ (of_chat pat) (
              either (prefix == codes "patadd") _ _ (of_chat patadd) (
                either (prefix == codes "purge") _ _ (of_chat purge) (
                  either (prefix == codes "off") _ _ (of_chat off) (
                    either (prefix == codes "patkind") _ _
                      (either ((rest == codes "exact") || (rest == codes "prefix")) _ _ tt tt)
                      (either (prefix == codes "patdel") _ _ (parse_patdel-InRange (cut_colon rest))
                        tt)))))))))

parse_cut-InRange : (o : Option (Text × Text)) → Holds InRange (parse_cut o)
parse_cut-InRange none = tt
parse_cut-InRange (some (prefix, rest)) = parse_parts-InRange prefix rest

-- Whatever the payload of a button is, the chat that is read from it is an int64.
pub parse_callback-InRange : (text : Text) → Holds InRange (parse_callback text)
unfolding parse_callback
parse_callback-InRange text = parse_cut-InRange (cut_colon text)
