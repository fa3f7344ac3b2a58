-- ===== src/Bot/Handlers.antt =====
-- internal/bot/bot.go: onUpdate, onMessage and onCallback, and the changes of the configuration.
use langolier_bot.Base.{
  ℕ, Bool, true, false, ◌&&◌, ◌||◌, Option, none, some, [], ◌∷◌, ◌++◌, if◌then◌else◌, ◌==◌, list_eq,
  nat_eq,
}
use langolier_bot.Base.Int.{ℤ, pos, int_eq, int_beq, leb_ℤ, ltb_ℤ}
use langolier_bot.Base.Text.{Text, codes, is_empty, text_beq, trim_space}
use langolier_bot.Base.Decimal.{parse_int, format_int}
use langolier_bot.Chatcfg.Store.{
  Codec, Store, Error, Outcome, get, set_ttl, add_pattern, remove_pattern, disable,
}
use langolier_bot.Cleaner.State.{disable_chat}
use langolier_bot.Bot.Callback.{
  Callback, page, for_chat, patkind, patdel, chat, ttl, ttlclear, pat, patadd, purge, off,
  parse_callback,
}
use langolier_bot.Bot.State.{
  InputKind, input_none, input_phone, input_code, input_password, input_ttl, input_pattern, Bot,
  System, EditTarget, no_target, says, shows, erases, answers, waits, cleans_history, scans, Api,
  Handled, and_then, say, on_bot, clear_pending,
}
use langolier_bot.Bot.Commands.{
  group_title, show_chat_menu, show_pattern_menu, run_purge, cmd_config, cmd_start, cmd_stop,
  cmd_status,
}
use langolier_bot.Bot.Menus.{match_menu}

pub record Message : Type 0 where
  pub chat_id : ℤ
  pub id : ℕ
  pub text : Text

-- An update, with the id of its sender: the press of a button, with the id of the query, the message
-- of the button and its payload; a message; anything else, messages without a sender too.
pub data Update : Type 0 where
  query : ℤ → Text → EditTarget → Text → Update
  message : ℤ → Message → Update
  other : Update

module _ {W : Type 0} (codec : Codec) (api : Api W) where
  abbrev pub Handler : Type 0
  Handler = System W → Handled W

  -- A call of the store that writes: its error, and the system after it.
  abbrev pub stored : System W → Outcome → W → Option Error × System W
  stored s (store, e) w = (e, record s { cfg = store; world = w })

  abbrev pub write : (Store → Option Text → Outcome) → System W → Option Error × System W
  write op s = let (answer, w) = api.commit s.world in stored s (op s.cfg answer) w

  abbrev pub pattern_added : Text → Text → Option Error × System W → Handled W
  pattern_added kind value (some e, s) = say (codes "Add pattern failed: " ++ api.error_text e) s
  pattern_added kind value (none, s) =
      say (codes "Pattern added (" ++ (kind ++ (codes "): " ++ value))) s

  unfoldable pub finish_pattern : Text → Handler
  finish_pattern kind s =
      let marked = s.bot.convo_chat in
      let value = s.bot.stage_text in
      if int_beq marked (pos 0) || is_empty value
      then (s, [])
      else pattern_added kind value (
          write
            (λ store.
              add_pattern codec store marked
                (record { value = value; exact = text_beq kind (codes "exact") }))
            (on_bot clear_pending s))

  abbrev min_text : ℤ → ℤ → System W → Text
  min_text marked minutes s =
      codes "TTL set to " ++ (format_int minutes ++ (codes " min for " ++ group_title api s marked))

  abbrev pub ttl_applied : ℤ → ℤ → Bool → Option Error × System W → Handled W
  ttl_applied marked minutes first (some e, s) =
      say (codes "Set TTL failed: " ++ api.error_text e) s
  ttl_applied marked minutes first (none, s) =
      if ltb_ℤ (pos 0) minutes
      then (if first
          then (
            s,
            says (
                  min_text marked minutes s
                  ++ codes ". Cleaning history in passes, this can take a while…")
                ∷ cleans_history marked
                ∷ [],
          )
          else (
            s,
            says (min_text marked minutes s ++ codes ". Scanning history…") ∷ scans marked ∷ [],
          ))
      else say (codes "TTL cleared for " ++ (group_title api s marked ++ codes "."))
          (record s { cl = disable_chat marked s.cl })

  unfoldable pub apply_ttl : ℤ → ℤ → Handler
  apply_ttl marked minutes s =
      let first = ltb_ℤ (pos 0) minutes && leb_ℤ (get s.cfg marked).ttl_minutes (pos 0) in
      ttl_applied marked minutes first (write (λ store. set_ttl codec store marked minutes) s)

  abbrev pub pattern_removed : ℤ → EditTarget → Option Error × System W → Handled W
  pattern_removed marked target (some e, s) = say (codes "Remove failed: " ++ api.error_text e) s
  pattern_removed marked target (none, s) = show_pattern_menu api marked target s

  abbrev pub chat_disabled : ℤ → Option Error × System W → Handled W
  chat_disabled marked (some e, s) = say (codes "Disable failed: " ++ api.error_text e) s
  chat_disabled marked (none, s) =
      say (codes "Chat cleanup disabled.") (record s { cl = disable_chat marked s.cl })

  abbrev await : InputKind → ℤ → Bot → Bot
  await kind marked b = record b { pending = kind; convo_chat = marked }

  unfoldable pub on_parsed : EditTarget → Callback → Handler
  on_parsed target (page p) s = cmd_config api p target s
  on_parsed target (for_chat chat m) s = show_chat_menu api m target s
  on_parsed target (for_chat ttl m) s =
      say (codes "Send the message TTL in minutes for this chat (0 disables it):")
        (on_bot (await input_ttl m) s)
  on_parsed target (for_chat ttlclear m) s = apply_ttl m (pos 0) s
  on_parsed target (for_chat pat m) s = show_pattern_menu api m target s
  on_parsed target (for_chat patadd m) s =
      say (codes "Send the pattern text:") (on_bot (await input_pattern m) s)
  on_parsed target (for_chat purge m) s = run_purge api m s
  on_parsed target (for_chat off m) s = chat_disabled m (write (λ store. disable store m) s)
  on_parsed target (patkind arg) s = finish_pattern arg s
  on_parsed target (patdel m idx) s =
      pattern_removed m target (write (λ store. remove_pattern codec store m idx) s)

  unfoldable pub on_callback : Text → EditTarget → Text → Handler
  on_callback id target text s =
      and_then (s, answers id ∷ [])
        (λ t. elim (parse_callback text) [ none ↦ (t, []) | some c ↦ on_parsed target c t ])

  unfoldable pub on_command : Text → Handler
  on_command text s =
      if text == codes "/start"
      then cmd_start s
      else if text == codes "/stop"
      then cmd_stop api s
      else if text == codes "/config"
      then cmd_config api (pos 0) no_target s
      else if text == codes "/status"
      then cmd_status api s
      else say (codes "Commands: /start /stop /config /status") s

  -- The reply goes to the channel, if there is one; `true` means that the handler goes on.
  abbrev pub deliver : Text → Option (Option Text) → Bot → Bot × Bool
  deliver text none b = (b, true)
  deliver text (some none) b = (record b { auth_reply = some (some text) }, true)
  deliver text (some (some v)) b = (b, false)

  abbrev pub delivered : Message → Text → Bool → System W → Bot × Bool → Handled W
  delivered msg text secret s (b, true) =
      (record s { bot = b }, (if secret then erases msg.chat_id msg.id ∷ [] else []))
  delivered msg text secret s (b, false) = (s, waits text ∷ [])

  unfoldable pub on_reply : Message → Text → Bool → Handler
  on_reply msg text secret s = delivered msg text secret s (deliver text s.bot.auth_reply s.bot)

  abbrev bad_number : Handler
  bad_number = say (codes "Send a non-negative integer number of minutes (0 disables TTL).")

  unfoldable pub on_minutes : Text → Handler
  on_minutes text s = elim (parse_int text) [
    | none ↦ bad_number s
    | some n ↦
        if ltb_ℤ n (pos 0)
        then bad_number s
        else apply_ttl s.bot.convo_chat n (on_bot clear_pending s)
  ]

  unfoldable pub on_pattern_text : Text → Handler
  on_pattern_text text s = if is_empty text then say (codes "Pattern must not be empty.") s else (
    on_bot (λ b. record b { stage_text = text }) s,
    shows (codes "Match type for " ++ (api.quote text ++ codes "?")) (match_menu s.bot.convo_chat)
        ∷ [],
  )

  -- The switch of onMessage
  unfoldable pub on_text : InputKind → Message → Text → Handler
  on_text input_none msg text s = on_command text s
  on_text input_phone msg text s = on_reply msg text false s
  on_text input_code msg text s = on_reply msg text true s
  on_text input_password msg text s = on_reply msg text true s
  on_text input_ttl msg text s = on_minutes text s
  on_text input_pattern msg text s = on_pattern_text text s

  unfoldable pub on_message : Message → Handler
  on_message msg s = on_text s.bot.pending msg (trim_space msg.text) s

  unfoldable pub on_update : Update → Handler
  on_update (query sender id target text) s =
      if int_beq sender s.bot.owner_id then on_callback id target text s else (s, [])
  on_update (message sender msg) s =
      if int_beq sender s.bot.owner_id then on_message msg s else (s, [])
  on_update other s = (s, [])
