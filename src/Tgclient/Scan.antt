-- ===== src/Tgclient/Scan.antt =====
-- internal/tgclient/tgclient.go: ScanOwn. `search` stands for gotd's MessagesSearch, which asks for a
-- page of the account's own messages in a chat, and `wait` for the pause between two pages: it returns
-- the error of the context if that is done first.
pub mod History
pub mod Complete
use langolier_bot.Base.{
  ℕ, zero, suc, ◌*◌, ◌+◌, Bool, true, false, ◌||◌, Option, none, some, List, [], ◌∷◌, ◌++◌, length,
  ltb, nat_beq, if◌then◌else◌,
}
use langolier_bot.Base.Int.{ℤ, pos, negsuc}
use langolier_bot.Base.Text.{Text}
use langolier_bot.Base.Calls.{Answer, got, failed, Visit}
use langolier_bot.Tgclient.Group.{Group, InputPeer, input_peer}
use langolier_bot.Tgclient.Delete.{not_running}

-- tg.MessageClass, with the fields that the scan reads: the id, and the date in seconds.
pub data Message : Type 0 where
  message : ℕ → ℕ → Message
  service : ℕ → Message
  empty : ℕ → Message

-- tg.MessagesMessagesClass
pub data SearchResult : Type 0 where
  messages : List Message → SearchResult
  messages_slice : ℕ → List Message → SearchResult
  channel_messages : ℕ → List Message → SearchResult
  not_modified : SearchResult

unfoldable pub messages_of : SearchResult → List Message
messages_of (messages ms) = ms
messages_of (messages_slice count ms) = ms
messages_of (channel_messages count ms) = ms
messages_of not_modified = []

-- Only the log reads it.
unfoldable pub search_total : SearchResult → ℤ
search_total (messages ms) = pos (length ms)
search_total (messages_slice count ms) = pos count
search_total (channel_messages count ms) = pos count
search_total not_modified = negsuc 0

-- FromID: InputPeerSelf, or no sender.
pub data Sender : Type 0 where
  from_self : Sender
  from_anyone : Sender

-- Filter: InputMessagesFilterEmpty, or another one.
pub data Filter : Type 0 where
  filter_empty : Filter
  other_filter : Filter

pub record SearchRequest : Type 0 where
  pub peer : InputPeer
  pub from_id : Sender
  pub filter : Filter
  pub limit : ℕ
  pub offset_id : ℕ

abbrev pub search_page_limit : ℕ
search_page_limit = 100

-- The messages of a page that are given to the callback; time.Unix takes seconds.
unfoldable pub visits_of : List Message → List Visit
visits_of [] = []
visits_of (message id date ∷ ms) = (id, date * 1000000000) ∷ visits_of ms
visits_of (service id ∷ ms) = visits_of ms
visits_of (empty id ∷ ms) = visits_of ms

-- minID after the page
unfoldable pub min_id_from : ℕ → List Message → ℕ
min_id_from min [] = min
min_id_from min (message id date ∷ ms) =
    min_id_from (if nat_beq min 0 || ltb id min then id else min) ms
min_id_from min (service id ∷ ms) = min_id_from min ms
min_id_from min (empty id ∷ ms) = min_id_from min ms

-- What a page ends in: the return, or another page from an offset.
pub data Page (W : Type 0) : Type 0 where
  finish : List Visit → Option Text → W → Page W
  next : List Visit → ℕ → W → Page W

module _ {W : Type 0} (search : SearchRequest → W → Answer SearchResult × W)
    (wait : W → Option Text × W) where
  abbrev pub after_wait : List Visit → ℕ → Option Text × W → Page W
  after_wait visits min (some e, w) = finish visits (some e) w
  after_wait visits min (none, w) = next visits min w

  abbrev pub read_page : ℕ → Answer SearchResult × W → Page W
  read_page offset (failed e, w) = finish [] (some e) w
  read_page offset (got res, w) =
      let msgs = messages_of res in
      let min = min_id_from 0 msgs in
      if nat_beq (length msgs) 0 || (nat_beq min 0 || nat_beq min offset)
      then finish (visits_of msgs) none w
      else after_wait (visits_of msgs) min (wait w)

  unfoldable pub scan_page : Group → ℕ → W → Page W
  scan_page g offset w = read_page offset (
      search
        (record {
          peer = input_peer g;
          from_id = from_self;
          filter = filter_empty;
          limit = search_page_limit;
          offset_id = offset;
        })
        w)

  abbrev pub Scanned : Type 0
  Scanned = Option ((List Visit × Option Text) × W)

  abbrev pub prepend : List Visit → Scanned → Scanned
  prepend visits none = none
  prepend visits (some ((more, err), w)) = some ((visits ++ more, err), w)

  -- The loop, with fuel; `none` means that the fuel has run out.
  unfoldable pub scan_loop : ℕ → Group → ℕ → W → Scanned
  scan_loop zero g offset w = none
  scan_loop (suc fuel) g offset w = elim (scan_page g offset w) [
    | finish visits err w' ↦ some ((visits, err), w')
    | next visits min w' ↦ prepend visits (scan_loop fuel g min w')
  ]

  unfoldable pub scan_own : ℕ → Bool → Group → W → Scanned
  scan_own fuel false g w = some (([], some not_running), w)
  scan_own fuel true g w = scan_loop fuel g 0 w
