-- ===== src/Tgclient/Own/Scanning.antt =====
-- internal/tgclient/tgclient.go: the pages of ScanOwn, and whose messages they hold.
use langolier_bot.Base.{
  refl, ◌++◌, ℕ, zero, suc, Bool, true, false, Option, none, some, List, [], ◌∷◌, ◌≡◌, sym, subst,
  All, if◌then◌else◌, length, nat_beq, Bool-cases, inl, inr, ◌||◌, nat_eq,
}
use langolier_bot.Base.Int.{ℤ}
use langolier_bot.Base.Lists.{All-append}
use langolier_bot.Base.Text.{Text}
use langolier_bot.Base.Calls.{Answer, got, failed, Visit}
use langolier_bot.Tgclient.Group.{Group, input_peer}
use langolier_bot.Tgclient.Scan.{
  Message, message, service, empty, SearchRequest, search_page_limit, from_self, filter_empty,
  SearchResult, messages_of, visits_of, min_id_from, Page, finish, next, after_wait, read_page,
  scan_page,
}
use langolier_bot.Tgclient.Interface.{Gotd, scan_within}
use langolier_bot.Tgclient.Own.{IsProper, marked_of, IsOwnMessage, FindsOwn, Telegram}

module _ {G : Type 0} (gotd : Gotd G) (K : ℤ → ℕ → Type 0) (Good : G → Type 0)
    (telegram : Telegram gotd K Good) where
  abbrev pub OwnVisits : ℤ → List Visit → Type 0
  OwnVisits marked visits = All (λ (v : Visit). K marked v.0) visits

  visits_of-own :
      (marked : ℤ) (ms : List Message)
      → All (IsOwnMessage K marked) ms
      → OwnVisits marked (visits_of ms)
  unfolding visits_of
  visits_of-own marked [] h = tt
  visits_of-own marked (message id date ∷ ms) h = (h.0, visits_of-own marked ms h.1)
  visits_of-own marked (service id ∷ ms) h = visits_of-own marked ms h.1
  visits_of-own marked (empty id ∷ ms) h = visits_of-own marked ms h.1

  peer-marked : (g : Group) → IsProper g → marked_of (input_peer g) ≡ g.marked_id
  unfolding input_peer
  peer-marked g p = elim (Bool-cases g.is_channel) [
    | inl e ↦ rw (input_peer, e) (sym (rw e at p))
    | inr e ↦ rw (input_peer, e) (sym (rw e at p))
  ]

  abbrev PageOwn : ℤ → Page G → Type 0
  PageOwn marked (finish visits err w) = OwnVisits marked visits × Good w
  PageOwn marked (next visits min w) = OwnVisits marked visits × Good w

  by_test :
      (marked : ℤ) (b : Bool) (x y : Page G)
      → PageOwn marked x
      → PageOwn marked y
      → PageOwn marked (if b then x else y)
  by_test marked true x y hx hy = hx
  by_test marked false x y hx hy = hy

  after_wait-own :
      (marked : ℤ) (visits : List Visit) (min : ℕ) (r : Option Text × G)
      → OwnVisits marked visits
      → Good r.1
      → PageOwn marked (after_wait gotd.search gotd.wait visits min r)
  after_wait-own marked visits min (none, w) k h = (k, h)
  after_wait-own marked visits min (some e, w) k h = (k, h)

  read_page-own :
      (marked : ℤ) (offset : ℕ) (r : Answer SearchResult × G)
      → FindsOwn K marked r.0
      → Good r.1
      → PageOwn marked (read_page gotd.search gotd.wait offset r)
  read_page-own marked offset (failed e, w) k h = (tt, h)
  read_page-own marked offset (got res, w) k h =
      let own = visits_of-own marked (messages_of res) k in
      let min = min_id_from 0 (messages_of res) in
      by_test marked (nat_beq (length (messages_of res)) 0 || (nat_beq min 0 || nat_beq min offset))
        _ _ (own, h)
        (after_wait-own marked (visits_of (messages_of res)) min (gotd.wait w) own
          (telegram.wait_keeps w h))

  scan_page-own :
      (g : Group) (offset : ℕ) (w : G)
      → IsProper g
      → Good w
      → PageOwn g.marked_id (scan_page gotd.search gotd.wait g offset w)
  unfolding scan_page
  scan_page-own g offset w p h =
      let r : SearchRequest = record {
        peer = input_peer g;
        from_id = from_self;
        filter = filter_empty;
        limit = search_page_limit;
        offset_id = offset;
      } in
      read_page-own g.marked_id offset (gotd.search r w)
        (subst (λ j. FindsOwn K j (gotd.search r w).0) (peer-marked g p)
          (telegram.search_own r w refl h))
        (telegram.search_keeps r w h)

  -- What a scan returns.
  abbrev pub ScanOwned : ℤ → (List Visit × Option Text) × G → Type 0
  ScanOwned marked r = OwnVisits marked r.0.0 × Good r.1

  after_page :
      (pages : ℕ) (e : Text) (g : Group) (p : Page G)
      → PageOwn g.marked_id p
      → ((min : ℕ) (w : G) → Good w → ScanOwned g.marked_id (scan_within gotd pages e g min w))
      → ScanOwned g.marked_id (elim p [
        | finish visits err w' ↦ ((visits, err), w')
        | next visits min w' ↦
            let ((more, err), w'') = scan_within gotd pages e g min w' in
            ((visits ++ more, err), w'')
      ])
  after_page pages e g (finish visits err w) k rest = k
  after_page pages e g (next visits min w) k rest =
      let r = rest min w k.1 in
      (
        All-append (λ (v : Visit). K g.marked_id v.0) visits (scan_within gotd pages e g min w).0.0
            k.0 r.0,
        r.1,
      )

  pub scan_within-own :
      (pages : ℕ) (e : Text) (g : Group) (offset : ℕ) (w : G)
      → IsProper g
      → Good w
      → ScanOwned g.marked_id (scan_within gotd pages e g offset w)
  unfolding scan_within
  scan_within-own zero e g offset w p h = (tt, h)
  scan_within-own (suc pages) e g offset w p h =
      after_page pages e g (scan_page gotd.search gotd.wait g offset w)
        (scan_page-own g offset w p h) (λ min w' k. scan_within-own pages e g min w' p k)
