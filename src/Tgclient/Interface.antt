-- ===== src/Tgclient/Interface.antt =====
-- internal/tgclient/tgclient.go: the client as what internal/cleaner/cleaner.go calls TG.
use langolier_bot.Base.{
  zero, suc, none, ◌++◌, ◌∙◌, ℕ, Bool, true, false, Option, some, List, [], ◌≡◌, refl, ap, contains,
  nat_eq,
}
use langolier_bot.Base.Text.{Text}
use langolier_bot.Base.Calls.{Answer, Visit}
use langolier_bot.Tgclient.Group.{Group, Elem, message_link}
use langolier_bot.Tgclient.Resolve.{Groups, group, resolve_groups}
use langolier_bot.Tgclient.Delete.{DeleteRequest, delete, not_running}
use langolier_bot.Tgclient.Delete.Batches.{delete-Accounts}
use langolier_bot.Tgclient.Scan.{
  SearchRequest, SearchResult, Page, finish, next, scan_page, scan_loop, prepend,
}
use langolier_bot.Cleaner.Env.{Tg, FailsWithin}

-- The calls of gotd, on the state `G` of the server; and, for a scan that begins, after how many pages
-- its context is done, if the scan has not ended before, and with which error.
pub record Gotd (G : Type 0) : Type 0 where
  pub dialogs : G → Answer (List Elem) × G
  pub search : SearchRequest → G → Answer SearchResult × G
  pub wait : G → Option Text × G
  pub rpc : DeleteRequest → G → Option Text × G
  pub patience : G → ℕ × Text

pub record Session (G : Type 0) : Type 0 where
  pub running : Bool
  pub groups : Groups
  pub server : G

module _ {G : Type 0} (gotd : Gotd G) where
  -- The loop of ScanOwn, whose context is done after some pages.
  unfoldable pub scan_within : ℕ → Text → Group → ℕ → G → (List Visit × Option Text) × G
  scan_within zero e g offset w = (([], some e), w)
  scan_within (suc pages) e g offset w = elim (scan_page gotd.search gotd.wait g offset w) [
    | finish visits err w' ↦ ((visits, err), w')
    | next visits min w' ↦
        let ((more, err), w'') = scan_within pages e g min w' in ((visits ++ more, err), w'')
  ]

  abbrev pub answered {ℓ} : {A : Type ℓ} → Session G → A × G → A × Session G
  answered s (a, w) = (a, record s { server = w })

  abbrev pub cached : Session G → Answer (List Group) × Groups × G → Answer (List Group) × Session G
  cached s (a, groups, w) = (a, record s { groups = groups; server = w })

  abbrev pub scan_session : Bool → Group → G → (List Visit × Option Text) × G
  scan_session false g w = (([], some not_running), w)
  scan_session true g w = let (pages, e) = gotd.patience w in scan_within pages e g 0 w

  abbrev pub client : Tg (Session G)
  client = record {
    group = λ s marked. group s.groups marked;
    resolve_groups = λ s. cached s (resolve_groups gotd.dialogs s.running s.groups s.server);
    scan_own = λ g s. answered s (scan_session s.running g s.server);
    delete = λ g ids s. answered s (delete gotd.rpc s.running g ids s.server);
    message_link = message_link;
  }

  fails_within :
      (running : Bool) (g : Group) (ids : List ℕ) (w : G) (id : ℕ)
      → contains (delete gotd.rpc running g ids w).0.0 id ≡ true
      → contains ids id ≡ true
  unfolding delete
  fails_within true g ids w id h = (delete-Accounts gotd.rpc g ids w).0 id h
  fails_within false g ids w id h = cc

  -- The client keeps what the cleaner's interface asks for.
  client-FailsWithin : FailsWithin client
  client-FailsWithin g ids s id h = fails_within s.running g ids s.server id h

  prepended :
      (visits : List Visit) (o : Option ((List Visit × Option Text) × G))
      (r : (List Visit × Option Text) × G)
      → prepend gotd.search gotd.wait visits o ≡ some r
      → (q : (List Visit × Option Text) × G) × (o ≡ some q) × (((visits ++ q.0.0, q.0.1), q.1) ≡ r)
  prepended visits none r h = absurd cc
  prepended visits (some q) r h = (q, refl, cc)

  page_within :
      (fuel : ℕ) (e : Text) (g : Group) (p : Page G) (r : (List Visit × Option Text) × G)
      → ((min : ℕ) (w : G) (q : (List Visit × Option Text) × G)
          → scan_loop gotd.search gotd.wait fuel g min w ≡ some q
          → scan_within fuel e g min w ≡ q)
      → elim p [
        | finish visits err w' ↦ some ((visits, err), w')
        | next visits min w' ↦
            prepend gotd.search gotd.wait visits (scan_loop gotd.search gotd.wait fuel g min w')
      ]
        ≡ some r
      → elim p [
        | finish visits err w' ↦ ((visits, err), w')
        | next visits min w' ↦
            let ((more, err), w'') = scan_within fuel e g min w' in ((visits ++ more, err), w'')
      ]
        ≡ r
  page_within fuel e g (finish visits err w) r ih h = cc
  page_within fuel e g (next visits min w) r ih h =
      let (q, found, whole) = prepended visits (scan_loop gotd.search gotd.wait fuel g min w) r h in
      ap (λ (x : (List Visit × Option Text) × G). ((visits ++ x.0.0, x.0.1), x.1))
        (ih min w q found)
      ∙ whole

  -- A scan that ends within the patience of its context is that of ScanOwn.
  scan_loop-within :
      (fuel : ℕ) (e : Text) (g : Group) (offset : ℕ) (w : G) (r : (List Visit × Option Text) × G)
      → scan_loop gotd.search gotd.wait fuel g offset w ≡ some r
      → scan_within fuel e g offset w ≡ r
  unfolding scan_loop scan_within
  scan_loop-within zero e g offset w r h = absurd cc
  scan_loop-within (suc fuel) e g offset w r h =
      page_within fuel e g (scan_page gotd.search gotd.wait g offset w) r
        (λ min w' q k. scan_loop-within fuel e g min w' q k) h
