-- ===== src/Tgclient/Own/Guarding.antt =====
-- internal/tgclient/tgclient.go: what the client promises to the cleaner, if Telegram keeps its word.
use langolier_bot.Base.{
  ℕ, Bool, true, false, Option, none, List, [], ◌∷◌, sym, subst, All, Bool-cases, inl, inr, arith,
}
use langolier_bot.Base.Int.{ℤ}
use langolier_bot.Base.Lists.{All-flatten}
use langolier_bot.Base.Text.{Text}
use langolier_bot.Base.Calls.{Answer, got, failed}
use langolier_bot.Tgclient.Group.{Group, Elem}
use langolier_bot.Tgclient.Resolve.{Groups, eligible, resolved, resolve_groups}
use langolier_bot.Tgclient.Delete.{
  request, chunk_ints, delete_batch, delete_chunks, delete, after_chunk,
}
use langolier_bot.Tgclient.Delete.Batches.{chunk_ints-flatten}
use langolier_bot.Tgclient.Interface.{Gotd, Session, client, scan_session}
use langolier_bot.Tgclient.Own.{IsProper, AsksOwn, Telegram}
use langolier_bot.Tgclient.Own.Chats.{IsChecked, eligible-IsProper, cache_groups-IsChecked}
use langolier_bot.Tgclient.Own.Scanning.{ScanOwned, scan_within-own}
use langolier_bot.Cleaner.Env.{Host}
use langolier_bot.Cleaner.Own.Requests.{Guards}

module _ {G : Type 0} (gotd : Gotd G) (K : ℤ → ℕ → Type 0) (Good : G → Type 0)
    (telegram : Telegram gotd K Good) where
  request-AsksOwn :
      (g : Group) (chunk : List ℕ)
      → IsProper g
      → All (K g.marked_id) chunk
      → AsksOwn K (request g chunk)
  request-AsksOwn g chunk p k = elim (Bool-cases g.is_channel) [
    | inl e ↦ rw e (subst (λ j. All (K j) chunk) (rw e at p) k)
    | inr e ↦ rw e (g.raw_id, subst (λ j. All (K j) chunk) (rw e at p) k)
  ]

  delete_chunks-keeps :
      (g : Group) (chunks : List (List ℕ)) (acc : List ℕ × Option Text) (w : G)
      → IsProper g
      → All (All (K g.marked_id)) chunks
      → Good w
      → Good (delete_chunks gotd.rpc g chunks acc w).1
  unfolding delete_chunks
  delete_chunks-keeps g [] acc w p k h = h
  delete_chunks-keeps g (chunk ∷ chunks) acc w p k h =
      let (e, w') = gotd.rpc (request g chunk) w in
      delete_chunks-keeps g chunks (after_chunk acc.0 acc.1 chunk e) w' p k.1
        (telegram.rpc_keeps (request g chunk) w (request-AsksOwn g chunk p k.0) h)

  delete-keeps :
      (running : Bool) (g : Group) (ids : List ℕ) (w : G)
      → IsProper g
      → All (K g.marked_id) ids
      → Good w
      → Good (delete gotd.rpc running g ids w).1
  unfolding delete
  delete-keeps true g ids w p k h =
      delete_chunks-keeps g (chunk_ints ids delete_batch) ([], none) w p
        (All-flatten (K g.marked_id) (chunk_ints ids delete_batch) (
          subst (All (K g.marked_id)) (sym (chunk_ints-flatten ids delete_batch (omega arith)).0)
            k))
        h
  delete-keeps false g ids w p k h = h

  scanned :
      (running : Bool) (g : Group) (w : G)
      → IsProper g
      → Good w
      → ScanOwned gotd K Good telegram g.marked_id (scan_session gotd running g w)
  scanned true g w p h =
      let (pages, e) = gotd.patience w in scan_within-own gotd K Good telegram pages e g 0 w p h
  scanned false g w p h = (tt, h)

  -- The server is good, and the client knows chats under their marked ids.
  abbrev pub GoodSession : Session G → Type 0
  GoodSession s = Good s.server × IsChecked s.groups

  resolved-good :
      (cache : Groups) (r : Answer (List Elem) × G)
      → Good r.1
      → IsChecked cache
      → let q = resolved gotd.dialogs cache r in Good q.2 × IsChecked q.1
  resolved-good cache (failed e, w) h k = (h, k)
  resolved-good cache (got es, w) h k =
      (h, cache_groups-IsChecked (eligible es) cache (eligible-IsProper es) k)

  resolve_groups-good :
      (running : Bool) (cache : Groups) (w : G)
      → Good w
      → IsChecked cache
      → let q = resolve_groups gotd.dialogs running cache w in Good q.2 × IsChecked q.1
  unfolding resolve_groups
  resolve_groups-good true cache w h k =
      resolved-good cache (gotd.dialogs w) (telegram.dialogs_keep w h) k
  resolve_groups-good false cache w h k = (h, k)

  pub client-Guards :
      (host : Host (Session G))
      → ((d : ℕ) (s : Session G) → GoodSession s → GoodSession (host.wait d s).1)
      → Guards (client gotd) host K IsProper GoodSession
  client-Guards host waits = record {
    names = λ s marked g h e. h.1 marked g e;
    scans = λ g s p h. (scanned s.running g s.server p h.0).0;
    scan_keeps = λ g s p h. ((scanned s.running g s.server p h.0).1, h.1);
    deletes_keep = λ g ids s p k h. (delete-keeps s.running g ids s.server p k h.0, h.1);
    resolve_keeps = λ s h. resolve_groups-good s.running s.groups s.server h.0 h.1;
    wait_keeps = waits;
  }
