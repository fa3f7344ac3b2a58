-- ===== src/Tgclient/Scan/Complete.antt =====
-- internal/tgclient/tgclient.go: ScanOwn ends, and hands every own message to its callback once.
use langolier_bot.Base.{
  ℕ, zero, suc, ◌*◌, ◌≤◌, ◌<◌, true, none, some, List, [], ◌∷◌, ◌++◌, ◌≡◌, ◌≢◌, refl, sym, ◌∙◌, ap,
  length, ltb, nat_beq, if◌then◌else◌, take, drop, keep, All, All-append, arith, take-append-drop,
  length-drop, ◌⊎◌, inl, inr,
}
use mathlib.Core.List.{append_assoc}
use langolier_bot.Base.Calls.{Answer, got, Visit}
use langolier_bot.Tgclient.Group.{Group}
use langolier_bot.Tgclient.Scan.History.{
  Own, to_messages, IsHistory, min_id-All, min_id-le, IsHistory-positive, IsHistory-append,
}
use langolier_bot.Tgclient.Scan.{
  SearchResult, messages_slice, messages_of, SearchRequest, visits_of, min_id_from, Page, finish,
  next, scan_page, scan_loop, scan_own,
}

-- The messages with an id below the offset; offset 0 is no bound.
abbrev pub older : ℕ → List Own → List Own
older offset history =
    if nat_beq offset 0 then history else keep (λ (x : Own). ltb x.0 offset) history

-- Telegram's messages.search, as documented: the newest messages below the offset, up to the limit.
abbrev pub serve : {W : Type 0} → List Own → SearchRequest → W → Answer SearchResult × W
serve history r w = (
  got (messages_slice (length history) (to_messages (take r.limit (older r.offset_id history)))),
  w,
)

abbrev pub in_nanoseconds : List Own → List Visit
in_nanoseconds [] = []
in_nanoseconds ((id, date) ∷ xs) = (id, date * 1000000000) ∷ in_nanoseconds xs

visits_of-to_messages : (xs : List Own) → visits_of (to_messages xs) ≡ in_nanoseconds xs
unfolding visits_of
visits_of-to_messages [] = refl
visits_of-to_messages (x ∷ xs) = ap (λ t. (x.0, x.1 * 1000000000) ∷ t) (visits_of-to_messages xs)

in_nanoseconds-append :
    (xs ys : List Own) → in_nanoseconds (xs ++ ys) ≡ in_nanoseconds xs ++ in_nanoseconds ys
in_nanoseconds-append [] ys = refl
in_nanoseconds-append (x ∷ xs) ys =
    ap (λ t. (x.0, x.1 * 1000000000) ∷ t) (in_nanoseconds-append xs ys)

-- The two sides of an offset in a history.
abbrev Cut : ℕ → List Own → List Own → Type 0
Cut offset newer rest =
    (0 < offset) × All (λ (x : Own). offset ≤ x.0) newer × All (λ (x : Own). x.0 < offset) rest

keep-below :
    (offset : ℕ) (xs : List Own)
    → All (λ (x : Own). x.0 < offset) xs
    → keep (λ (x : Own). ltb x.0 offset) xs ≡ xs
keep-below offset [] h = refl
keep-below offset (x ∷ xs) h = ground (arith, keep-below offset xs h.1)

keep-cut :
    (offset : ℕ) (newer rest : List Own)
    → All (λ (x : Own). offset ≤ x.0) newer
    → All (λ (x : Own). x.0 < offset) rest
    → keep (λ (x : Own). ltb x.0 offset) (newer ++ rest) ≡ rest
keep-cut offset [] rest h k = keep-below offset rest k
keep-cut offset (x ∷ newer) rest h k = ground (arith, keep-cut offset newer rest h.1 k)

older-Cut :
    (offset : ℕ) (newer rest : List Own)
    → Cut offset newer rest
    → older offset (newer ++ rest) ≡ rest
older-Cut offset newer rest (p, h, k) = ground (arith, keep-cut offset newer rest h k)

-- The smallest id of the first page of what is left cuts the rest off.
page-Cut :
    (x : Own) (xs rest : List Own)
    → IsHistory (x ∷ (xs ++ rest))
    → Cut (min_id_from 0 (to_messages (x ∷ xs))) (x ∷ xs) rest
unfolding min_id_from
page-Cut x xs rest h =
    let (below, page, behind) = IsHistory-append (x ∷ xs) rest h in
    let positive = IsHistory-positive (x ∷ xs) page in
    let (le, all) = min_id-le x.0 xs positive.0 positive.1 in
    (
      min_id-All (λ k. 0 < k) x.0 xs positive.0 positive.1,
      (le, all),
      min_id-All (λ k. All (λ (y : Own). y.0 < k) rest) x.0 xs below.0 below.1,
    )

abbrev Bound : ℕ → List Own → List Own → Type 0
Bound offset newer rest = ((offset ≡ 0) × (newer ≡ [])) ⊎ Cut offset newer rest

All-le :
    (m n : ℕ) (xs : List Own)
    → m ≤ n
    → All (λ (x : Own). n ≤ x.0) xs
    → All (λ (x : Own). m ≤ x.0) xs
All-le m n [] le h = tt
All-le m n (x ∷ xs) le h = (omega arith, All-le m n xs le h.1)

older-Bound :
    (offset : ℕ) (newer rest : List Own)
    → Bound offset newer rest
    → older offset (newer ++ rest) ≡ rest
older-Bound offset newer rest (inl (z, n)) = rw (z, n) refl
older-Bound offset newer rest (inr c) = older-Cut offset newer rest c

module _ {W : Type 0} (g : Group) (w : W) where
  -- A server that never fails, over a history that does not change, and a context that stays alive.
  abbrev page_at : List Own → ℕ → Page W
  page_at history offset = scan_page (serve history) (λ w'. (none, w')) g offset w

  empty_page :
      (history : List Own) (offset : ℕ)
      → older offset history ≡ []
      → page_at history offset ≡ finish [] none w
  unfolding scan_page messages_of visits_of
  empty_page history offset e = rw e refl

  full_page :
      (history : List Own) (offset : ℕ) (x : Own) (xs : List Own) (m : ℕ)
      → older offset history ≡ x ∷ xs
      → m ≡ min_id_from 0 (to_messages (x ∷ take 99 xs))
      → 0 < m
      → m ≢ offset
      → page_at history offset ≡ next (in_nanoseconds (x ∷ take 99 xs)) m w
  unfolding scan_page messages_of
  full_page history offset x xs m e q p n =
      rw e (ground (arith, visits_of-to_messages (x ∷ take 99 xs)))

  new-Bound :
      (offset m : ℕ) (newer : List Own) (x : Own) (page rest : List Own)
      → Bound offset newer (x ∷ (page ++ rest))
      → Cut m (x ∷ page) rest
      → (m ≢ offset) × Cut m (newer ++ x ∷ page) rest
  new-Bound offset m newer x page rest (inl (z, n)) (p, h, k) = (omega arith, (p, rw n h, k))
  new-Bound offset m newer x page rest (inr (p', h', k')) (p, h, k) = (
    omega arith,
    (
      p,
      All-append (λ (y : Own). m ≤ y.0) newer (x ∷ page) (All-le m offset newer (omega arith) h') h,
      k,
    ),
  )

  scan_loop-rest :
      (fuel : ℕ) (history newer rest : List Own) (offset : ℕ)
      → history ≡ newer ++ rest
      → IsHistory rest
      → Bound offset newer rest
      → length rest < fuel
      → scan_loop (serve history) (λ w'. (none, w')) fuel g offset w
        ≡ some ((in_nanoseconds rest, none), w)
  unfolding scan_loop
  scan_loop-rest zero history newer rest offset e h b f = absurd (omega arith)
  scan_loop-rest (suc fuel) history newer [] offset e h b f =
      rw (empty_page history offset (rw e (older-Bound offset newer [] b)), scan_loop) refl
  scan_loop-rest (suc fuel) history newer (x ∷ xs) offset e h b f =
      let page = take 99 xs in
      let behind = drop 99 xs in
      let m = min_id_from 0 (to_messages (x ∷ page)) in
      let whole : page ++ behind ≡ xs = take-append-drop 99 xs in
      let cut = page-Cut x page behind (rw whole h) in
      let (moved, bound) = new-Bound offset m newer x page behind (rw whole b) cut in
      let regroup : history ≡ (newer ++ x ∷ page) ++ behind =
        e ∙ sym (append_assoc newer (x ∷ page) behind ∙ ap (λ t. newer ++ x ∷ t) whole) in
      let rest_history = (IsHistory-append (x ∷ page) behind (rw whole h)).2 in
      let ih =
        scan_loop-rest fuel history (newer ++ x ∷ page) behind m regroup rest_history (inr bound)
          (omega (arith, length-drop 99 xs)) in
      rw
        (
          full_page history offset x xs m (rw e (older-Bound offset newer (x ∷ xs) b)) refl cut.0
              moved,
          scan_loop,
          ih,
        )
        (ap (λ (t : List Visit). some (((x.0, x.1 * 1000000000) ∷ t, none), w))
          (sym (in_nanoseconds-append page behind) ∙ ap in_nanoseconds whole))

  -- Over a history of own messages that does not change, with a server that answers as Telegram
  -- documents and as many rounds as there are messages and one more, the scan ends without an error
  -- and has handed every message to its callback once, newest first, with its time.
  pub scan_own_complete :
      (history : List Own) (fuel : ℕ)
      → IsHistory history
      → length history < fuel
      → scan_own (serve history) (λ w'. (none, w')) fuel true g w
        ≡ some ((in_nanoseconds history, none), w)
  unfolding scan_own
  scan_own_complete history fuel h f =
      scan_loop-rest fuel history [] history 0 refl h (inl (refl, refl)) f
