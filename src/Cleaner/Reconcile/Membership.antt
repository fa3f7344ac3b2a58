-- ===== src/Cleaner/Reconcile/Membership.antt =====
-- internal/cleaner/cleaner.go: what Reconcile makes of the set of the maintained chats, which drains
-- it starts, and that doing it again changes nothing.
use langolier_bot.Base.{
  ℕ, Bool, true, false, not, ◌&&◌, ◌||◌, none, List, [], ◌∷◌, ◌≡◌, refl, arith, if◌then◌else◌, ◌==◌,
  contains, nat_eq,
}
use langolier_bot.Base.Int.{ℤ, pos, int_eq, int_beq_iff, ltb_ℤ}
use langolier_bot.Base.Maps.{lookup, keys}
use langolier_bot.Chatcfg.Config.{ttl}
use langolier_bot.Chatcfg.Store.{Store, get}
use langolier_bot.Tgclient.Group.{Group}
use langolier_bot.Base.Calls.{got}
use langolier_bot.Cleaner.Env.{Tg}
use langolier_bot.Cleaner.State.{Cleaner, Chats, Spawn, is_active}
use langolier_bot.Cleaner.Lookup.{sent_at}
use langolier_bot.Cleaner.Reconcile.{
  ReconcileResult, no_result, mem, present_of, watch_of, Progress, reconcile_chat, reconcile_chats,
  reconcile, sorted, sort_strings,
}
use langolier_bot.Cleaner.Reconcile.Watch.{
  is_among, is_wanted, starts, starts-append, mem-present_of, contains-watch_of,
  is_active-mark_active, is_active-disable_chat, sent_at-disable_chat, index-mark_active,
}

module _ {W : Type 0} (tg : Tg W) (cfg : Store) (present : Chats) (w : W) where
  -- What the loop makes of one chat.
  abbrev positive : ℤ → Bool
  positive j = ltb_ℤ (pos 0) (ttl (get cfg j))

  active-step :
      (m j : ℤ) (p : Progress)
      → is_active j (reconcile_chat tg cfg present w m p).0
        ≡ (if m == j then mem present j && (is_active j p.0 || positive j) else is_active j p.0)
  unfolding reconcile_chat
  active-step m j (c, res, s) =
      ground (arith, int_beq_iff m j, is_active-mark_active m j c, is_active-disable_chat m j c)

  active-loop :
      (chats : List ℤ) (j : ℤ) (p : Progress)
      → is_active j (reconcile_chats tg cfg present w chats p).0 ≡ (
          if contains chats j
          then mem present j && (is_active j p.0 || positive j)
          else is_active j p.0)
  unfolding reconcile_chats
  active-loop [] j p = refl
  active-loop (m ∷ chats) j p =
      ground (arith, active-loop chats j (reconcile_chat tg cfg present w m p), active-step m j p)

  starts-step :
      (m j : ℤ) (p : Progress)
      → starts (reconcile_chat tg cfg present w m p).2 j
        ≡ (starts p.2 j || ((m == j) && (not (is_active j p.0) && (mem present j && positive j))))
  unfolding reconcile_chat
  starts-step m j (c, res, s) = ground (arith, int_beq_iff m j, starts-append s m j)

  starts-loop :
      (chats : List ℤ) (j : ℤ) (p : Progress)
      → starts (reconcile_chats tg cfg present w chats p).2 j ≡ (
          starts p.2 j
          || (contains chats j && (not (is_active j p.0) && (mem present j && positive j))))
  unfolding reconcile_chats
  starts-loop [] j p = ground arith
  starts-loop (m ∷ chats) j p = ground (
    arith,
    starts-loop chats j (reconcile_chat tg cfg present w m p),
    starts-step m j p,
    active-step m j p,
  )

  sent_at-step :
      (m j : ℤ) (p : Progress) (id : ℕ)
      → sent_at (reconcile_chat tg cfg present w m p).0.index j id ≡ (
          if (m == j) && (is_active j p.0 && not (mem present j))
          then none
          else sent_at p.0.index j id)
  unfolding reconcile_chat
  sent_at-step m j (c, res, s) id =
      ground (arith, int_beq_iff m j, sent_at-disable_chat m j c id, index-mark_active m c)

  sent_at-loop :
      (chats : List ℤ) (j : ℤ) (p : Progress) (id : ℕ)
      → sent_at (reconcile_chats tg cfg present w chats p).0.index j id ≡ (
          if contains chats j && (is_active j p.0 && not (mem present j))
          then none
          else sent_at p.0.index j id)
  unfolding reconcile_chats
  sent_at-loop [] j p id = refl
  sent_at-loop (m ∷ chats) j p id = ground (
    arith,
    sent_at-loop chats j (reconcile_chat tg cfg present w m p) id,
    sent_at-step m j p id,
    active-step m j p,
  )

  -- The loop has nothing to do for this chat.
  abbrev IsQuiet : Cleaner → ℤ → Type 0
  IsQuiet c m =
      ((is_active m c && not (mem present m)) ≡ false)
      × ((not (is_active m c) && (mem present m && positive m)) ≡ false)

  quiet-step :
      (m : ℤ) (c : Cleaner) (res : ReconcileResult) (s : List Spawn)
      → IsQuiet c m
      → reconcile_chat tg cfg present w m (c, res, s) ≡ (c, res, s)
  unfolding reconcile_chat
  quiet-step m c res s (q, r) = ground arith

  quiet-loop :
      (chats : List ℤ) (c : Cleaner) (res : ReconcileResult) (s : List Spawn)
      → ((m : ℤ) → contains chats m ≡ true → IsQuiet c m)
      → reconcile_chats tg cfg present w chats (c, res, s) ≡ (c, res, s)
  unfolding reconcile_chats
  quiet-loop [] c res s h = refl
  quiet-loop (m ∷ chats) c res s h =
      rw (quiet-step m c res s (h m (ground (arith, int_beq_iff m m))))
        (quiet-loop chats c res s (λ k q. h k (ground arith)))

module _ {W : Type 0} (tg : Tg W) (cfg : Store) (c : Cleaner) (w w' : W) (groups : List Group)
    (listed : tg.resolve_groups w ≡ (got groups, w')) where
  abbrev present : Chats
  present = present_of groups []

  abbrev progress : Progress
  progress = reconcile_chats tg cfg present w' (keys (watch_of cfg c)) (c, no_result, [])

  reconcile-progress :
      reconcile tg cfg c w ≡ (got (sorted progress.1), (progress.0, progress.2), w')
  unfolding reconcile
  reconcile-progress = rw listed refl

  mem-present : (j : ℤ) → mem present j ≡ is_among groups j
  unfolding lookup
  mem-present j = ground (arith, mem-present_of groups [] j)

  progress-active :
      (j : ℤ) → is_active j progress.0 ≡ (is_among groups j && (is_active j c || is_wanted cfg j))
  progress-active j = ground (
    arith,
    active-loop tg cfg present w' (keys (watch_of cfg c)) j (c, no_result, []),
    contains-watch_of cfg c j,
    mem-present j,
  )

  -- After a Reconcile that could list the dialogs, a chat is maintained exactly if the account is in
  -- it and it was maintained before or is configured to be cleaned. A drain has been started for
  -- exactly those of them that were not maintained before. The messages of a maintained chat that the
  -- account is no longer in have left the index, and those of all other chats are as they were.
  pub reconcile-members :
      (j : ℤ) (id : ℕ)
      → let (c', spawned) = (reconcile tg cfg c w).1 in
        (is_active j c' ≡ (is_among groups j && (is_active j c || is_wanted cfg j)))
        × (starts spawned j ≡ (not (is_active j c) && (is_among groups j && is_wanted cfg j)))
        × (sent_at c'.index j id
            ≡ (if is_active j c && not (is_among groups j) then none else sent_at c.index j id))
  reconcile-members j id = rw reconcile-progress (
    progress-active j,
    ground (
      arith,
      starts-loop tg cfg present w' (keys (watch_of cfg c)) j (c, no_result, []),
      contains-watch_of cfg c j,
      mem-present j,
    ),
    ground (
      arith,
      sent_at-loop tg cfg present w' (keys (watch_of cfg c)) j (c, no_result, []) id,
      contains-watch_of cfg c j,
      mem-present j,
    ),
  )

  module _ (groups' : List Group) (w'' : W) (again : tg.resolve_groups w' ≡ (got groups', w''))
      (same : (j : ℤ) → is_among groups' j ≡ is_among groups j) where
    IsQuiet-again :
        (m : ℤ)
        → contains (keys (watch_of cfg progress.0)) m ≡ true
        → IsQuiet tg cfg (present_of groups' []) w'' progress.0 m
    unfolding lookup
    IsQuiet-again m q = (
      ground (arith, progress-active m, mem-present_of groups' [] m, same m),
      ground (
        arith,
        progress-active m,
        mem-present_of groups' [] m,
        same m,
        contains-watch_of cfg progress.0 m,
      ),
    )

    -- Reconciling again, while the account is in the same chats, reports nothing, starts nothing and
    -- changes nothing: only transitions produce entries in the result.
    pub reconcile-again :
        reconcile tg cfg (reconcile tg cfg c w).1.0 w'
        ≡ (got no_result, ((reconcile tg cfg c w).1.0, []), w'')
    unfolding reconcile sort_strings
    reconcile-again = rw reconcile-progress (
        rw
          (
            again,
            quiet-loop tg cfg (present_of groups' []) w'' (keys (watch_of cfg progress.0))
                progress.0 no_result [] IsQuiet-again,
          )
          refl)
