-- ===== src/Cleaner/Own/Reconciling.antt =====
-- internal/cleaner/cleaner.go: Reconcile, which forgets chats and starts drains.
use langolier_bot.Base.{Bool, true, false, not, ◌&&◌, List, [], ◌∷◌, ℕ, if◌then◌else◌}
use langolier_bot.Base.Int.{ℤ, pos, ltb_ℤ, int_eq}
use langolier_bot.Base.Lists.{All, All-append}
use langolier_bot.Base.Maps.{keys}
use langolier_bot.Base.Calls.{Answer, got, failed}
use langolier_bot.Chatcfg.Config.{ttl}
use langolier_bot.Chatcfg.Store.{Store, get}
use langolier_bot.Tgclient.Group.{Group}
use langolier_bot.Cleaner.Env.{Tg}
use langolier_bot.Cleaner.State.{
  Cleaner, Chats, mark_active, disable_chat, is_active, Spawn, deletes, drains,
}
use langolier_bot.Cleaner.Reconcile.{
  Progress, ReconcileResult, mem, present_of, watch_of, no_result, reconcile_chat, reconcile_chats,
  reconcile_with, reconcile,
}
use langolier_bot.Cleaner.Own.{IsOwn, disable_chat-IsOwn}

-- What has been started is no deletion of given messages.
abbrev pub DeletesNothing : Spawn → Type 0
DeletesNothing (deletes marked ids) = ⊥
DeletesNothing other = Unit

-- A property of the cleaner that Reconcile leaves alone.
pub record Withstands (I : Cleaner → Type 0) : Type 0 where
  pub forgets : (marked : ℤ) (c : Cleaner) → I c → I (disable_chat marked c)
  pub marks : (marked : ℤ) (c : Cleaner) → I c → I (mark_active marked c)

module _ {W : Type 0} (tg : Tg W) (I : Cleaner → Type 0) (stands : Withstands I) where
  abbrev Fine : Progress → Type 0
  Fine p = I p.0 × All DeletesNothing p.2

  by_test : (b : Bool) (p q : Progress) → Fine p → Fine q → Fine (if b then p else q)
  by_test true p q hp hq = hp
  by_test false p q hp hq = hq

  reconcile_chat-Fine :
      (cfg : Store) (present : Chats) (w : W) (marked : ℤ) (p : Progress)
      → Fine p
      → Fine (reconcile_chat tg cfg present w marked p)
  unfolding reconcile_chat
  reconcile_chat-Fine cfg present w marked (c, res, spawned) h =
      by_test (is_active marked c && not (mem present marked)) _ _
        (stands.forgets marked c h.0, h.1)
        (by_test
          (not (is_active marked c) && (mem present marked && ltb_ℤ (pos 0) (ttl (get cfg marked))))
          _ _
          (
            stands.marks marked c h.0,
            All-append DeletesNothing spawned (drains marked ∷ []) h.1 (tt, tt),
          )
          h)

  reconcile_chats-Fine :
      (cfg : Store) (present : Chats) (w : W) (chats : List ℤ) (p : Progress)
      → Fine p
      → Fine (reconcile_chats tg cfg present w chats p)
  unfolding reconcile_chats
  reconcile_chats-Fine cfg present w [] p h = h
  reconcile_chats-Fine cfg present w (marked ∷ chats) p h =
      reconcile_chats-Fine cfg present w chats (reconcile_chat tg cfg present w marked p)
        (reconcile_chat-Fine cfg present w marked p h)

  abbrev FineAfter : Answer ReconcileResult × (Cleaner × List Spawn) × W → Type 0
  FineAfter r = I r.1.0 × All DeletesNothing r.1.1

  reconcile_with-Fine :
      (cfg : Store) (c : Cleaner) (r : Answer (List Group) × W)
      → I c
      → FineAfter (reconcile_with tg cfg c r)
  reconcile_with-Fine cfg c (failed e, w) h = (h, tt)
  reconcile_with-Fine cfg c (got groups, w) h =
      reconcile_chats-Fine cfg (present_of groups []) w (keys (watch_of cfg c)) (c, no_result, [])
        (h, tt)

  pub reconcile-Fine : (cfg : Store) (c : Cleaner) (w : W) → I c → FineAfter (reconcile tg cfg c w)
  unfolding reconcile
  reconcile-Fine cfg c w h = reconcile_with-Fine cfg c (tg.resolve_groups w) h

  -- The world that Reconcile leaves is that of ResolveGroups.
  reconcile_with-world :
      (cfg : Store) (c : Cleaner) (r : Answer (List Group) × W)
      → (Good : W → Type 0) → Good r.1
      → Good (reconcile_with tg cfg c r).2
  reconcile_with-world cfg c (failed e, w) Good h = h
  reconcile_with-world cfg c (got groups, w) Good h = h

  pub reconcile-world :
      (cfg : Store) (c : Cleaner) (w : W) (Good : W → Type 0)
      → Good (tg.resolve_groups w).1
      → Good (reconcile tg cfg c w).2
  unfolding reconcile
  reconcile-world cfg c w Good h = reconcile_with-world cfg c (tg.resolve_groups w) Good h

module _ (K : ℤ → ℕ → Type 0) where
  pub IsOwn-Withstands : Withstands (λ c. IsOwn K c.index)
  unfolding mark_active
  IsOwn-Withstands = record {
    forgets = λ marked c h. disable_chat-IsOwn K marked c h;
    marks = λ marked c h. h;
  }

pub reconcile-DeletesNothing :
    {W : Type 0} (tg : Tg W) (cfg : Store) (c : Cleaner) (w : W)
    → All DeletesNothing (reconcile tg cfg c w).1.1
reconcile-DeletesNothing tg cfg c w =
    (reconcile-Fine tg (λ c. Unit) (record { forgets = λ marked c h. tt; marks = λ marked c h. tt })
      cfg c w tt).1
