-- ===== src/Cleaner/Stats.antt =====
-- internal/cleaner/cleaner.go: Stats.
use langolier_bot.Base.{ℕ, List, [], ◌∷◌, ◌++◌, length, if◌then◌else◌}
use langolier_bot.Base.Int.{ℤ, int_eq}
use langolier_bot.Base.Maps.{Map, insert, keys}
use langolier_bot.Base.Text.{Text}
use langolier_bot.Chatcfg.Config.{Config}
use langolier_bot.Chatcfg.Store.{Store, cached, list}
use langolier_bot.Cleaner.Env.{Tg}
use langolier_bot.Cleaner.State.{Cleaner, Chats, messages}
use langolier_bot.Cleaner.Sweep.{count_of, title_of}
use langolier_bot.Cleaner.Reconcile.{mem}
use langolier_bot.Base.Sort.{sort_by}

pub record ChatStat : Type 0 where
  pub marked_id : ℤ
  pub title : Text
  pub ttl_minutes : ℤ
  pub patterns : ℕ
  pub indexed : ℕ
  pub deleted : ℕ

-- sort.Slice by title; for equal titles Go promises no order, and this is one of the orders.
unfoldable pub sort_stats : List ChatStat → List ChatStat
unfolding sort_by
sort_stats ss = sort_by (λ (s : ChatStat). s.title) ss

module _ {W : Type 0} (tg : Tg W) where
  unfoldable pub stat_of : Map ℤ Config → Cleaner → W → ℤ → ChatStat
  stat_of cfgs c w marked =
      let cfg = cached cfgs marked in
      record {
        marked_id = marked;
        title = title_of (tg.group w marked);
        ttl_minutes = cfg.ttl_minutes;
        patterns = length cfg.patterns;
        indexed = length (messages c.index marked);
        deleted = count_of c.deleted marked;
      }

  -- The closure `add`, over the set of the chats that it has seen and its output.
  abbrev pub add : Map ℤ Config → Cleaner → W → ℤ → Chats × List ChatStat → Chats × List ChatStat
  add cfgs c w marked (seen, out) =
      if mem seen marked
      then (seen, out)
      else (insert marked tt seen, out ++ stat_of cfgs c w marked ∷ [])

  unfoldable pub add_chats :
      Map ℤ Config → Cleaner → W → List ℤ → Chats × List ChatStat → Chats × List ChatStat
  add_chats cfgs c w [] acc = acc
  add_chats cfgs c w (marked ∷ chats) acc = add_chats cfgs c w chats (add cfgs c w marked acc)

  unfoldable pub stats : Store → Cleaner → W → List ChatStat
  stats store c w =
      let cfgs = list store in
      let acc = add_chats cfgs c w (keys cfgs) ([], []) in
      sort_stats (add_chats cfgs c w (keys c.index) acc).1
