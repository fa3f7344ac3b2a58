-- ===== src/Bot/Paging.antt =====
-- internal/bot/bot.go: the pages of the chat picker.
use langolier_bot.Base.{
  ℕ, zero, suc, ◌+◌, ◌*◌, ◌≤◌, ◌<◌, List, [], ◌++◌, ◌≡◌, sym, length, drop, arith, drop-all,
  take-drop-append,
}
use langolier_bot.Base.Int.{ℤ, pos, negsuc}
use langolier_bot.Bot.Menus.{page_count, page_groups, clamp_page}

-- The pages from a number on, one after the other.
abbrev pub pages_from {ℓ} : {A : Type ℓ} → List A → ℕ → ℕ → List A
pages_from groups p zero = []
pages_from groups p (suc n) = page_groups groups p ++ pages_from groups (suc p) n

pages_from-drop {ℓ} :
    {A : Type ℓ} (groups : List A) (p n : ℕ)
    → length groups ≤ (p + n) * 8
    → pages_from groups p n ≡ drop (p * 8) groups
unfolding page_groups
pages_from-drop groups p zero h = sym (drop-all (p * 8) groups (omega arith))
pages_from-drop groups p (suc n) h =
    let next : suc p * 8 ≡ p * 8 + 8 = omega arith in
    rw (pages_from-drop groups (suc p) n (omega arith), next) (take-drop-append (p * 8) 8 groups)

page_count-enough : (n : ℕ) → n ≤ page_count n * 8
unfolding page_count
page_count-enough n = omega arith

page_count-positive : (n : ℕ) → 0 < n → 0 < page_count n
unfolding page_count
page_count-positive n h = omega arith

clamp_page-lt : (p : ℤ) (pages : ℕ) → 0 < pages → clamp_page p pages < pages
unfolding clamp_page
clamp_page-lt (pos n) pages h = ground arith
clamp_page-lt (negsuc n) pages h = ground arith

-- The pages of the picker, one after the other, are the chats, each once and in order; and if there
-- are any chats, the number of the page that is shown is that of one of the pages, whatever number a
-- button carries.
pub pages-cover :
    {A : Type 0} (groups : List A) (p : ℤ)
    → 0 < length groups
    → (pages_from groups 0 (page_count (length groups)) ≡ groups)
      × (clamp_page p (page_count (length groups)) < page_count (length groups))
pages-cover groups p h = (
  pages_from-drop groups 0 (page_count (length groups))
      (omega (arith, page_count-enough (length groups))),
  clamp_page-lt p (page_count (length groups)) (page_count-positive (length groups) h),
)
