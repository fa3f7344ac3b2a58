-- ===== src/Tgclient/Ids.antt =====
-- internal/tgclient/tgclient.go: MarkChannel and MarkChat, on int64.
use langolier_bot.Base.{ℕ, ◌+◌, ◌-◌, ◌<◌, ◌^◌, ◌≡◌, arith, true, false}
use langolier_bot.Base.Int.{ℤ, pos, negsuc, pos_part, ◌-ℤ◌, ltb_ℤ, wrap64}

abbrev pub channel_id_shift : ℤ
channel_id_shift = pos 1000000000000

unfoldable pub mark_channel : ℤ → ℤ
mark_channel id = wrap64 (wrap64 (pos 0 -ℤ channel_id_shift) -ℤ id)

unfoldable pub mark_chat : ℤ → ℤ
mark_chat id = wrap64 (pos 0 -ℤ id)

-- A bare id of Telegram: positive, and below the shift.
abbrev pub IsBare : ℤ → Type 0
IsBare id = (0 < pos_part id) × (pos_part id < 1000000000000)

mark_channel-pos : (n : ℕ) → n < 2 ^ 62 → mark_channel (pos n) ≡ negsuc (999999999999 + n)
unfolding mark_channel wrap64
mark_channel-pos n h = ground arith

mark_chat-pos : (n : ℕ) → 0 < n → n < 2 ^ 62 → mark_chat (pos n) ≡ negsuc (n - 1)
unfolding mark_chat wrap64
mark_chat-pos n l h = ground arith

-- The marked id tells the two kinds of chats apart: that of a channel is below minus the shift, as
-- OnDeleted tests it, and that of a basic group is not; and neither kind confuses two chats.
pub marks_apart :
    (i j : ℤ)
    → IsBare i
    → IsBare j
    → (ltb_ℤ (mark_channel i) (pos 0 -ℤ channel_id_shift) ≡ true)
      × (ltb_ℤ (mark_chat i) (pos 0 -ℤ channel_id_shift) ≡ false)
      × (mark_channel i ≡ mark_channel j → i ≡ j)
      × (mark_chat i ≡ mark_chat j → i ≡ j)
marks_apart (pos n) (pos m) h k = (
  ground (arith, mark_channel-pos n (omega arith)),
  ground (arith, mark_chat-pos n h.0 (omega arith)),
  λ e. ground (arith, mark_channel-pos n (omega arith), mark_channel-pos m (omega arith)),
  λ e. ground (arith, mark_chat-pos n h.0 (omega arith), mark_chat-pos m k.0 (omega arith)),
)
marks_apart (pos n) (negsuc m) h k = absurd (omega arith)
marks_apart (negsuc n) j h k = absurd (omega arith)
