-- ===== src/Tgclient/Delete.antt =====
-- internal/tgclient/tgclient.go: chunkInts and Client.Delete. `rpc` stands for the two delete
-- methods of gotd's API client: it gets a request and the state of the world, and returns the error
-- of the call, if any.
pub mod Batches
use langolier_bot.Base.{
  ℕ, zero, suc, ◌+◌, ◌-◌, Bool, true, false, ◌||◌, Option, none, some, List, [], ◌∷◌, ◌++◌, length,
  take, drop, ltb, nat_beq, if◌then◌else◌,
}
use langolier_bot.Base.Int.{ℤ}
use langolier_bot.Base.Text.{Text, codes}
use langolier_bot.Tgclient.Group.{Group, input_channel}

abbrev pub delete_batch : ℕ
delete_batch = 100

-- s[i:end]
abbrev pub slice {ℓ} : {A : Type ℓ} → List A → ℕ → ℕ → List A
slice s i end = take (end - i) (drop i s)

-- The loop `for i := 0; i < len(s); i += n`; every round takes one of the fuel.
unfoldable pub chunks_from {ℓ} : {A : Type ℓ} → ℕ → List A → ℕ → ℕ → List (List A)
chunks_from zero s n i = []
chunks_from (suc fuel) s n i =
    let end = if ltb (length s) (i + n) then length s else i + n in
    let rest = chunks_from fuel s n (i + n) in if ltb i (length s) then slice s i end ∷ rest else []

-- A round moves `i` by at least one, so `length s` rounds are enough. `n` is positive or zero here;
-- a negative one is treated as zero by the source.
unfoldable pub chunk_ints {ℓ} : {A : Type ℓ} → List A → ℕ → List (List A)
unfolding chunks_from
chunk_ints s n = if nat_beq n 0 || nat_beq (length s) 0 then [] else chunks_from (length s) s n 0

pub data DeleteRequest : Type 0 where
  channels_delete : ℤ × ℤ → List ℕ → DeleteRequest
  messages_delete : (revoke : Bool) → List ℕ → DeleteRequest

abbrev pub not_running : Text
not_running = codes "tgclient: client is not running"

abbrev pub request : Group → List ℕ → DeleteRequest
request g chunk =
    if g.is_channel then channels_delete (input_channel g) chunk else messages_delete true chunk

abbrev pub after_chunk : List ℕ → Option Text → List ℕ → Option Text → List ℕ × Option Text
after_chunk failed err chunk none = (failed, err)
after_chunk failed err chunk (some e) = (failed ++ chunk, some e)

module _ {W : Type 0} (rpc : DeleteRequest → W → Option Text × W) where
  unfoldable pub delete_chunks :
      Group → List (List ℕ) → List ℕ × Option Text → W → (List ℕ × Option Text) × W
  delete_chunks g [] acc w = (acc, w)
  delete_chunks g (chunk ∷ chunks) (failed, err) w =
      let (e, w') = rpc (request g chunk) w in
      delete_chunks g chunks (after_chunk failed err chunk e) w'

  -- `running` is whether `apiRef` has a client to return.
  unfoldable pub delete : Bool → Group → List ℕ → W → (List ℕ × Option Text) × W
  delete false g ids w = (([], some not_running), w)
  delete true g ids w = delete_chunks g (chunk_ints ids delete_batch) ([], none) w
