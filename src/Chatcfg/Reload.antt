-- ===== src/Chatcfg/Reload.antt =====
-- internal/chatcfg/chatcfg.go: what is on disk is what is in memory. `New` over the bucket that any
-- sequence of calls has left reads back the configuration of every chat.
use langolier_bot.Base.{
  Option, none, some, List, [], ◌∷◌, ◌≡◌, inl, inr, ◌==◌, refl, arith, if◌then◌else◌, Option-cases,
  Bool-cases, ap, All, nat_eq, list_eq, is_some, sym, subst, ◌∙◌, list_beq_iff,
}
use langolier_bot.Base.Int.{ℤ, int_eq, int_beq_iff, InInt64}
use langolier_bot.Base.Maps.{
  Map, lookup, insert, delete, lookup-insert, lookup-delete, IsUnique, insert-IsUnique,
  delete-IsUnique, contains-keys,
}
use langolier_bot.Base.Text.{Text, trim_space, is_empty}
use langolier_bot.Base.Decimal.{parse_int, parse-format}
use langolier_bot.Chatcfg.Config.{Config, clone}
use langolier_bot.Chatcfg.Store.{
  Codec, Store, ok, Bucket, key, cached, get, load, open_store, mutate, set_ttl, add_pattern,
  remove_pattern, disable, write,
}
use langolier_bot.Chatcfg.Spec.{Call, sets_ttl, adds, removes, disables, call, get-cached}

-- Different chats have different keys.
key-injective : (i j : ℤ) → InInt64 i → InInt64 j → key i ≡ key j → i ≡ j
key-injective i j hi hj e = ground (arith, parse-format i hi, parse-format j hj)

key-eq : (i j : ℤ) → InInt64 i → InInt64 j → (key i == key j) ≡ (i == j)
key-eq i j hi hj =
    ground (arith, int_beq_iff i j, list_beq_iff (key i) (key j), key-injective i j hi hj)

abbrev pub empty_store : Store
empty_store = record { bucket = []; cache = [] }

module _ (codec : Codec) where
  open codec use {marshal, unmarshal, unmarshal-marshal}

  abbrev decode : Option Text → Option Config
  decode none = none
  decode (some d) = unmarshal d

  -- An entry that `load` accepts: the key of some chat, and a value that can be read.
  abbrev pub IsEntry : Text × Text → Type 0
  IsEntry (k, v) =
      (chat : ℤ) × InInt64 chat × (k ≡ key chat) × ((c : Config) × (unmarshal v ≡ some c))

  pub record IsSynced (s : Store) : Type 0 where
    pub entries : All IsEntry s.bucket
    pub unique : IsUnique s.bucket
    pub same : (j : ℤ) → InInt64 j → lookup j s.cache ≡ decode (lookup (key j) s.bucket)

  All-insert :
      (chat : ℤ) (c : Config) (d : Text) (b : Bucket)
      → InInt64 chat
      → unmarshal d ≡ some c
      → All IsEntry b
      → All IsEntry (insert (key chat) d b)
  unfolding insert
  All-insert chat c d [] r e h = ((chat, r, refl, (c, e)), tt)
  All-insert chat c d ((k, v) ∷ b) r e h = elim (Bool-cases (k == key chat)) [
    | inl q ↦ rw q ((chat, r, refl, (c, e)), h.1)
    | inr q ↦ rw q (h.0, All-insert chat c d b r e h.1)
  ]

  All-delete : (k : Text) (b : Bucket) → All IsEntry b → All IsEntry (delete k b)
  unfolding delete
  All-delete k [] h = tt
  All-delete k ((i, v) ∷ b) h = elim (Bool-cases (i == k)) [
    | inl q ↦ rw q (All-delete k b h.1)
    | inr q ↦ rw q (h.0, All-delete k b h.1)
  ]

  abbrev Loads : Bucket → Map ℤ Config → Type 0
  Loads b cache =
      (m : Map ℤ Config) × (load codec b cache ≡ ok m)
      × ((j : ℤ)
          → InInt64 j
          → lookup j m
            ≡ (if is_some (lookup (key j) b) then decode (lookup (key j) b) else lookup j cache))

  load-cons :
      (k v : Text) (b : Bucket) (cache : Map ℤ Config) (chat : ℤ) (c : Config)
      → parse_int k ≡ some chat
      → unmarshal v ≡ some c
      → load codec ((k, v) ∷ b) cache ≡ load codec b (insert chat c cache)
  unfolding load
  load-cons k v b cache chat c parsed decoded = ground arith

  load-Loads : (b : Bucket) (cache : Map ℤ Config) → All IsEntry b → IsUnique b → Loads b cache
  unfolding load lookup
  load-Loads [] cache h u = (cache, refl, λ j r. refl)
  load-Loads ((k, v) ∷ b) cache ((chat, r, ek, (c, ev)), h) (fresh, u) =
      let (m, loaded, found) = load-Loads b (insert chat c cache) h u in
      let parsed : parse_int k ≡ some chat = ap parse_int ek ∙ parse-format chat r in
      (
        m,
        load-cons k v b cache chat c parsed ev ∙ loaded,
        λ j rj. ground (
          arith,
          found j rj,
          lookup-insert chat j c cache,
          int_beq_iff chat j,
          list_beq_iff k (key j),
          contains-keys (key j) b,
          key-injective chat j r rj,
        ),
      )

  -- `New` over the bucket of a store that is in step with its cache succeeds, and reads the same
  -- configuration for every chat.
  pub reopen :
      (s : Store)
      → IsSynced s
      → (s' : Store) × (open_store codec (some s.bucket) none ≡ ok s')
        × ((j : ℤ) → InInt64 j → get s' j ≡ get s j)
  unfolding open_store lookup
  reopen s y =
      let (m, loaded, found) = load-Loads s.bucket [] y.entries y.unique in
      (
        record { bucket = s.bucket; cache = m },
        rw loaded,
        λ j r. get-cached _ j ∙ ground (arith, found j r, y.same j r) ∙ sym (get-cached s j),
      )

  -- The store that `New` makes of such a bucket is in step with it too.
  pub reopen-IsSynced :
      (s cfg : Store) → IsSynced s → open_store codec (some s.bucket) none ≡ ok cfg → IsSynced cfg
  unfolding open_store lookup
  reopen-IsSynced s cfg y e =
      let (m, loaded, found) = load-Loads s.bucket [] y.entries y.unique in
      let opened : Store = record { bucket = s.bucket; cache = m } in
      let same : opened ≡ cfg = ground (arith, loaded, e) in
      subst IsSynced same
        (record { entries = y.entries; unique = y.unique; same = λ j r. ground (arith, found j r) })

  write-IsSynced :
      (s : Store) (chat : ℤ) (c : Config) (d : Text) (outcome : Option Text)
      → InInt64 chat
      → marshal c ≡ some d
      → IsSynced s
      → IsSynced (write s chat c d outcome).0
  write-IsSynced s chat c d (some e) r w y = y
  write-IsSynced s chat c d none r w y = record {
    entries = All-insert chat c d s.bucket r (unmarshal-marshal c d w) y.entries;
    unique = insert-IsUnique (key chat) d s.bucket y.unique;
    same = λ j rj. ground (
      arith,
      y.same j rj,
      lookup-insert chat j c s.cache,
      lookup-insert (key chat) (key j) d s.bucket,
      key-eq chat j r rj,
      unmarshal-marshal c d w,
    );
  }

  mutate-IsSynced :
      (s : Store) (chat : ℤ) (fn : Config → Config) (outcome : Option Text)
      → InInt64 chat
      → IsSynced s
      → IsSynced (mutate codec s chat fn outcome).0
  unfolding mutate
  mutate-IsSynced s chat fn outcome r y =
      elim (Option-cases (marshal (fn (clone (cached s.cache chat))))) [
        | inl e ↦ rw (e, mutate) y
        | inr (d, e) ↦ rw (e, mutate) (write-IsSynced s chat _ d outcome r e y)
      ]

  disable-IsSynced :
      (s : Store) (chat : ℤ) (outcome : Option Text)
      → InInt64 chat
      → IsSynced s
      → IsSynced (disable s chat outcome).0
  unfolding disable
  disable-IsSynced s chat (some e) r y = y
  disable-IsSynced s chat none r y = record {
    entries = All-delete (key chat) s.bucket y.entries;
    unique = delete-IsUnique (key chat) s.bucket y.unique;
    same = λ j rj. ground (
      arith,
      y.same j rj,
      lookup-delete chat j s.cache,
      lookup-delete (key chat) (key j) s.bucket,
      key-eq chat j r rj,
    );
  }

  pub call-IsSynced :
      (s : Store) (chat : ℤ) (outcome : Option Text) (c : Call)
      → InInt64 chat
      → IsSynced s
      → IsSynced (call codec s chat outcome c).0
  unfolding call set_ttl add_pattern remove_pattern
  call-IsSynced s chat outcome (sets_ttl minutes) r y = mutate-IsSynced s chat _ outcome r y
  call-IsSynced s chat outcome (adds p) r y = elim (Bool-cases (is_empty (trim_space p.value))) [
    | inl e ↦ rw e y
    | inr e ↦ rw e (mutate-IsSynced s chat _ outcome r y)
  ]
  call-IsSynced s chat outcome (removes i) r y = mutate-IsSynced s chat _ outcome r y
  call-IsSynced s chat outcome disables r y = disable-IsSynced s chat outcome r y

  -- Runs calls, each with the answer of the database to it.
  unfoldable pub run : Store → List (ℤ × Option Text × Call) → Store
  run s [] = s
  run s ((chat, outcome, c) ∷ cs) = run (call codec s chat outcome c).0 cs

  abbrev pub InRange : List (ℤ × Option Text × Call) → Type 0
  InRange cs = All (λ x. InInt64 x.0) cs

  run-IsSynced :
      (s : Store) (cs : List (ℤ × Option Text × Call))
      → InRange cs
      → IsSynced s
      → IsSynced (run s cs)
  unfolding run
  run-IsSynced s [] r y = y
  run-IsSynced s ((chat, outcome, c) ∷ cs) r y =
      run-IsSynced (call codec s chat outcome c).0 cs r.1 (call-IsSynced s chat outcome c r.0 y)

  pub empty-IsSynced : IsSynced empty_store
  unfolding lookup
  empty-IsSynced = record { entries = tt; unique = tt; same = λ j r. refl }

  -- A restart forgets nothing: whatever calls were made on a new store, and whatever the database
  -- answered to each of them, `New` over the bucket that is left succeeds and reads the configuration
  -- of every chat as it was.
  pub restart :
      (cs : List (ℤ × Option Text × Call))
      → InRange cs
      → (s' : Store) × (open_store codec (some (run empty_store cs).bucket) none ≡ ok s')
        × ((j : ℤ) → InInt64 j → get s' j ≡ get (run empty_store cs) j)
  restart cs r = reopen _ (run-IsSynced empty_store cs r empty-IsSynced)
