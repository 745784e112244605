-- ===== src/Store/Backend/Memory.antt =====
-- `MemoryStore`: the records of one process, under a lock that each call holds throughout.
use whale_ai_sdk.Base.{
  Option-cases, inl, inr, Eq, List, Option, String, none, some, string_eq, ◌≡◌, ◌≢◌, ℕ, arith,
}
use whale_ai_sdk.Base.TreeMap.{TreeMap, get, get-insert, has_key, insert, values}
use whale_ai_sdk.Store.Env.{Env}
use whale_ai_sdk.Store.Error.{Result, conflict, err, not_found, ok, ok_or, reject, ◌>>=◌, ◌>>◌}
use whale_ai_sdk.Store.Backend.Interface.{SessionStore}
use whale_ai_sdk.Store.Backend.Replace.{validate_create, validate_replace}
use whale_ai_sdk.Store.Types.{SessionRecord}

abbrev pub Records : Type 0 → Type 0
Records V = TreeMap (SessionRecord V)

module _ {V : Type 0} where
  -- The state after an operation that returns the new one or fails.
  abbrev pub commit : Records V → Result (Records V) → Records V × Result (Unit {0})
  commit s (ok s') = (s', ok tt)
  commit s (err e) = (s, err e)

  unfoldable pub load : Records V → String → Result (Option (SessionRecord V))
  load s id = ok (get s id)

  unfoldable pub list : Records V → Result (List (SessionRecord V))
  list s = ok (values s)

module _ {V : Type 0} ⦃v : Eq V⦄ ⦃env : Env V⦄ where
  unfoldable pub create : Records V → SessionRecord V → Records V × Result (Unit {0})
  create s r = commit s (do
    validate_create r
    reject (has_key s r.recovery_id) conflict
    ok (insert s r.recovery_id r))

  unfoldable pub compare_exchange :
      Records V → String → ℕ → SessionRecord V → Records V × Result (Unit {0})
  compare_exchange s id expected new = commit s (do
    old ← ok_or (get s id) not_found
    validate_replace old id expected new
    ok (insert s id new))

  exchange_checked :
      (s : Records V) (id : String) (expected : ℕ) (new : SessionRecord V)
      → (compare_exchange s id expected new).1 ≡ ok tt
      → (old : SessionRecord V) × (load s id ≡ ok (some old))
        × (validate_replace old id expected new ≡ ok tt)
  unfolding compare_exchange load
  exchange_checked s id expected new h = elim (Option-cases (get s id)) [
    | inl e ↦ absurd (ground arith)
    | inr (old, e) ↦ (old, ground arith, ground arith)
  ]

  load-exchange :
      (s : Records V) (id : String) (expected : ℕ) (new : SessionRecord V)
      → (compare_exchange s id expected new).1 ≡ ok tt
      → load (compare_exchange s id expected new).0 id ≡ ok (some new)
  unfolding compare_exchange load
  load-exchange s id expected new h = ground (arith, get-insert s id id new)

  load-exchange_ne :
      (s : Records V) (id other : String) (expected : ℕ) (new : SessionRecord V)
      → (compare_exchange s id expected new).1 ≡ ok tt
      → other ≢ id
      → load (compare_exchange s id expected new).0 other ≡ load s other
  unfolding compare_exchange load
  load-exchange_ne s id other expected new h ne = ground (arith, get-insert s id other new)

  create_checked :
      (s : Records V) (new : SessionRecord V)
      → (create s new).1 ≡ ok tt
      → (validate_create new ≡ ok tt) × (load s new.recovery_id ≡ ok none)
  unfolding create load
  create_checked s new h = ground arith

  load-create :
      (s : Records V) (new : SessionRecord V)
      → (create s new).1 ≡ ok tt
      → load (create s new).0 new.recovery_id ≡ ok (some new)
  unfolding create load
  load-create s new h = ground (arith, get-insert s new.recovery_id new.recovery_id new)

  load-create_ne :
      (s : Records V) (new : SessionRecord V) (other : String)
      → (create s new).1 ≡ ok tt
      → other ≢ new.recovery_id
      → load (create s new).0 other ≡ load s other
  unfolding create load
  load-create_ne s new other h ne = ground (arith, get-insert s new.recovery_id other new)

  -- The store in memory keeps what the trait promises.
  instance unfoldable pub memory_store : SessionStore V (Records V)
  unfolding exchange_checked load-exchange load-exchange_ne create_checked load-create
      load-create_ne
  memory_store = record {
    create = create;
    load = load;
    compare_exchange = compare_exchange;
    list = list;
    exchange_checked = exchange_checked;
    load-exchange = load-exchange;
    load-exchange_ne = load-exchange_ne;
    create_checked = create_checked;
    load-create = load-create;
    load-create_ne = load-create_ne;
  }
