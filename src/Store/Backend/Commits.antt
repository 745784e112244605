-- ===== src/Store/Backend/Commits.antt =====
-- The store in memory over any sequence of `create` and `compare_exchange` calls, whoever makes
-- them and in whatever order.
use whale_ai_sdk.Base.{
  ◌∷◌, ◌⊎◌, subst, Eq, List, Option-cases, String, [], arith, inl, inr, some, string_eq, ◌≡◌, ℕ,
}
use whale_ai_sdk.Base.TreeMap.{get, get-insert, insert}
use whale_ai_sdk.Store.Backend.Accepted.{accepted_parts, accepted-Extends}
use whale_ai_sdk.Store.Backend.Extends.{Extends, Extends-refl, Extends-trans}
use whale_ai_sdk.Store.Backend.Memory.{Records, compare_exchange, create}
use whale_ai_sdk.Store.Backend.Replace.{validate_create, validate_replace}
use whale_ai_sdk.Store.Env.{Env}
use whale_ai_sdk.Store.Error.{Result-cases, ok}
use whale_ai_sdk.Store.State.Validate.{validate}
use whale_ai_sdk.Store.Types.{SessionRecord}

-- A call that some task makes on the store.
pub data StoreCall (V : Type 0) : Type 0 where
  creates : SessionRecord V → StoreCall V
  exchanges : String → ℕ → SessionRecord V → StoreCall V

module _ {V : Type 0} ⦃v : Eq V⦄ ⦃env : Env V⦄ where
  unfoldable pub perform : Records V → StoreCall V → Records V
  perform s (creates r) = (create s r).0
  perform s (exchanges id expected new) = (compare_exchange s id expected new).0

  unfoldable pub perform_all : Records V → List (StoreCall V) → Records V
  perform_all s [] = s
  perform_all s (c ∷ cs) = perform_all (perform s c) cs

  -- Every stored record is valid and stands under its own identity.
  abbrev pub AllValid : Records V → Type 0
  AllValid s =
      (id : String) (r : SessionRecord V)
      → get s id ≡ some r
      → (validate r ≡ ok tt) × (r.recovery_id ≡ id)

  validate_create-validate : (r : SessionRecord V) → validate_create r ≡ ok tt → validate r ≡ ok tt
  unfolding validate_create
  validate_create-validate r h = ground arith

  create-AllValid : (s : Records V) (r : SessionRecord V) → AllValid s → AllValid (create s r).0
  unfolding create
  create-AllValid s r all id x e =
      ground (arith, all id x, get-insert s r.recovery_id id r, validate_create-validate r)

  exchange-AllValid :
      (s : Records V) (id : String) (expected : ℕ) (new : SessionRecord V)
      → AllValid s
      → AllValid (compare_exchange s id expected new).0
  unfolding compare_exchange
  exchange-AllValid s id expected new all j x e = elim (Option-cases (get s id)) [
    | inl missing ↦ ground (arith, all j x)
    | inr (old, found) ↦
        ground (arith, all j x, get-insert s id j new, accepted_parts old new id expected)
  ]

  perform-AllValid : (s : Records V) (c : StoreCall V) → AllValid s → AllValid (perform s c)
  unfolding perform
  perform-AllValid s (creates r) all = create-AllValid s r all
  perform-AllValid s (exchanges id expected new) all = exchange-AllValid s id expected new all

  -- Whatever calls are made on a store whose records are valid and stand under their identities,
  -- every record that it holds afterwards is valid and stands under its own identity.
  pub perform_all-AllValid :
      (s : Records V) (cs : List (StoreCall V)) → AllValid s → AllValid (perform_all s cs)
  unfolding perform_all
  perform_all-AllValid s [] all = all
  perform_all-AllValid s (c ∷ cs) all =
      perform_all-AllValid (perform s c) cs (perform-AllValid s c all)

  -- The record that is stored later, and that it extends the earlier one.
  abbrev pub Later : SessionRecord V → Records V → String → Type 0
  Later r s id = (r' : SessionRecord V) × (get s id ≡ some r') × Extends r r'

  create-Later :
      (s : Records V) (n : SessionRecord V) (id : String) (r : SessionRecord V)
      → get s id ≡ some r
      → Later r (create s n).0 id
  unfolding create
  create-Later s n id r e = (r, ground (arith, get-insert s n.recovery_id id n), Extends-refl r)

  -- An exchange changes nothing, or stores an accepted replacement.
  exchange_cases :
      (s : Records V) (j : String) (expected : ℕ) (new : SessionRecord V)
      → ((compare_exchange s j expected new).0 ≡ s)
        ⊎ ((old : SessionRecord V) × (get s j ≡ some old)
            × (validate_replace old j expected new ≡ ok tt)
            × ((compare_exchange s j expected new).0 ≡ insert s j new))
  unfolding compare_exchange
  exchange_cases s j expected new = elim (Option-cases (get s j)) [
    | inl missing ↦ inl (ground arith)
    | inr (old, found) ↦ elim (Result-cases (validate_replace old j expected new)) [
      | inl accepted ↦ inr (old, found, accepted, ground arith)
      | inr (e, refused) ↦ inl (ground arith)
    ]
  ]

  exchange-Later :
      (s : Records V) (j : String) (expected : ℕ) (new : SessionRecord V) (id : String)
      (r : SessionRecord V)
      → get s id ≡ some r
      → Later r (compare_exchange s j expected new).0 id
  exchange-Later s j expected new id r e = elim (exchange_cases s j expected new) [
    | inl same ↦ (r, rw same e, Extends-refl r)
    | inr (old, found, accepted, stored) ↦ elim (string_eq.dec id j) [
      | yes here ↦ (
        new,
        rw (stored, get-insert s j id new) (ground arith),
        subst (λ x. Extends x new) (ground arith) (accepted-Extends old new j expected accepted),
      )
      | no other ↦ (r, rw (stored, get-insert s j id new) (ground arith), Extends-refl r)
    ]
  ]

  pub perform-Later :
      (s : Records V) (c : StoreCall V) (id : String) (r : SessionRecord V)
      → get s id ≡ some r
      → Later r (perform s c) id
  unfolding perform
  perform-Later s (creates n) id r e = create-Later s n id r e
  perform-Later s (exchanges j expected new) id r e = exchange-Later s j expected new id r e

  -- Whatever calls are made, a stored record stays stored, and the later record extends it: the
  -- secret is the same, revision and epoch never fall, a tombstone stays one, and unless it was
  -- forgotten its history, its runs, their terminal snapshots, and every call's identities, intent
  -- and outcome are kept.
  pub perform_all-Later :
      (s : Records V) (cs : List (StoreCall V)) (id : String) (r : SessionRecord V)
      → get s id ≡ some r
      → Later r (perform_all s cs) id
  unfolding perform_all
  perform_all-Later s [] id r e = (r, e, Extends-refl r)
  perform_all-Later s (c ∷ cs) id r e =
      let (r', found, h) = perform-Later s c id r e in
      let (r'', found', h') = perform_all-Later (perform s c) cs id r' found in
      (r'', found', Extends-trans h h')
