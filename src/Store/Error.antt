-- ===== src/Store/Error.antt =====
-- `StoreError` and `Result` of crates/whale-store/src/lib.rs.
use Prim.Native.String.{◌++◌ as append}
use whale_ai_sdk.Base.{Bool, false, Option, String, true, ◌≡◌, refl, none, some, ◌⊎◌, inl, inr}

pub data StoreError : Type 0 where
  limit_exceeded : String → StoreError
  invalid : String → StoreError
  not_found unauthorized conflict active unknown_executions stale_lease forgotten : StoreError
  io : String → StoreError
  poisoned : String → StoreError

pub data Result {ℓ} (A : Type ℓ) : Type ℓ where
  ok : A → Result A
  err : StoreError → Result A

-- The operator `?`: what follows runs on the value of a success.
module _ {κ ℓ} {B : Type κ} {A : Type ℓ} where
  infixl 5 ◌>>=◌
  abbrev pub ◌>>=◌ : Result A → (A → Result B) → Result B
  err failure >>= next = err failure
  ok value >>= next = next value

-- `check()?;`.
module _ {ℓ} {B : Type ℓ} where
  infixl 5 ◌>>◌
  abbrev pub ◌>>◌ : Result (Unit {0}) → Result B → Result B
  err failure >> rest = err failure
  ok done >> rest = rest

-- `if test { return Err(error) }`.
abbrev pub reject : Bool → StoreError → Result (Unit {0})
reject true e = err e
reject false e = ok tt

-- `Option::ok_or`.
abbrev pub ok_or {ℓ} : {A : Type ℓ} → Option A → StoreError → Result A
ok_or none e = err e
ok_or (some a) e = ok a

-- A validator's `Err(message)` as an error of the store.
abbrev pub checked : Option String → Result (Unit {0})
checked none = ok tt
checked (some message) = err (invalid message)

pub Result-split {ℓ} :
    {A : Type ℓ} (r : Result A) → ((a : A) × (r ≡ ok a)) ⊎ ((e : StoreError) × (r ≡ err e))
Result-split (ok a) = inl (a, refl)
Result-split (err e) = inr (e, refl)

-- A step that returns nothing succeeds or fails.
pub Result-cases : (r : Result (Unit {0})) → (r ≡ ok tt) ⊎ ((e : StoreError) × (r ≡ err e))
Result-cases (ok u) = inl refl
Result-cases (err e) = inr (e, refl)

-- `to_string`: the `#[error]` attributes.
unfoldable pub display : StoreError → String
display (limit_exceeded what) = append "Session admission limit exceeded: " what
display (invalid what) = append "Invalid store operation: " what
display not_found = "Recovery record not found"
display unauthorized = "Invalid recovery credentials"
display conflict = "Store revision or identity conflict"
display active = "Recovery session is attached"
display unknown_executions = "Unknown executions require acknowledgment"
display stale_lease = "Stale session lease"
display forgotten = "Recovery record was forgotten"
display (io what) = append "Store I/O failed: " what
display (poisoned what) = append "Session journal is poisoned: " what
