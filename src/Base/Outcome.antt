-- ===== src/Base/Outcome.antt =====
-- Rust's `Result` with an error type of the caller's choice.
use mathlib.Core.Bool.{Bool, true, false}
use mathlib.Core.Option.{Option, none, some}
use mathlib.Core.Logic.{◌⊎◌, inl, inr}
use mathlib.Core.Path.{◌≡◌, refl}

pub data Outcome {ℓ} (E : Type 0) (A : Type ℓ) : Type ℓ where
  ok : A → Outcome E A
  err : E → Outcome E A

-- The operator `?`.
module _ {κ ℓ} {E : Type 0} {B : Type κ} {A : Type ℓ} where
  infixl 5 ◌>>=◌
  abbrev pub ◌>>=◌ : Outcome E A → (A → Outcome E B) → Outcome E B
  err failure >>= next = err failure
  ok value >>= next = next value

-- `map_err`.
abbrev pub map_err {ℓ} : {E F : Type 0} {A : Type ℓ} → (E → F) → Outcome E A → Outcome F A
map_err f (ok value) = ok value
map_err f (err failure) = err (f failure)

-- `check()?;`.
module _ {ℓ} {E : Type 0} {B : Type ℓ} where
  infixl 5 ◌>>◌
  abbrev pub ◌>>◌ : Outcome E (Unit {0}) → Outcome E B → Outcome E B
  err failure >> rest = err failure
  ok done >> rest = rest

-- `if test { return Err(error) }`, `ok_or`, and the check of an optional part.
module _ {E : Type 0} where
  abbrev pub refuse : Bool → E → Outcome E (Unit {0})
  refuse true e = err e
  refuse false e = ok tt

  abbrev pub or_err {ℓ} : {A : Type ℓ} → Option A → E → Outcome E A
  or_err none e = err e
  or_err (some a) e = ok a

  abbrev pub if_some {ℓ} :
      {A : Type ℓ} → Option A → (A → Outcome E (Unit {0})) → Outcome E (Unit {0})
  if_some none check = ok tt
  if_some (some a) check = check a

  pub Outcome-split {ℓ} :
      {A : Type ℓ} (r : Outcome E A) → ((a : A) × (r ≡ ok a)) ⊎ ((e : E) × (r ≡ err e))
  Outcome-split (ok a) = inl (a, refl)
  Outcome-split (err e) = inr (e, refl)
