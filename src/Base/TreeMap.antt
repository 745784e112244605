-- ===== src/Base/TreeMap.antt =====
-- `BTreeMap<String, V>` as an association list in the order of its keys.
use Prim.Native.String.{String}
use mathlib.Core.Path.{◌≡◌, refl}
use mathlib.Core.Bool.{Bool}
use mathlib.Core.Option.{Option, none, some}
use mathlib.Core.List.{List, [], ◌∷◌, map}
use native.Mathlib.Omega.{arith}
use whale_ai_sdk.Base.Tests.{if◌then◌else◌, is_some}
use whale_ai_sdk.Base.Equality.{◌==◌, string_eq}
use whale_ai_sdk.Base.Text.{str_ltb}

abbrev pub TreeMap {ℓ} : Type ℓ → Type ℓ
TreeMap V = List (String × V)

module _ {ℓ} {V : Type ℓ} where
  unfoldable pub get : TreeMap V → String → Option V
  get [] k = none
  get ((j, v) ∷ m) k = if k == j then some v else get m k

  unfoldable pub insert : TreeMap V → String → V → TreeMap V
  insert [] k v = (k, v) ∷ []
  insert ((j, w) ∷ m) k v =
      if k == j
      then (k, v) ∷ m
      else if str_ltb k j
      then (k, v) ∷ (j, w) ∷ m
      else (j, w) ∷ insert m k v

  unfoldable pub remove : TreeMap V → String → TreeMap V
  remove [] k = []
  remove ((j, w) ∷ m) k = let rest = remove m k in if k == j then rest else (j, w) ∷ rest

  abbrev pub has_key : TreeMap V → String → Bool
  has_key m k = is_some (get m k)

  abbrev pub values : TreeMap V → List V
  values = map (λ e. e.1)

  pub get-insert :
      (m : TreeMap V) (k j : String) (v : V)
      → get (insert m k v) j ≡ (if j == k then some v else get m j)
  unfolding get insert
  get-insert [] k j v = refl
  get-insert ((i, w) ∷ m) k j v = ground (arith, get-insert m k j v)

  pub get-remove :
      (m : TreeMap V) (k j : String) → get (remove m k) j ≡ (if j == k then none else get m j)
  unfolding get remove
  get-remove [] k j = ground arith
  get-remove ((i, w) ∷ m) k j = ground (arith, get-remove m k j)
