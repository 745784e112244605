-- ===== src/Core/Session/Bytes.antt =====
-- The size of a history against the limit on it.
use whale_ai_sdk.Base.{
  ◌+◌, ◌++◌, ◌∷◌, ◌≡◌, ◌≤◌, ◌⊎◌, List, Option-cases, String, [], arith, checked_add, inl, inr, none,
  refl, some, ℕ,
}
use whale_ai_sdk.Core.Session.{ThreadSession, check_history_with_input, check_size, limit_of}
use whale_ai_sdk.Protocol.Canonical.{CanonicalItem}
use whale_ai_sdk.Protocol.Limits.{count_writes, serialized_bytes}
use whale_ai_sdk.Store.Env.{Env}

unfoldable pub sum : List ℕ → ℕ
sum [] = 0
sum (n ∷ ns) = n + sum ns

count_writes-sum :
    (total : ℕ) (writes : List ℕ) (bytes : ℕ)
    → count_writes total writes ≡ some bytes
    → bytes ≡ total + sum writes
unfolding count_writes sum
count_writes-sum total [] bytes h = ground arith
count_writes-sum total (n ∷ writes) bytes h = elim (Option-cases (checked_add total n)) [
  | inl overflow ↦ absurd (ground arith)
  | inr (next, added) ↦
      let rest = count_writes-sum next writes bytes (ground arith) in
      let step : next ≡ total + n = ground arith in omega arith
]

module _ {V : Type 0} ⦃env : Env V⦄ where
  open env use {write_items}

  -- The items are written without an error, and in no more bytes than the limit.
  pub record FitsIn (limit : ℕ) (items : List (CanonicalItem V)) : Type 0 where
    pub writes : List ℕ
    pub written : write_items items ≡ inr writes
    pub fits : sum writes ≤ limit

  pub check_history_with_input-FitsIn :
      (s : ThreadSession V) (input : List (CanonicalItem V)) (limit : ℕ)
      → check_history_with_input s input ≡ none
      → limit_of s.limits (λ l. l.max_history_bytes) ≡ some limit
      → FitsIn limit (s.history ++ input)
  unfolding check_history_with_input check_size serialized_bytes
  check_history_with_input-FitsIn s input limit h e =
      elim (cases (write_items (s.history ++ input))) [
        | inl (error, failed) ↦ absurd (ground arith)
        | inr (writes, written) ↦ elim (Option-cases (count_writes 0 writes)) [
          | inl overflow ↦ absurd (ground arith)
          | inr (bytes, counted) ↦
              let total = count_writes-sum 0 writes bytes counted in
              record { writes = writes; written = written; fits = ground arith }
        ]
      ]
    where
      cases :
          (x : String ⊎ List ℕ)
          → ((error : String) × (x ≡ inl error)) ⊎ ((writes : List ℕ) × (x ≡ inr writes))
      cases (inl error) = inl (error, refl)
      cases (inr writes) = inr (writes, refl)
