-- ===== src/Core/Context/Answered.antt =====
-- What a valid context says of its tool calls.
use whale_ai_sdk.Base.{
  ◌+◌, ◌==◌, ◌∷◌, ◌≡◌, ◌≤◌, Bool, Bool-cases, List, String, [], arith, false, inl, inr, none, refl,
  string_eq, suc, true, ℕ,
}
use whale_ai_sdk.Base.TreeMap.{get, get-insert, get-remove, has_key, insert, remove}
use whale_ai_sdk.Core.Context.{Ids, has_some, validate_from, validate_items}
use whale_ai_sdk.Protocol.Canonical.{
  CanonicalItem, assistant_message, reasoning, tool_call, tool_result, user_message,
}

abbrev one_if : Bool → ℕ
one_if true = 1
one_if false = 0

empty-get : (pending : Ids) (id : String) → has_some pending ≡ false → has_key pending id ≡ false
unfolding get
empty-get [] id h = refl
empty-get (p ∷ pending) id h = cc

module _ {V : Type 0} where
  -- The calls and the results with an identity.
  unfoldable pub calls_of : String → List (CanonicalItem V) → ℕ
  calls_of id [] = 0
  calls_of id (tool_call i call_id namespace name arguments raw ∷ items) =
      one_if (id == call_id) + calls_of id items
  calls_of id (item ∷ items) = calls_of id items

  unfoldable pub results_of : String → List (CanonicalItem V) → ℕ
  results_of id [] = 0
  results_of id (tool_result i call_id output is_error ∷ items) =
      one_if (id == call_id) + results_of id items
  results_of id (item ∷ items) = results_of id items

  -- Of a list that is valid from a state: the results of an identity are its calls and the pending
  -- one, and it is called at most once and never when it was seen.
  answered_from :
      (items : List (CanonicalItem V)) (index : ℕ) (seen pending : Ids) (started : Bool)
      (id : String)
      → (has_key seen id ≡ false → has_key pending id ≡ false)
      → validate_from index seen pending started items ≡ none
      → (results_of id items ≡ calls_of id items + one_if (has_key pending id))
        × (calls_of id items + one_if (has_key seen id) ≤ 1)
  unfolding validate_from calls_of results_of
  answered_from [] index seen pending started id sub h =
      let e = empty-get pending id (ground arith) in
      (
        ground arith,
        elim (Bool-cases (has_key seen id)) [ inl a ↦ ground arith | inr b ↦ ground arith ],
      )
  answered_from (user_message i content ∷ items) index seen pending started id sub h =
      answered_from items (suc index) seen pending false id sub (ground arith)
  answered_from (assistant_message i content phase ∷ items) index seen pending started id sub h =
      answered_from items (suc index) seen pending false id sub (ground arith)
  answered_from (reasoning i thinking signature encrypted ∷ items) index seen pending started id sub
        h =
      answered_from items (suc index) seen pending false id sub (ground arith)
  answered_from (tool_call i call_id namespace name arguments raw ∷ items) index seen pending
        started id sub h =
      let (results, once) =
        answered_from items (suc index) (insert seen call_id tt) (insert pending call_id tt) false
          id
          (λ absent.
            ground (arith, get-insert seen call_id id tt, get-insert pending call_id id tt))
          (ground arith) in
      let put = get-insert seen call_id id tt in
      let wait = get-insert pending call_id id tt in
      elim (string_eq.dec id call_id) [
        | yes here ↦ (ground arith, ground arith)
        | no other ↦ (ground arith, ground arith)
      ]
  answered_from (tool_result i call_id output is_error ∷ items) index seen pending started id sub
        h =
      let (results, once) =
        answered_from items (suc index) seen (remove pending call_id)
          (has_some (remove pending call_id)) id
          (λ absent. ground (arith, get-remove pending call_id id)) (ground arith) in
      let left = get-remove pending call_id id in (ground arith, once)

  -- In a valid context every call identity occurs in at most one call, and in exactly as many
  -- results as calls: each call is answered once, and no result stands alone.
  pub validate_items-answered :
      (items : List (CanonicalItem V)) (id : String)
      → validate_items items ≡ none
      → (results_of id items ≡ calls_of id items) × (calls_of id items ≤ 1)
  unfolding validate_items get
  validate_items-answered items id h =
      let (results, once) = answered_from items 0 [] [] false id (λ absent. refl) h in
      (omega arith, omega arith)
