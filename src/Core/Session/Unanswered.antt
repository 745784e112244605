-- ===== src/Core/Session/Unanswered.antt =====
-- The unanswered calls of a turn, described from its items.
use whale_ai_sdk.Base.{
  ◌++◌, ◌-◌, ◌==◌, ◌∷◌, ◌≡◌, Bool-cases, List, String, [], append-nil, append_assoc, arith,
  if◌then◌else◌, inl, inr, refl, string_eq, subst, suc, sym, ℕ,
}
use mathlib.Core.List.{Sublistᴰ}
use whale_ai_sdk.Core.Session.{remove_first, unanswered}
use whale_ai_sdk.Protocol.Canonical.{
  CanonicalItem, assistant_message, reasoning, tool_call, tool_result, user_message,
}

-- How often an identity stands in a list.
unfoldable pub occurrences : String → List String → ℕ
occurrences id [] = 0
occurrences id (x ∷ ids) = let rest = occurrences id ids in if x == id then suc rest else rest

remove_first-occurrences :
    (id other : String) (ids : List String)
    → occurrences id (remove_first other ids)
      ≡ (if other == id then occurrences id ids - 1 else occurrences id ids)
unfolding remove_first occurrences
remove_first-occurrences id other [] = ground arith
remove_first-occurrences id other (x ∷ ids) =
    let h = remove_first-occurrences id other ids in
    elim (string_eq.dec x other) [
      | yes same ↦ elim (string_eq.dec x id) [ yes a ↦ ground arith | no b ↦ ground arith ]
      | no differ ↦ elim (string_eq.dec x id) [ yes a ↦ ground arith | no b ↦ ground arith ]
    ]

append-occurrences :
    (id other : String) (ids : List String)
    → occurrences id (ids ++ other ∷ [])
      ≡ (if other == id then suc (occurrences id ids) else occurrences id ids)
unfolding occurrences
append-occurrences id other [] = ground arith
append-occurrences id other (x ∷ ids) = let h = append-occurrences id other ids in ground arith

remove_first-Sublist :
    (id : String) (ids base : List String) → Sublistᴰ ids base → Sublistᴰ (remove_first id ids) base
unfolding remove_first
remove_first-Sublist id _ _ Sublistᴰ.slnil = Sublistᴰ.slnil
remove_first-Sublist id _ _ (Sublistᴰ.cons {l₁ = ids} {l₂ = base} s) =
    Sublistᴰ.cons (remove_first-Sublist id ids base s)
remove_first-Sublist id _ _ (Sublistᴰ.cons-cons {a = x} {b = y} {l₁ = ids} {l₂ = base} e s) =
    elim (Bool-cases (x == id)) [
      | inl same ↦ rw same (Sublistᴰ.cons s)
      | inr other ↦ rw other (Sublistᴰ.cons-cons e (remove_first-Sublist id ids base s))
    ]

append-Sublist :
    (id : String) (ids base : List String)
    → Sublistᴰ ids base
    → Sublistᴰ (ids ++ id ∷ []) (base ++ id ∷ [])
append-Sublist id _ _ Sublistᴰ.slnil = Sublistᴰ.cons-cons refl Sublistᴰ.slnil
append-Sublist id _ _ (Sublistᴰ.cons {l₁ = ids} {l₂ = base} s) =
    Sublistᴰ.cons (append-Sublist id ids base s)
append-Sublist id _ _ (Sublistᴰ.cons-cons {l₁ = ids} {l₂ = base} e s) =
    Sublistᴰ.cons-cons e (append-Sublist id ids base s)

module _ {V : Type 0} where
  -- The calls with an identity that are open after the items, when `open` of them are open before: a
  -- call opens one, and a result closes one if there is one.
  unfoldable pub open_calls : String → ℕ → List (CanonicalItem V) → ℕ
  open_calls id before [] = before
  open_calls id before (tool_call i call_id namespace name arguments raw ∷ items) =
      open_calls id (if call_id == id then suc before else before) items
  open_calls id before (tool_result i call_id output is_error ∷ items) =
      open_calls id (if call_id == id then before - 1 else before) items
  open_calls id before (item ∷ items) = open_calls id before items

  -- The identities of the calls, in their order.
  unfoldable pub call_ids : List (CanonicalItem V) → List String
  call_ids [] = []
  call_ids (tool_call i call_id namespace name arguments raw ∷ items) = call_id ∷ call_ids items
  call_ids (item ∷ items) = call_ids items

  pub unanswered-occurrences :
      (id : String) (pending : List String) (items : List (CanonicalItem V))
      → occurrences id (unanswered pending items) ≡ open_calls id (occurrences id pending) items
  unfolding unanswered open_calls
  unanswered-occurrences id pending [] = refl
  unanswered-occurrences id pending (user_message i content ∷ items) =
      unanswered-occurrences id pending items
  unanswered-occurrences id pending (assistant_message i content phase ∷ items) =
      unanswered-occurrences id pending items
  unanswered-occurrences id pending (reasoning i thinking signature encrypted ∷ items) =
      unanswered-occurrences id pending items
  unanswered-occurrences id pending (tool_call i call_id namespace name arguments raw ∷ items) =
      rw (sym (append-occurrences id call_id pending))
        (unanswered-occurrences id (pending ++ call_id ∷ []) items)
  unanswered-occurrences id pending (tool_result i call_id output is_error ∷ items) =
      rw (sym (remove_first-occurrences id call_id pending))
        (unanswered-occurrences id (remove_first call_id pending) items)

  pub unanswered-Sublist :
      (pending base : List String) (items : List (CanonicalItem V))
      → Sublistᴰ pending base
      → Sublistᴰ (unanswered pending items) (base ++ call_ids items)
  unfolding unanswered call_ids
  unanswered-Sublist pending base [] s = subst (Sublistᴰ pending) (sym (append-nil base)) s
  unanswered-Sublist pending base (user_message i content ∷ items) s =
      unanswered-Sublist pending base items s
  unanswered-Sublist pending base (assistant_message i content phase ∷ items) s =
      unanswered-Sublist pending base items s
  unanswered-Sublist pending base (reasoning i thinking signature encrypted ∷ items) s =
      unanswered-Sublist pending base items s
  unanswered-Sublist pending base (tool_call i call_id namespace name arguments raw ∷ items) s =
      subst (Sublistᴰ (unanswered (pending ++ call_id ∷ []) items))
        (append_assoc base (call_id ∷ []) (call_ids items))
        (unanswered-Sublist (pending ++ call_id ∷ []) (base ++ call_id ∷ []) items
          (append-Sublist call_id pending base s))
  unanswered-Sublist pending base (tool_result i call_id output is_error ∷ items) s =
      unanswered-Sublist (remove_first call_id pending) base items
        (remove_first-Sublist call_id pending base s)
