-- ===== src/Core/Context/Pruned.antt =====
-- The contract of `RecentTurnsContext::build`.
use whale_ai_sdk.Base.{
  ◌+◌, ◌-◌, ◌<◌, ◌∷◌, ◌≡◌, ◌≤◌, ◌⊎◌, Bool, Bool-cases, List, Option, String, [], arith, drop, false,
  inl, inr, length, ltb, none, refl, string_eq, suc, true, zero, ℕ,
}
use whale_ai_sdk.Base.TreeMap.{get, get-insert, has_key, insert, remove}
use whale_ai_sdk.Core.Context.{
  Ids, build_recent, has_some, is_user, nth, start_of, user_starts, validate_from, validate_items,
  validate_model_context,
}
use whale_ai_sdk.Protocol.Canonical.{
  CanonicalItem, assistant_message, reasoning, tool_call, tool_result, user_message,
}

-- Every identity of the first set is one of the second.
abbrev Within : Ids → Ids → Type 0
Within t s = (id : String) → has_key s id ≡ false → has_key t id ≡ false

Within-insert : (t s : Ids) (k : String) → Within t s → Within (insert t k tt) (insert s k tt)
Within-insert t s k h id absent = ground (arith, get-insert t k id tt, get-insert s k id tt, h id)

module _ {V : Type 0} where
  -- Fewer identities seen before, and another index, leave a valid list valid.
  weaken :
      (items : List (CanonicalItem V)) (i j : ℕ) (s t pending : Ids) (started : Bool)
      → Within t s
      → validate_from i s pending started items ≡ none
      → validate_from j t pending started items ≡ none
  unfolding validate_from
  weaken [] i j s t pending started w h = ground arith
  weaken (user_message id content ∷ items) i j s t pending started w h =
      ground (arith, weaken items (suc i) (suc j) s t pending false w)
  weaken (assistant_message id content phase ∷ items) i j s t pending started w h =
      ground (arith, weaken items (suc i) (suc j) s t pending false w)
  weaken (reasoning id thinking signature encrypted ∷ items) i j s t pending started w h =
      ground (arith, weaken items (suc i) (suc j) s t pending false w)
  weaken (tool_call id call_id namespace name arguments raw ∷ items) i j s t pending started w h =
      ground (
        arith,
        w call_id,
        weaken items (suc i) (suc j) (insert s call_id tt) (insert t call_id tt)
            (insert pending call_id tt) false (Within-insert t s call_id w),
      )
  weaken (tool_result id call_id output is_error ∷ items) i j s t pending started w h = ground (
    arith,
    weaken items (suc i) (suc j) s t (remove pending call_id) (has_some (remove pending call_id)) w,
  )

  -- The list from the `k`-th user message on: where it starts, that it is valid by itself, and the
  -- number of its user messages.
  abbrev Cut : List (CanonicalItem V) → ℕ → ℕ → Type 0
  Cut items i k =
      (n : ℕ) × (nth (user_starts i items) k ≡ i + n)
      × (validate_from 0 [] [] false (drop n items) ≡ none)
      × (length (user_starts i items) ≡ k + length (user_starts 0 (drop n items)))

  user_starts-length :
      (items : List (CanonicalItem V)) (i j : ℕ)
      → length (user_starts i items) ≡ length (user_starts j items)
  unfolding user_starts
  user_starts-length [] i j = refl
  user_starts-length (item ∷ items) i j = ground (arith, user_starts-length items (suc i) (suc j))

  pending_of :
      (items : List (CanonicalItem V)) (i : ℕ) (s pending : Ids) (started : Bool)
      (item : CanonicalItem V)
      → is_user item ≡ true
      → validate_from i s pending started (item ∷ items) ≡ none
      → (pending ≡ []) × (validate_from 0 [] [] false (item ∷ items) ≡ none)
  unfolding validate_from get
  pending_of items i s [] started (user_message id content) u h =
      (refl, ground (arith, weaken items (suc i) 1 s [] [] false (λ k absent. refl)))
  pending_of items i s (p ∷ pending) started (user_message id content) u h = cc
  pending_of items i s pending started (assistant_message id content phase) u h = cc
  pending_of items i s pending started (reasoning id thinking signature encrypted) u h = cc
  pending_of items i s pending started (tool_call id call_id namespace name arguments raw) u h = cc
  pending_of items i s pending started (tool_result id call_id output is_error) u h = cc

  -- The rest of a valid list is valid from the state after its first item.
  tail_valid :
      (items : List (CanonicalItem V)) (i : ℕ) (s pending : Ids) (started : Bool)
      (item : CanonicalItem V)
      → validate_from i s pending started (item ∷ items) ≡ none
      → (s' : Ids) × (pending' : Ids) × (started' : Bool) × (validate_from
            (suc i)
            s'
            pending'
            started'
            items
          ≡ none)
  unfolding validate_from
  tail_valid items i s pending started (user_message id content) h =
      (s, pending, false, ground arith)
  tail_valid items i s pending started (assistant_message id content phase) h =
      (s, pending, false, ground arith)
  tail_valid items i s pending started (reasoning id thinking signature encrypted) h =
      (s, pending, false, ground arith)
  tail_valid items i s pending started (tool_call id call_id namespace name arguments raw) h =
      (insert s call_id tt, insert pending call_id tt, false, ground arith)
  tail_valid items i s pending started (tool_result id call_id output is_error) h =
      (s, remove pending call_id, has_some (remove pending call_id), ground arith)

  cut :
      (items : List (CanonicalItem V)) (i : ℕ) (s pending : Ids) (started : Bool) (k : ℕ)
      → validate_from i s pending started items ≡ none
      → k < length (user_starts i items)
      → Cut items i k
  unfolding user_starts
  cut [] i s pending started k h lt = absurd (omega arith)
  cut (item ∷ items) i s pending started zero h lt =
      let (s', pending', started', valid) = tail_valid items i s pending started item h in
      elim (Bool-cases (is_user item)) [
        | inr other ↦
            let (n, at, good, count) =
              cut items (suc i) s' pending' started' 0 valid (ground arith) in
            (suc n, ground arith, good, ground arith)
        | inl user ↦ (
          0,
          ground arith,
          (pending_of items i s pending started item user h).1,
          omega (arith, user_starts-length (item ∷ items) i 0),
        )
      ]
  cut (item ∷ items) i s pending started (suc k) h lt =
      let (s', pending', started', valid) = tail_valid items i s pending started item h in
      elim (Bool-cases (is_user item)) [
        | inr other ↦
            let (n, at, good, count) =
              cut items (suc i) s' pending' started' (suc k) valid (ground arith) in
            (suc n, ground arith, good, ground arith)
        | inl user ↦
            let (n, at, good, count) =
              cut items (suc i) s' pending' started' k valid (ground arith) in
            (suc n, ground arith, good, ground arith)
      ]

  -- On a valid history, uncancelled, the policy never fails. It yields a suffix of the history that
  -- is valid by itself: the whole of it when it has at most `max_turns` user messages, and one with
  -- exactly `max_turns` of them when it has more.
  pub build_recent_total :
      (max_turns : ℕ) (prompt : Option String) (history : List (CanonicalItem V))
      → 0 < max_turns
      → validate_items history ≡ none
      → (n : ℕ) × (build_recent max_turns false false prompt history
          ≡ inr (record { system_prompt = prompt; items = drop n history }))
        × (validate_items (drop n history) ≡ none)
        × (((length (user_starts 0 history) ≤ max_turns) × (n ≡ 0))
            ⊎ ((max_turns < length (user_starts 0 history))
                × (length (user_starts 0 (drop n history)) ≡ max_turns)))
  unfolding build_recent start_of validate_items validate_model_context
  build_recent_total max_turns prompt history positive valid =
      elim (Bool-cases (ltb max_turns (length (user_starts 0 history)))) [
        | inr few ↦ (0, ground arith, valid, inl (ground arith, refl))
        | inl many ↦
            let (n, at, good, count) =
              cut history 0 [] [] false (length (user_starts 0 history) - max_turns) valid
                (ground arith) in
            (n, ground arith, good, inr (ground arith, ground arith))
      ]
