-- ===== src/Protocol/Views/Tail.antt =====
-- The history window as a view of the full history: its last items.
use whale_ai_sdk.Base.{
  ◌+◌, ◌++◌, ◌-◌, ◌<◌, ◌∷◌, ◌≡◌, ◌≤◌, Bool-cases, List, [], arith, drop, drop-before, drop-drop,
  drop_same, ltb→lt, ltb→ge, false, length, length-append, length-drop, ltb, min, sym, true, ℕ, ◌∙◌,
  ap, inl, inr, u64_max,
}
use whale_ai_sdk.Base.Outcome.{ok}
use whale_ai_sdk.Protocol.Canonical.{CanonicalItem, id_of}
use whale_ai_sdk.Protocol.Views.Types.{SessionHistoryWindow}
use whale_ai_sdk.Protocol.Views.Window.{
  append_unless_known, from_history, is_known, push_item, reindexed, validate_history_capacity,
  validate_identity,
}

module _ {V : Type 0} where
  -- The last `capacity` items of a history.
  abbrev pub tail_of : List (CanonicalItem V) → ℕ → SessionHistoryWindow V
  tail_of history capacity = record {
    items = drop (length history - capacity) history;
    start_index = length history - capacity;
    total_items = length history;
    capacity = capacity;
  }

  -- A history window that is built from a history holds the last items of it, as many as its
  -- capacity allows, with the index of the first and the number of all, and its capacity is
  -- between 1 and 1024.
  pub from_history-tail_of :
      (history : List (CanonicalItem V)) (capacity : ℕ) (w : SessionHistoryWindow V)
      → from_history history capacity ≡ ok w
      → (w ≡ tail_of history capacity) × (0 < capacity) × (capacity ≤ 1024)
  unfolding from_history validate_history_capacity
  from_history-tail_of history capacity w h =
      let same : length history - min (length history) capacity ≡ length history - capacity =
        omega arith in
      ground arith

  kept-drop :
      (history : List (CanonicalItem V)) (capacity : ℕ) (item : CanonicalItem V)
      → drop (length history - capacity) history ++ item ∷ []
        ≡ drop (length history - capacity) (history ++ item ∷ [])
  kept-drop history capacity item =
      sym (drop-before (length history - capacity) history (item ∷ []) (omega arith))

  push_item-tail_of :
      (history : List (CanonicalItem V)) (capacity : ℕ) (item : CanonicalItem V)
      → 0 < capacity
      → push_item (tail_of history capacity) item (length history + 1)
        ≡ tail_of (history ++ item ∷ []) capacity
  unfolding push_item
  push_item-tail_of history capacity item positive =
      let longer = history ++ item ∷ [] in
      let count : length longer ≡ length history + 1 =
        omega (arith, length-append history (item ∷ [])) in
      let items = drop (length history - capacity) history ++ item ∷ [] in
      let kept : items ≡ drop (length history - capacity) longer =
        kept-drop history capacity item in
      let size : length items ≡ length longer - (length history - capacity) =
        ap (λ xs. length xs) kept ∙ length-drop (length history - capacity) longer in
      elim (Bool-cases (ltb capacity (length items))) [
        | inl full ↦
            let more = ltb→lt capacity (length items) full in
            let dropped : drop (length items - capacity) items
                ≡ drop (length longer - capacity) longer =
              ap (λ xs. drop (length items - capacity) xs) kept
              ∙ drop-drop (length items - capacity) (length history - capacity) longer
              ∙ drop_same (length history - capacity + (length items - capacity))
                  (length longer - capacity) longer (omega arith) in
            let rest : length (drop (length longer - capacity) longer) ≡ capacity =
              omega (arith, length-drop (length longer - capacity) longer) in
            ground arith
        | inr fits ↦
            let few = ltb→ge capacity (length items) fits in
            let all : items ≡ drop (length longer - capacity) longer =
              kept
              ∙ drop_same (length history - capacity) (length longer - capacity) longer
                  (omega arith) in
            ground arith
      ]

  -- Appending an item to the window of a history gives the window of the history with that item at
  -- its end: for a positive capacity, an item whose identity is valid and not in the window, and a
  -- history shorter than the largest u64.
  pub append_unless_known-tail_of :
      (history : List (CanonicalItem V)) (capacity : ℕ) (item : CanonicalItem V)
      → 0 < capacity
      → is_known (id_of item) (tail_of history capacity).items ≡ false
      → validate_identity (id_of item) "history item_id" ≡ ok tt
      → length history < u64_max
      → append_unless_known (tail_of history capacity) item false
        ≡ ok (tail_of (history ++ item ∷ []) capacity, true)
  unfolding append_unless_known reindexed push_item
  append_unless_known-tail_of history capacity item positive unknown valid room =
      let pushed = push_item-tail_of history capacity item positive in
      let count = length-append history (item ∷ []) in
      let size = length-drop (length (history ++ item ∷ []) - capacity) (history ++ item ∷ []) in
      ground arith
