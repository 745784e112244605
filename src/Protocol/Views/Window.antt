-- ===== src/Protocol/Views/Window.antt =====
-- `SessionHistoryWindow`: the last items of a history. A `usize` is at most a `u64`, so that the
-- conversions between them never fail.
use Prim.Native.String.{◌++◌ as append}
use whale_ai_sdk.Base.{
  ◌!=◌, ◌++◌, ◌-◌, ◌==◌, ◌||◌, ◌∷◌, Bool, List, Option, String, [], any, checked_add, contains,
  drop, false, if◌then◌else◌, length, ltb, min, nat_eq, none, some, string_eq, true, ℕ,
}
use whale_ai_sdk.Base.Outcome.{Outcome, err, ok, or_err, refuse, ◌>>=◌, ◌>>◌}
use whale_ai_sdk.Base.Text.{is_blank, is_padded}
use whale_ai_sdk.Protocol.Canonical.{CanonicalItem, id_of}
use whale_ai_sdk.Protocol.Views.Types.{SessionHistoryWindow}

abbrev pub max_session_history_limit : ℕ
max_session_history_limit = 1024

unfoldable pub validate_identity : String → String → Outcome String (Unit {0})
validate_identity value label =
    refuse (is_blank value || is_padded value) (append label " must be nonempty and unpadded")

unfoldable pub validate_history_capacity : ℕ → Outcome String (Unit {0})
validate_history_capacity capacity =
    refuse (capacity == 0 || ltb max_session_history_limit capacity)
      "Session history limit must be between 1 and 1024"

abbrev pub ends_at : Option ℕ → ℕ → Bool
ends_at none total = false
ends_at (some end) total = end == total

module _ {V : Type 0} where
  -- The loop over the identities, with those met before.
  unfoldable pub validate_items_from :
      String → List String → List (CanonicalItem V) → Outcome String (Unit {0})
  validate_items_from message seen [] = ok tt
  validate_items_from message seen (item ∷ items) = do
    validate_identity (id_of item) "history item_id"
    refuse (contains seen (id_of item)) message
    validate_items_from message (id_of item ∷ seen) items

  unfoldable pub new_window : ℕ → Outcome String (SessionHistoryWindow V)
  new_window capacity = do
    validate_history_capacity capacity
    ok (record { items = []; start_index = 0; total_items = 0; capacity = capacity })

  unfoldable pub from_history : List (CanonicalItem V) → ℕ → Outcome String (SessionHistoryWindow V)
  from_history history capacity = do
    validate_history_capacity capacity
    validate_items_from "Canonical history item identities must be unique" [] history
    let start = length history - min (length history) capacity
    ok (record {
      items = drop start history;
      start_index = start;
      total_items = length history;
      capacity = capacity;
    })

  unfoldable pub validate_window : SessionHistoryWindow V → Outcome String (Unit {0})
  validate_window w = do
    validate_history_capacity w.capacity
    refuse
        (length w.items != min w.total_items w.capacity
          || (if ends_at (checked_add w.start_index (length w.items)) w.total_items
              then false
              else true))
        "History window indexes and capacity are inconsistent"
    validate_items_from "History window item identities must be unique" [] w.items

  abbrev pub is_known : String → List (CanonicalItem V) → Bool
  is_known id items = any (λ old. id_of old == id) items

  -- The window after one more item, with the indexes of what it retains.
  unfoldable pub push_item : SessionHistoryWindow V → CanonicalItem V → ℕ → SessionHistoryWindow V
  push_item w item total =
      let items = w.items ++ item ∷ [] in
      let retained =
        if ltb w.capacity (length items) then drop (length items - w.capacity) items else items in
      record w { items = retained; total_items = total; start_index = total - length retained }

  unfoldable pub reindexed :
      SessionHistoryWindow V → CanonicalItem V → ℕ → Outcome String (SessionHistoryWindow V × Bool)
  reindexed w item total =
      let next = push_item w item total in
      if ltb total (length next.items)
      then err "History window indexes underflowed"
      else ok (next, true)

  -- The window, and whether the item was appended. The indexes cannot underflow: the retained
  -- items are among the counted ones.
  unfoldable pub append_unless_known :
      SessionHistoryWindow V
      → CanonicalItem V
      → Bool
      → Outcome String (SessionHistoryWindow V × Bool)
  append_unless_known w item already_known =
      if already_known || is_known (id_of item) w.items then ok (w, false) else (do
        validate_identity (id_of item) "history item_id"
        total ← or_err (checked_add w.total_items 1) "Canonical history item count is exhausted"
        reindexed w item total)
