-- ===== src/Core/Context.antt =====
-- The context policies of crates/whale-core/src/context.rs. A `BTreeSet<&str>` is a map to `Unit`
-- with sorted keys, an error a constructor with the values that its message shows, and a
-- cancellation token the answers that it gives to the checks before and after.
pub mod Answered
pub mod Pruned
use whale_ai_sdk.Base.{
  ◌!=◌, ◌&&◌, ◌==◌, ◌||◌, ◌∷◌, ◌-◌, Bool, List, Option, String, [], drop, false, if◌then◌else◌, inl,
  inr, is_some, length, ltb, none, not, some, suc, true, zero, ◌⊎◌, ℕ,
}
use whale_ai_sdk.Base.Text.{is_empty}
use whale_ai_sdk.Base.TreeMap.{TreeMap, get, has_key, insert, remove}
use whale_ai_sdk.Protocol.Canonical.{
  CanonicalItem, assistant_message, reasoning, tool_call, tool_result, user_message,
}

pub data ContextError : Type 0 where
  cancelled : ContextError
  empty_call_id : ℕ → ContextError
  duplicate_call_id : String → ContextError
  early_call : String → ContextError
  orphan_result : ℕ → String → ContextError
  interrupted_batch : ℕ → List String → ContextError
  unanswered : List String → ContextError

abbrev pub Ids : Type 0
Ids = TreeMap (Unit {0})

abbrev pub keys : Ids → List String
keys [] = []
keys ((id, u) ∷ rest) = id ∷ keys rest

abbrev pub has_some : Ids → Bool
has_some [] = false
has_some (x ∷ rest) = true

-- `starts[k]`; out of range, where the source panics, `0`.
abbrev pub nth : List ℕ → ℕ → ℕ
nth [] k = 0
nth (n ∷ ns) zero = n
nth (n ∷ ns) (suc k) = nth ns k

abbrev pub or_error {ℓ} : {A : Type ℓ} → Option ContextError → ContextError ⊎ A → ContextError ⊎ A
or_error none rest = rest
or_error (some e) rest = inl e

-- `check_cancelled`.
abbrev pub check_cancelled : Bool → Option ContextError
check_cancelled c = if c then some cancelled else none

pub record ModelContext (V : Type 0) : Type 0 where
  pub system_prompt : Option String
  pub items : List (CanonicalItem V)

module _ {V : Type 0} where
  -- The loop of `validate_items` from an index and its three variables; `none` is `Ok(())`.
  unfoldable pub validate_from : ℕ → Ids → Ids → Bool → List (CanonicalItem V) → Option ContextError
  validate_from index seen pending started [] =
      if has_some pending then some (unanswered (keys pending)) else none
  validate_from index seen pending started
        (tool_call id call_id namespace name arguments raw ∷ items) =
      let rest =
        validate_from (suc index) (insert seen call_id tt) (insert pending call_id tt) false
          items in
      if is_empty call_id
      then some (empty_call_id index)
      else if has_key seen call_id
      then some (duplicate_call_id call_id)
      else if started && has_some pending
      then some (early_call call_id)
      else rest
  validate_from index seen pending started (tool_result id call_id output is_error ∷ items) =
      let left = remove pending call_id in
      let rest = validate_from (suc index) seen left (has_some left) items in
      if has_key pending call_id then rest else some (orphan_result index call_id)
  validate_from index seen pending started (item ∷ items) =
      let rest = validate_from (suc index) seen pending false items in
      if has_some pending then some (interrupted_batch index (keys pending)) else rest

  unfoldable pub validate_items : List (CanonicalItem V) → Option ContextError
  validate_items = validate_from 0 [] [] false

  unfoldable pub validate_model_context : ModelContext V → Option ContextError
  unfolding validate_items
  validate_model_context context = validate_items context.items

  abbrev pub is_user : CanonicalItem V → Bool
  is_user (user_message id content) = true
  is_user _ = false

  -- The indices of the user messages.
  unfoldable pub user_starts : ℕ → List (CanonicalItem V) → List ℕ
  user_starts index [] = []
  user_starts index (item ∷ items) =
      let rest = user_starts (suc index) items in if is_user item then index ∷ rest else rest

  unfoldable pub start_of : ℕ → List (CanonicalItem V) → ℕ
  unfolding user_starts
  start_of max_turns history =
      let starts = user_starts 0 history in
      if ltb max_turns (length starts) then nth starts (length starts - max_turns) else 0

  -- `FullHistoryContext::build`; `before` and `later` say whether the token was cancelled.
  unfoldable pub build_full :
      Bool → Bool → Option String → List (CanonicalItem V) → ContextError ⊎ ModelContext V
  unfolding validate_model_context
  build_full before later prompt history =
      let context : ModelContext V = record { system_prompt = prompt; items = history } in
      or_error (check_cancelled before)
        (or_error (validate_model_context context) (or_error (check_cancelled later) (inr context)))

  -- `RecentTurnsContext::build`.
  unfoldable pub build_recent :
      ℕ → Bool → Bool → Option String → List (CanonicalItem V) → ContextError ⊎ ModelContext V
  unfolding validate_items validate_model_context start_of
  build_recent max_turns before later prompt history =
      let context : ModelContext V = record {
        system_prompt = prompt;
        items = drop (start_of max_turns history) history;
      } in
      or_error (check_cancelled before) (
        or_error (validate_items history) (
          or_error (validate_model_context context)
            (or_error (check_cancelled later) (inr context))))
