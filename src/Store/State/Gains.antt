-- ===== src/Store/State/Gains.antt =====
-- The end of a run, described from its calls: what the history and the unknown executions gain.
use whale_ai_sdk.Base.{
  ◌∷◌, ◌⊎◌, Bool-cases, List, Option-cases, String, [], arith, concat_map, false, inl, inr, is_some,
  map, none, refl, some, true, ◌≡◌,
}
use whale_ai_sdk.Protocol.Canonical.{CanonicalItem, CanonicalToolOutput, tool_result}
use whale_ai_sdk.Protocol.Recovery.{UnknownExecution}
use whale_ai_sdk.Protocol.Runs.{ToolExecutionRecord}
use whale_ai_sdk.Store.State.Finalize.{
  close_call, closing_items, closing_outcome, dispatched_reason, undispatched_reason, unknown_of,
  unknowns_of,
}
use whale_ai_sdk.Store.Types.{StoredCall}

module _ {V : Type 0} where
  -- A failed result that answers a call, with the reason.
  abbrev pub failure_of : StoredCall V → String → CanonicalItem V
  failure_of c reason =
      tool_result c.result_item_id c.call_id (CanonicalToolOutput.text reason) true

  -- The outcome of a call at the end of its run: its own, or a failure whose reason says whether the
  -- call had been dispatched.
  abbrev pub IsOutcome : StoredCall V → CanonicalItem V → Type 0
  IsOutcome c item =
      (c.outcome ≡ some item)
      ⊎ ((c.outcome ≡ none) × (c.intent ≡ none) × (item ≡ failure_of c undispatched_reason))
      ⊎ ((c.outcome ≡ none) × (is_some c.intent ≡ true) × (item ≡ failure_of c dispatched_reason))

  -- One outcome for each call that is not committed, in the order of the calls.
  abbrev pub Gains : List (StoredCall V) → List (CanonicalItem V) → Type 0
  Gains [] items = items ≡ []
  Gains (c ∷ calls) items =
      ((c.committed ≡ true) × Gains calls items)
      ⊎ ((c.committed ≡ false)
          × (item : CanonicalItem V) × (rest : List (CanonicalItem V)) × (items ≡ item ∷ rest)
          × IsOutcome c item
          × Gains calls rest)

  pub record IsUnknown (turn : String) (c : StoredCall V) (i : ToolExecutionRecord V)
      (u : UnknownExecution V) : Type 0 where
    pub execution_id : u.execution_id ≡ c.execution_id
    pub turn_id : u.turn_id ≡ turn
    pub call_id : u.call_id ≡ c.call_id
    pub tool_name : u.tool_name ≡ c.tool_name
    pub original_arguments : u.original_arguments ≡ some i.original_arguments
    pub arguments : u.arguments ≡ some i.arguments
    pub reason : u.reason ≡ dispatched_reason
    pub acknowledged : u.acknowledged ≡ false

  -- One unknown execution for each call that was dispatched and has no outcome, in their order.
  abbrev pub Uncertain : String → List (StoredCall V) → List (UnknownExecution V) → Type 0
  Uncertain turn [] unknowns = unknowns ≡ []
  Uncertain turn (c ∷ calls) unknowns =
      ((is_some c.outcome ≡ true) × Uncertain turn calls unknowns)
      ⊎ ((c.intent ≡ none) × Uncertain turn calls unknowns)
      ⊎ ((c.outcome ≡ none)
          × (i : ToolExecutionRecord V) × (u : UnknownExecution V) × (rest : List
              (UnknownExecution V))
          × (c.intent ≡ some i)
          × (unknowns ≡ u ∷ rest)
          × IsUnknown turn c i u
          × Uncertain turn calls rest)

  -- Every call is committed with its outcome, and otherwise as it was.
  abbrev pub Closes : List (StoredCall V) → List (StoredCall V) → Type 0
  Closes [] closed = closed ≡ []
  Closes (c ∷ calls) closed =
      (item : CanonicalItem V) × (rest : List (StoredCall V)) × (closed
        ≡ record c { outcome = some item; committed = true } ∷ rest)
      × IsOutcome c item
      × Closes calls rest

  closing_outcome-IsOutcome : (c : StoredCall V) → IsOutcome c (closing_outcome c)
  unfolding closing_outcome
  closing_outcome-IsOutcome c = elim (Option-cases c.outcome) [
    | inr (item, e) ↦ inl (ground arith)
    | inl missing ↦ elim (Option-cases c.intent) [
      | inl idle ↦ inr (inl (missing, idle, ground arith))
      | inr (i, sent) ↦ inr (inr (missing, ground arith, ground arith))
    ]
  ]

  pub closing_items-Gains :
      (calls : List (StoredCall V)) → Gains calls (concat_map closing_items calls)
  unfolding closing_items
  closing_items-Gains [] = refl
  closing_items-Gains (c ∷ calls) =
      let later = closing_items-Gains calls in
      elim (Bool-cases c.committed) [
        | inl done ↦ inl (done, rw done later)
        | inr fresh ↦ inr (
          fresh,
          closing_outcome c,
          concat_map closing_items calls,
          rw fresh refl,
          closing_outcome-IsOutcome c,
          later,
        )
      ]

  pub unknowns_of-Uncertain :
      (turn : String) (calls : List (StoredCall V))
      → Uncertain turn calls (concat_map (unknowns_of turn) calls)
  unfolding unknowns_of unknown_of
  unknowns_of-Uncertain turn [] = refl
  unknowns_of-Uncertain turn (c ∷ calls) =
      let later = unknowns_of-Uncertain turn calls in
      elim (Option-cases c.outcome) [
        | inr (item, e) ↦ inl (ground arith, rw e later)
        | inl missing ↦ elim (Option-cases c.intent) [
          | inl idle ↦ inr (inl (idle, rw (missing, idle) later))
          | inr (i, sent) ↦ inr (
              inr (
                missing,
                i,
                unknown_of turn c i,
                concat_map (unknowns_of turn) calls,
                sent,
                rw (missing, sent) refl,
                record {
                  execution_id = refl;
                  turn_id = refl;
                  call_id = refl;
                  tool_name = refl;
                  original_arguments = refl;
                  arguments = refl;
                  reason = refl;
                  acknowledged = refl;
                },
                later,
              ))
        ]
      ]

  pub close_call-Closes : (calls : List (StoredCall V)) → Closes calls (map close_call calls)
  unfolding close_call
  close_call-Closes [] = refl
  close_call-Closes (c ∷ calls) = (
    closing_outcome c,
    map close_call calls,
    refl,
    closing_outcome-IsOutcome c,
    close_call-Closes calls,
  )
