-- ===== src/Store/State/Admitted.antt =====
-- The contract of `begin`.
use whale_ai_sdk.Base.{
  ◌&&◌, ◌++◌, ◌==◌, ◌∷◌, ◌≡◌, Bool, Bool-cases, Eq, [], ◌∙◌, Option-cases, String, any, arith,
  false, if◌then◌else◌, inl, inr, length, none, refl, some, string_eq, subst, true,
}
use whale_ai_sdk.Base.TreeMap.{TreeMap, get, get-insert, insert, values}
use whale_ai_sdk.Protocol.Runs.{RunSnapshot, StartTurnParams, params_eq}
use whale_ai_sdk.Store.Backend.Extends.{Keeps, Prefix-refl, RunExtends, RunExtends-refl}
use whale_ai_sdk.Store.Env.{Env}
use whale_ai_sdk.Store.Error.{conflict, err, ok}
use whale_ai_sdk.Store.State.Begin.{accept, bad_acceptance, begin, begin_new}
use whale_ai_sdk.Store.State.Queries
use whale_ai_sdk.Store.State.Queries.{is_live, unresolved}
use whale_ai_sdk.Store.Types.{SessionRecord, StoredRun}

module _ {V : Type 0} where
  abbrev accepted_run : SessionRecord V → StartTurnParams V → RunSnapshot V → V → StoredRun V
  accepted_run r params snapshot options = record {
    params = params;
    snapshot = record snapshot { items = params.input_items };
    effective_options = options;
    history_start = length r.history;
    model_inputs = [];
    calls = [];
  }

  any-get :
      (runs : TreeMap (StoredRun V)) (p : StoredRun V → Bool) (turn : String) (run : StoredRun V)
      → get runs turn ≡ some run
      → any p (values runs) ≡ false
      → p run ≡ false
  unfolding get
  any-get ((j, x) ∷ runs) p turn run e h = elim (Bool-cases (turn == j)) [
    | inl here ↦ ground arith
    | inr other ↦ any-get runs p turn run (ground arith) (ground arith)
  ]
  any-get [] p turn run e h = cc

  inserted-runs :
      (runs : TreeMap (StoredRun V)) (turn : String) (run : StoredRun V)
      → get runs turn ≡ none
      → (j : String) (x : StoredRun V) → get runs j ≡ some x
      → (y : StoredRun V) × (get (insert runs turn run) j ≡ some y) × RunExtends x y
  inserted-runs runs turn run fresh j x e =
      (x, rw (get-insert runs turn j run) (ground arith), RunExtends-refl x)

module _ {V : Type 0} ⦃v : Eq V⦄ ⦃env : Env V⦄ where
  begin_new-accept :
      (r : SessionRecord V) (params : StartTurnParams V) (snapshot : RunSnapshot V) (options : V)
      (r' : SessionRecord V) (added : Bool)
      → begin_new r params snapshot options ≡ ok (r', added)
      → (r' ≡ accept r params snapshot options)
        × (added ≡ true)
        × (Queries.active r ≡ false)
        × (unresolved r ≡ false)
        × (bad_acceptance r params snapshot ≡ false)
  unfolding begin_new
  begin_new-accept r params snapshot options r' added h = ground arith

  -- What holds once `begin` has added a run.
  pub record Begun (r : SessionRecord V) (params : StartTurnParams V) (snapshot : RunSnapshot V)
      (options : V) (r' : SessionRecord V) : Type 0 where
    pub fresh : get r.runs params.turn_id ≡ none
    pub run : StoredRun V
    pub stored : get r'.runs params.turn_id ≡ some run
    pub live : is_live run ≡ true
    pub params_kept : run.params ≡ params
    pub options_kept : run.effective_options ≡ options
    pub items : run.snapshot.items ≡ params.input_items
    pub history_start : run.history_start ≡ length r.history
    pub history : r'.history ≡ r.history ++ params.input_items
    pub alone :
        (turn : String) (other : StoredRun V)
        → get r'.runs turn ≡ some other
        → is_live other ≡ true
        → turn ≡ params.turn_id
    pub resolved : unresolved r' ≡ false
    pub attached : r'.thread_id ≡ some params.thread_id
    pub kept : Keeps r r'

  accept-Begun :
      (r : SessionRecord V) (params : StartTurnParams V) (snapshot : RunSnapshot V) (options : V)
      → get r.runs params.turn_id ≡ none
      → Queries.active r ≡ false
      → unresolved r ≡ false
      → bad_acceptance r params snapshot ≡ false
      → Begun r params snapshot options (accept r params snapshot options)
  unfolding accept Queries.active unresolved bad_acceptance
  accept-Begun r params snapshot options fresh idle resolved good = record {
    fresh = fresh;
    run = accepted_run r params snapshot options;
    stored = ground (
      arith,
      get-insert r.runs params.turn_id params.turn_id (accepted_run r params snapshot options),
    );
    live = ground arith;
    params_kept = refl;
    options_kept = refl;
    items = refl;
    history_start = refl;
    history = refl;
    alone = λ turn other e live. elim (string_eq.dec turn params.turn_id) [
      | yes here ↦ here
      | no there ↦ absurd (
          ground (
            arith,
            get-insert r.runs params.turn_id turn (accepted_run r params snapshot options),
            any-get r.runs is_live turn other,
          ))
    ];
    resolved = resolved;
    attached = ground arith;
    kept = record {
      history = (params.input_items, refl);
      identities = Prefix-refl r.historical_thread_ids;
      runs = inserted-runs r.runs params.turn_id (accepted_run r params snapshot options) fresh;
    };
  }

  -- When `begin` adds a run, the run is stored live under its turn with the caller's parameters and
  -- effective options, it starts at the end of the former history, its input follows that history,
  -- it is the only live run, nothing awaits acknowledgment, and everything committed is kept.
  pub begin-Begun :
      (r : SessionRecord V) (params : StartTurnParams V) (snapshot : RunSnapshot V) (options : V)
      (r' : SessionRecord V)
      → begin r params snapshot options ≡ ok (r', true)
      → Begun r params snapshot options r'
  unfolding begin
  begin-Begun r params snapshot options r' h = elim (Option-cases (get r.runs params.turn_id)) [
    | inr (old, found) ↦ absurd (ground arith)
    | inl fresh ↦
        let (e, added, idle, resolved, good) =
          begin_new-accept r params snapshot options r' true (ground arith) in
        subst (Begun r params snapshot options) (ground arith)
          (accept-Begun r params snapshot options fresh idle resolved good)
  ]

  pub begin_old :
      (r : SessionRecord V) (params : StartTurnParams V) (snapshot : RunSnapshot V) (options : V)
      (r' : SessionRecord V) (added : Bool) (old : StoredRun V)
      → get r.runs params.turn_id ≡ some old
      → begin r params snapshot options ≡ ok (r', added)
      → (r' ≡ r)
        × (params_eq old.params params ≡ true)
        × (old.effective_options ≡ options)
        × (added ≡ false)
  unfolding begin
  begin_old r params snapshot options r' added old found h = ground arith

  begin_again :
      (r : SessionRecord V) (params : StartTurnParams V) (snapshot : RunSnapshot V) (options : V)
      (old : StoredRun V)
      → get r.runs params.turn_id ≡ some old
      → begin r params snapshot options ≡ (
          if params_eq old.params params && old.effective_options == options
          then ok (r, false)
          else err conflict)
  unfolding begin
  begin_again r params snapshot options old found = ground arith

  pub no_new :
      (r : SessionRecord V) (params : StartTurnParams V) (snapshot : RunSnapshot V) (options : V)
      (r' : SessionRecord V) (added : Bool)
      → get r.runs params.turn_id ≡ none
      → begin r params snapshot options ≡ ok (r', added)
      → added ≡ false
      → ⊥
  unfolding begin
  no_new r params snapshot options r' added fresh h none_added =
      let (e, yes_added, idle, resolved, good) =
        begin_new-accept r params snapshot options r' added (ground arith) in
      cc

  -- After `begin` succeeded, with a run added or found, a second call for the same turn, with any
  -- snapshot, changes nothing: it reports that no run was added when the effective options are the
  -- same, and a conflict when they differ. The condition on the parameters excludes a NaN among
  -- the sampling options.
  pub begin_retry :
      (r : SessionRecord V) (params : StartTurnParams V) (first second : RunSnapshot V)
      (options options' : V) (r' : SessionRecord V) (added : Bool)
      → params_eq params params ≡ true
      → begin r params first options ≡ ok (r', added)
      → begin r' params second options'
        ≡ (if options == options' then ok (r', false) else err conflict)
  begin_retry r params first second options options' r' added same h =
      elim (Option-cases (get r.runs params.turn_id)) [
        | inr (old, found) ↦
            let (e, agrees, kept, no_run) = begin_old r params first options r' added old found h in
            begin_again r' params second options' old (ground arith) ∙ ground arith
        | inl fresh ↦ elim (Bool-cases added) [
          | inr none_added ↦ absurd (no_new r params first options r' added fresh h none_added)
          | inl true_added ↦
              let b = begin-Begun r params first options r' (ground arith) in
              begin_again r' params second options' b.run b.stored
              ∙ rw (b.params_kept, b.options_kept, same) refl
        ]
      ]
