-- ===== src/Store/State/Recovered.antt =====
-- The contract of `recover`: the restart of the daemon, or a detach.
use whale_ai_sdk.Base.{
  ◌||◌, ◌∷◌, Bool, Bool-cases, contains, List, Option-cases, String, [], arith, false, inl, inr,
  is_some, map, none, refl, some, string_eq, subst, true, ◌≡◌, ◌∙◌, ◌≢◌, sym,
}
use whale_ai_sdk.Base.TreeMap.{TreeMap, get, get-insert, insert}
use whale_ai_sdk.Protocol.Runs.{RunStatus, UsageMetrics, is_terminal}
use whale_ai_sdk.Store.Backend.Extends.{Keeps, Keeps-refl, Keeps-trans}
use whale_ai_sdk.Store.Error.{ok}
use whale_ai_sdk.Store.State.Closed.{final_snapshot, finalize_forward, finalized, finalized-Keeps}
use whale_ai_sdk.Store.State.Ended.{final-terminal, finalize_ended}
use whale_ai_sdk.Store.State.Finalize.{
  judge, terminal, close_call, fail_runs, failing, finalize, is_cons, live_turns, recover,
}
use whale_ai_sdk.Store.State.Mutate.{usages}
use whale_ai_sdk.Store.State.Usage.{checked_usage}
use whale_ai_sdk.Store.Types.{FinalizedRun, SessionRecord, StoredRun}

failed_ends : is_terminal RunStatus.failed ≡ true
unfolding is_terminal
failed_ends = refl

module _ {V : Type 0} where
  -- What a run needs in order to be failed: its identities agree, as `validate` checks, and its
  -- usage fits, as every committed model step checked.
  pub record CanFail (turn : String) (run : StoredRun V) : Type 0 where
    pub thread : run.snapshot.thread_id ≡ run.params.thread_id
    pub named : run.snapshot.turn_id ≡ turn
    pub usage : UsageMetrics
    pub fits : checked_usage (usages run.model_inputs) ≡ ok usage

  abbrev pub AllCanFail : SessionRecord V → Type 0
  AllCanFail r = (turn : String) (run : StoredRun V) → get r.runs turn ≡ some run → CanFail turn run

  -- The live runs of the record are among `turns`.
  abbrev LiveAmong : SessionRecord V → List String → Type 0
  LiveAmong r turns =
      (turn : String) (run : StoredRun V)
      → get r.runs turn ≡ some run
      → is_terminal run.snapshot.status ≡ false
      → contains turns turn ≡ true

  live-live_turns :
      (runs : TreeMap (StoredRun V)) (turn : String) (run : StoredRun V)
      → get runs turn ≡ some run
      → is_terminal run.snapshot.status ≡ false
      → contains (live_turns runs) turn ≡ true
  unfolding get contains
  live-live_turns [] turn run e live = cc
  live-live_turns ((id, x) ∷ runs) turn run e live = elim (string_eq.dec turn id) [
    | yes here ↦ ground arith
    | no other ↦ ground (arith, live-live_turns runs turn run)
  ]

  -- The keys are those of stored runs.
  abbrev AllStored : SessionRecord V → List String → Type 0
  AllStored r turns =
      (turn : String) → contains turns turn ≡ true → is_some (get r.runs turn) ≡ true

  stored-live_turns :
      (runs : TreeMap (StoredRun V)) (turn : String)
      → contains (live_turns runs) turn ≡ true
      → is_some (get runs turn) ≡ true
  unfolding get contains
  stored-live_turns [] turn e = cc
  stored-live_turns ((id, x) ∷ runs) turn e = ground (arith, stored-live_turns runs turn)

  record OneFailed (r : SessionRecord V) (turn : String) (r' : SessionRecord V) : Type 0 where
    stored : is_some (get r'.runs turn) ≡ true
    ended : (x : StoredRun V) → get r'.runs turn ≡ some x → is_terminal x.snapshot.status ≡ true
    others : (j : String) → j ≢ turn → get r'.runs j ≡ get r.runs j
    can : (x : StoredRun V) → get r'.runs turn ≡ some x → CanFail turn x
    kept : Keeps r r'

  abbrev Fails : SessionRecord V → String → StoredRun V → Type 0
  Fails r turn run =
      (r' : SessionRecord V) × (f : FinalizedRun V) × (finalize r turn (failing run) ≡ ok (r', f))
      × OneFailed r turn r'

  fail_ended :
      (r : SessionRecord V) (turn : String) (run : StoredRun V)
      → get r.runs turn ≡ some run
      → is_terminal run.snapshot.status ≡ true
      → CanFail turn run
      → Fails r turn run
  fail_ended r turn run found ended can = (
    r,
    _,
    finalize_ended r turn run _ found ended,
    record {
      stored = ground arith;
      ended = λ x e. ground arith;
      others = λ j ne. refl;
      can = λ x e. subst (CanFail turn) (ground arith) can;
      kept = Keeps-refl r;
    },
  )

  final-CanFail :
      (r : SessionRecord V) (turn : String) (run : StoredRun V) (can : CanFail turn run)
      → CanFail turn (record run {
        calls = map close_call run.calls;
        snapshot = final_snapshot r turn run (failing run) can.usage;
      })
  unfolding terminal judge
  final-CanFail r turn run can = record {
    thread = ground (arith, can.thread);
    named = ground (arith, can.named);
    usage = can.usage;
    fits = can.fits;
  }

  fail_live :
      (r : SessionRecord V) (turn : String) (run : StoredRun V)
      → get r.runs turn ≡ some run
      → is_terminal run.snapshot.status ≡ false
      → CanFail turn run
      → Fails r turn run
  fail_live r turn run found live can =
      let run' : StoredRun V = record run {
        calls = map close_call run.calls;
        snapshot = final_snapshot r turn run (failing run) can.usage;
      } in
      let same : (x : StoredRun V) → get (insert r.runs turn run') turn ≡ some x → run' ≡ x =
        λ x e. ground (arith, get-insert r.runs turn turn run') in
      let at : (j : String) → _ = λ j. get-insert r.runs turn j run' in
      (
        finalized r turn run (failing run) can.usage,
        _,
        finalize_forward r turn run (failing run) can.usage found live
            (can.thread, can.named, failed_ends) can.fits,
        record {
          stored = rw at (ground arith);
          ended = λ x e.
              subst (λ z. is_terminal z.snapshot.status ≡ true) (same x e)
                (final-terminal r turn run (failing run) can.usage failed_ends);
          others = λ j ne. rw at (ground arith);
          can = λ x e. subst (CanFail turn) (same x e) (final-CanFail r turn run can);
          kept = finalized-Keeps r turn run (failing run) can.usage found live;
        },
      )

  fail_one :
      (r : SessionRecord V) (turn : String) (run : StoredRun V)
      → get r.runs turn ≡ some run
      → CanFail turn run
      → Fails r turn run
  fail_one r turn run found can = elim (Bool-cases (is_terminal run.snapshot.status)) [
    | inl ended ↦ fail_ended r turn run found ended can
    | inr live ↦ fail_live r turn run found live can
  ]

  -- No run of the record is live.
  abbrev pub NoneLive : SessionRecord V → Type 0
  NoneLive r =
      (turn : String) (run : StoredRun V)
      → get r.runs turn ≡ some run
      → is_terminal run.snapshot.status ≡ true

  -- The facts about the record behind one step of the loop.
  AllCanFail-next :
      (r : SessionRecord V) (turn : String) (r' : SessionRecord V)
      → OneFailed r turn r'
      → AllCanFail r
      → AllCanFail r'
  AllCanFail-next r turn r' one all j x e = elim (string_eq.dec j turn) [
    | yes here ↦
        subst (λ k. CanFail k x) (sym here) (one.can x (subst (λ k. get r'.runs k ≡ some x) here e))
    | no other ↦ all j x (sym (one.others j other) ∙ e)
  ]

  AllStored-next :
      (r : SessionRecord V) (turn : String) (rest : List String) (r' : SessionRecord V)
      → OneFailed r turn r'
      → AllStored r (turn ∷ rest)
      → AllStored r' rest
  unfolding contains
  AllStored-next r turn rest r' one all j e = elim (string_eq.dec j turn) [
    | yes here ↦ subst (λ k. is_some (get r'.runs k) ≡ true) (sym here) one.stored
    | no other ↦ rw (one.others j other) (all j (ground arith))
  ]

  LiveAmong-next :
      (r : SessionRecord V) (turn : String) (rest : List String) (r' : SessionRecord V)
      → OneFailed r turn r'
      → LiveAmong r (turn ∷ rest)
      → LiveAmong r' rest
  unfolding contains
  LiveAmong-next r turn rest r' one among j x e live = elim (string_eq.dec j turn) [
    | yes here ↦ absurd (ground (arith, one.ended x (subst (λ k. get r'.runs k ≡ some x) here e)))
    | no other ↦ ground (arith, among j x (sym (one.others j other) ∙ e) live)
  ]

  NoneLive-LiveAmong : (r : SessionRecord V) → LiveAmong r [] → NoneLive r
  unfolding contains
  NoneLive-LiveAmong r among turn run e = elim (Bool-cases (is_terminal run.snapshot.status)) [
    | inl ended ↦ ended
    | inr live ↦ cc (among turn run e live)
  ]

  stored_head :
      (r : SessionRecord V) (turn : String) (rest : List String)
      → AllStored r (turn ∷ rest)
      → get r.runs turn ≢ none
  unfolding contains
  stored_head r turn rest all missing = ground (arith, all turn)

  fail_runs_total :
      (r : SessionRecord V) (turns : List String)
      → AllCanFail r
      → AllStored r turns
      → LiveAmong r turns
      → (r' : SessionRecord V) × (fail_runs r turns ≡ ok r') × NoneLive r' × Keeps r r'
  unfolding fail_runs
  fail_runs_total r [] can stored among = (r, refl, NoneLive-LiveAmong r among, Keeps-refl r)
  fail_runs_total r (turn ∷ rest) can stored among = elim (Option-cases (get r.runs turn)) [
    | inl missing ↦ absurd (stored_head r turn rest stored missing)
    | inr (run, found) ↦
        let (r₁, f, done, one) = fail_one r turn run found (can turn run found) in
        let (r₂, finished, none_live, kept) =
          fail_runs_total r₁ rest (AllCanFail-next r turn r₁ one can)
            (AllStored-next r turn rest r₁ one stored) (LiveAmong-next r turn rest r₁ one among) in
        (r₂, ground (arith, done), none_live, Keeps-trans one.kept kept)
  ]

  -- A record with no owner and no live run, that keeps what was committed.
  pub record Detached (r r' : SessionRecord V) : Type 0 where
    pub owner : r'.owner ≡ none
    pub thread_id : r'.thread_id ≡ none
    pub none_live : NoneLive r'
    pub kept : Keeps r r'

  -- Of a record that is not forgotten, whose runs can be failed, `recover` always succeeds. The
  -- record that it leaves has no owner and no live thread, every run has ended, and the history,
  -- the ended runs, and the identities, intents and outcomes of all calls are kept.
  pub recover-Detached :
      (r : SessionRecord V)
      → r.forgotten ≡ false
      → AllCanFail r
      → (r' : SessionRecord V) × (changed : Bool) × (recover r ≡ ok (r', changed)) × Detached r r'
  unfolding recover
  recover-Detached r live can =
      let (r₁, done, none_live, kept) =
        fail_runs_total r (live_turns r.runs) can (stored-live_turns r.runs)
          (live-live_turns r.runs) in
      (
        record r₁ { owner = none; thread_id = none },
        is_some r.owner || is_cons (live_turns r.runs),
        ground (arith, done),
        record {
          owner = refl;
          thread_id = refl;
          none_live = none_live;
          kept = record { history = kept.history; identities = kept.identities; runs = kept.runs };
        },
      )
