-- ===== src/Store/Journal/Acknowledged.antt =====
-- The contract of an acknowledgment.
use whale_ai_sdk.Base.{
  ◌∷◌, ◌≡◌, Eq, List, String, [], all, any, any_repeat, arith, contains, false, nat_eq, not, refl,
  string_eq, true, ℕ,
}
use whale_ai_sdk.Protocol.Recovery.{UnknownExecution}
use whale_ai_sdk.Store.Env.{Env}
use whale_ai_sdk.Store.Error.{ok}
use whale_ai_sdk.Store.Journal.Apply.{acknowledge, acknowledge_all, required, same_set}
use whale_ai_sdk.Store.State.Queries
use whale_ai_sdk.Store.State.Queries.{unresolved}
use whale_ai_sdk.Store.Types.{SessionRecord}

all-contains :
    (xs ys : List String) (id : String)
    → all (contains ys) xs ≡ true
    → contains xs id ≡ true
    → contains ys id ≡ true
unfolding contains
all-contains [] ys id h member = cc
all-contains (x ∷ xs) ys id h member = elim (string_eq.dec id x) [
  | yes here ↦ ground arith
  | no other ↦ all-contains xs ys id (ground arith) (ground arith)
]

same_set-contains :
    (xs ys : List String) (id : String) → same_set xs ys ≡ true → contains xs id ≡ contains ys id
unfolding same_set
same_set-contains xs ys id h = ground (arith, all-contains xs ys id, all-contains ys xs id)

module _ {V : Type 0} where
  required-acknowledge_all : (us : List (UnknownExecution V)) → required (acknowledge_all us) ≡ []
  required-acknowledge_all [] = refl
  required-acknowledge_all (u ∷ us) = ground (arith, required-acknowledge_all us)

  unresolved-acknowledge_all :
      (us : List (UnknownExecution V))
      → any (λ (u : UnknownExecution V). not u.acknowledged) (acknowledge_all us) ≡ false
  unresolved-acknowledge_all [] = refl
  unresolved-acknowledge_all (u ∷ us) = ground (arith, unresolved-acknowledge_all us)

module _ {V : Type 0} ⦃v : Eq V⦄ ⦃env : Env V⦄ where
  -- What a successful acknowledgment was given and leaves.
  pub record Acknowledged (r : SessionRecord V) (expected : ℕ) (ids : List String)
      (r' : SessionRecord V) : Type 0 where
    pub revision : expected ≡ r.revision
    pub idle : Queries.active r ≡ false
    pub distinct : any_repeat [] ids ≡ false
    pub exact : (id : String) → contains ids id ≡ contains (required r.unknown_executions) id
    pub resolved : unresolved r' ≡ false
    pub none_left : required r'.unknown_executions ≡ []
    pub history : r'.history ≡ r.history
    pub runs : r'.runs ≡ r.runs

  -- An acknowledgment succeeds only at the stored revision, while no run is live, with each
  -- execution that awaits one named exactly once and no other. Afterwards none awaits one, and the
  -- history and the runs are as they were.
  pub acknowledge-Acknowledged :
      (r : SessionRecord V) (expected : ℕ) (ids : List String) (r' : SessionRecord V)
      → acknowledge r expected ids ≡ ok r'
      → Acknowledged r expected ids r'
  unfolding acknowledge unresolved
  acknowledge-Acknowledged r expected ids r' h = record {
    revision = ground arith;
    idle = ground arith;
    distinct = ground arith;
    exact = λ id. same_set-contains ids (required r.unknown_executions) id (ground arith);
    resolved = ground (arith, unresolved-acknowledge_all r.unknown_executions);
    none_left = ground (arith, required-acknowledge_all r.unknown_executions);
    history = ground arith;
    runs = ground arith;
  }
