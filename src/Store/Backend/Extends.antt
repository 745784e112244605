-- ===== src/Store/Backend/Extends.antt =====
-- What a committed replacement keeps of a record, as a relation that composes.
use whale_ai_sdk.Base.{
  ◌++◌, ◌∷◌, ◌⊎◌, Bool-cases, Eq, List, String, [], append-nil, append_assoc, arith, false, inl,
  inr, none, refl, some, starts_with, string_eq, true, ◌≡◌, ◌≤◌, ◌∙◌, sym, ap,
}
use whale_ai_sdk.Base.TreeMap.{get}
use whale_ai_sdk.Protocol.Runs.{is_terminal}
use whale_ai_sdk.Store.State.Queries.{find_call}
use whale_ai_sdk.Store.Types.{SessionRecord, StoredCall, StoredRun}

abbrev pub Prefix {ℓ} : {A : Type ℓ} → List A → List A → Type ℓ
Prefix {A} xs ys = (rest : List A) × (ys ≡ xs ++ rest)

pub Prefix-refl {ℓ} : {A : Type ℓ} (xs : List A) → Prefix xs xs
Prefix-refl xs = ([], sym (append-nil xs))

pub Prefix-trans {ℓ} : {A : Type ℓ} (xs ys zs : List A) → Prefix xs ys → Prefix ys zs → Prefix xs zs
Prefix-trans xs ys zs (r, p) (q, e) = (r ++ q, rw (e, p, append_assoc))

pub Prefix-starts_with {ℓ} :
    {A : Type ℓ} ⦃e : Eq A⦄ (ys xs : List A) → starts_with ys xs ≡ true → Prefix xs ys
unfolding starts_with
Prefix-starts_with ys [] h = (ys, refl)
Prefix-starts_with [] (x ∷ xs) h = cc
Prefix-starts_with (y ∷ ys) (x ∷ xs) h =
    let (rest, p) = Prefix-starts_with ys xs (ground arith) in (rest, ground (arith, p))

module _ {V : Type 0} where
  -- The identities of a call stay, and so do its intent, its outcome and its commitment.
  pub record CallExtends (a b : StoredCall V) : Type 0 where
    pub result_item_id : b.result_item_id ≡ a.result_item_id
    pub execution_id : b.execution_id ≡ a.execution_id
    pub step_id : b.step_id ≡ a.step_id
    pub tool_name : b.tool_name ≡ a.tool_name
    pub intent : (a.intent ≡ none) ⊎ (b.intent ≡ a.intent)
    pub outcome : (a.outcome ≡ none) ⊎ (b.outcome ≡ a.outcome)
    pub committed : a.committed ≡ true → b.committed ≡ true

  -- A run keeps its identity, its result once it has ended, and every call.
  pub record RunExtends (a b : StoredRun V) : Type 0 where
    pub thread_id : b.params.thread_id ≡ a.params.thread_id
    pub turn_id : b.params.turn_id ≡ a.params.turn_id
    pub input_items : b.params.input_items ≡ a.params.input_items
    pub effective_options : b.effective_options ≡ a.effective_options
    pub history_start : b.history_start ≡ a.history_start
    pub snapshot : is_terminal a.snapshot.status ≡ true → b.snapshot ≡ a.snapshot
    pub calls :
        (id : String) (c : StoredCall V)
        → find_call id a.calls ≡ some c
        → (d : StoredCall V) × (find_call id b.calls ≡ some d) × CallExtends c d

  -- Of a record that is not forgotten everything committed stays.
  pub record Keeps (a b : SessionRecord V) : Type 0 where
    pub history : Prefix a.history b.history
    pub identities : Prefix a.historical_thread_ids b.historical_thread_ids
    pub runs :
        (turn : String) (run : StoredRun V)
        → get a.runs turn ≡ some run
        → (run' : StoredRun V) × (get b.runs turn ≡ some run') × RunExtends run run'

  pub record Extends (a b : SessionRecord V) : Type 0 where
    pub revision : a.revision ≤ b.revision
    pub epoch : a.epoch ≤ b.epoch
    pub secret : b.secret_digest ≡ a.secret_digest
    pub forgotten : a.forgotten ≡ true → b.forgotten ≡ true
    pub keeps : b.forgotten ≡ false → Keeps a b

  pub CallExtends-refl : (c : StoredCall V) → CallExtends c c
  CallExtends-refl c = ground arith

  CallExtends-trans : {a b c : StoredCall V} → CallExtends a b → CallExtends b c → CallExtends a c
  CallExtends-trans p q = ground arith

  pub RunExtends-refl : (run : StoredRun V) → RunExtends run run
  RunExtends-refl run = record {
    thread_id = refl;
    turn_id = refl;
    input_items = refl;
    effective_options = refl;
    history_start = refl;
    snapshot = λ _. refl;
    calls = λ id c e. (c, e, CallExtends-refl c);
  }

  pub RunExtends-trans : {a b c : StoredRun V} → RunExtends a b → RunExtends b c → RunExtends a c
  RunExtends-trans {a} {b} {c} p q = record {
    thread_id = q.thread_id ∙ p.thread_id;
    turn_id = q.turn_id ∙ p.turn_id;
    input_items = q.input_items ∙ p.input_items;
    effective_options = q.effective_options ∙ p.effective_options;
    history_start = q.history_start ∙ p.history_start;
    snapshot =
        λ t. q.snapshot (ap (λ (s : _). is_terminal s.status) (p.snapshot t) ∙ t) ∙ p.snapshot t;
    calls = λ id x e.
        let (y, found, xy) = p.calls id x e in
        let (z, found', yz) = q.calls id y found in (z, found', CallExtends-trans xy yz);
  }

  pub Keeps-refl : (a : SessionRecord V) → Keeps a a
  Keeps-refl a = record {
    history = Prefix-refl a.history;
    identities = Prefix-refl a.historical_thread_ids;
    runs = λ turn run e. (run, e, RunExtends-refl run);
  }

  pub Keeps-trans : {a b c : SessionRecord V} → Keeps a b → Keeps b c → Keeps a c
  Keeps-trans p q = record {
    history = Prefix-trans _ _ _ p.history q.history;
    identities = Prefix-trans _ _ _ p.identities q.identities;
    runs = λ turn run e.
        let (run', found, h) = p.runs turn run e in
        let (run'', found', h') = q.runs turn run' found in (run'', found', RunExtends-trans h h');
  }

  pub Extends-refl : (a : SessionRecord V) → Extends a a
  Extends-refl a = record {
    revision = omega arith;
    epoch = omega arith;
    secret = refl;
    forgotten = λ f. f;
    keeps = λ _. Keeps-refl a;
  }

  remembered : {a b : SessionRecord V} → Extends a b → b.forgotten ≡ false → a.forgotten ≡ false
  remembered {a} {b} p h = elim (Bool-cases a.forgotten) [
    | inl t ↦ absurd (ground (arith, p.forgotten t))
    | inr f ↦ f
  ]

  pub Extends-trans : {a b c : SessionRecord V} → Extends a b → Extends b c → Extends a c
  Extends-trans p q = record {
    revision = omega arith;
    epoch = omega arith;
    secret = q.secret ∙ p.secret;
    forgotten = λ f. q.forgotten (p.forgotten f);
    keeps = λ f. Keeps-trans (p.keeps (remembered q f)) (q.keeps f);
  }
