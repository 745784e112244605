-- ===== src/Store/Journal/Fenced.antt =====
-- A worker of an old attachment among the other users of the store in memory.
use whale_ai_sdk.Base.{
  ◌∷◌, ◌⊎◌, ◌<◌, Eq, List, Option, String, [], arith, inl, inr, none, option_eq, nat_eq, string_eq,
  refl, some, true, ◌≡◌, ℕ,
}
use whale_ai_sdk.Base.TreeMap.{get}
use whale_ai_sdk.Store.Backend.Commits.{StoreCall, perform, perform-Later, perform_all}
use whale_ai_sdk.Store.Backend.Extends.{Extends}
use whale_ai_sdk.Store.Backend.Memory.{Records, load, memory_store}
use whale_ai_sdk.Store.Env.{Env}
use whale_ai_sdk.Store.Error.{err, stale_lease}
use whale_ai_sdk.Store.Journal.{Lease, handle, is_stale}
use whale_ai_sdk.Store.Journal.Apply.{Action}
use whale_ai_sdk.Store.Journal.Fencing.{handle_stale}
use whale_ai_sdk.Store.Journal.Poisoned.{AllRefused, Served}
use whale_ai_sdk.Store.State.Mutate.{FreshIds}
use whale_ai_sdk.Store.Types.{SessionRecord}

-- What happens next: the worker receives a command, or another task calls the store.
pub data Turn (V : Type 0) : Type 0 where
  command : FreshIds → ℕ → Action V → Turn V
  elsewhere : StoreCall V → Turn V

abbrev pub others : {V : Type 0} → List (Turn V) → List (StoreCall V)
others [] = []
others (command fresh now action ∷ turns) = others turns
others (elsewhere call ∷ turns) = call ∷ others turns

module _ {V : Type 0} ⦃v : Eq V⦄ ⦃env : Env V⦄ where
  unfoldable pub interleave :
      Records V → Lease → Option String → List (Turn V) → Served V (Records V)
  interleave s lease poison [] = record { store = s; poison = poison; replies = [] }
  interleave s lease poison (elsewhere call ∷ turns) =
      interleave (perform s call) lease poison turns
  interleave s lease poison (command fresh now action ∷ turns) =
      let h = handle fresh now s lease poison action in
      let after = interleave h.store lease h.poison turns in
      record after { replies = h.reply ∷ after.replies }

  -- The stored record was attached after the lease was given, or is a tombstone.
  abbrev pub IsFenced : Lease → SessionRecord V → Type 0
  IsFenced lease r = (lease.epoch < r.epoch) ⊎ (r.forgotten ≡ true)

  fenced_lem : (lease : Lease) (r : SessionRecord V) → IsFenced lease r → is_stale lease r ≡ true
  unfolding is_stale
  fenced_lem lease r (inl newer) = ground arith
  fenced_lem lease r (inr gone) = ground arith

  Extends-IsFenced :
      (lease : Lease) (r r' : SessionRecord V) → Extends r r' → IsFenced lease r → IsFenced lease r'
  Extends-IsFenced lease r r' h (inl newer) = let epoch = h.epoch in inl (omega arith)
  Extends-IsFenced lease r r' h (inr gone) = inr (h.forgotten gone)

  handle-IsFenced :
      (fresh : FreshIds) (now : ℕ) (s : Records V) (lease : Lease) (action : Action V)
      (r : SessionRecord V)
      → get s lease.id ≡ some r
      → IsFenced lease r
      → handle fresh now s lease none action
        ≡ record { store = s; poison = none; reply = err stale_lease }
  unfolding memory_store load
  handle-IsFenced fresh now s lease action r found fenced =
      handle_stale fresh now s lease action r (ground arith) (fenced_lem lease r fenced)

  -- Once the stored record of a session has a later epoch than a lease, or is a tombstone, the
  -- worker of that lease stays fenced off, whatever other tasks do with the store between its
  -- commands: it answers every command that its lease is stale, is not poisoned, and the store holds
  -- at the end exactly what the other tasks made of it.
  pub interleave_fenced :
      (s : Records V) (lease : Lease) (turns : List (Turn V)) (r : SessionRecord V)
      → get s lease.id ≡ some r
      → (lease.epoch < r.epoch) ⊎ (r.forgotten ≡ true)
      → ((interleave s lease none turns).store ≡ perform_all s (others turns))
        × ((interleave s lease none turns).poison ≡ none)
        × AllRefused (err stale_lease) (interleave s lease none turns).replies
  unfolding interleave perform_all
  interleave_fenced s lease [] r found fenced = (refl, refl, tt)
  interleave_fenced s lease (elsewhere call ∷ turns) r found fenced =
      let (r', found', later) = perform-Later s call lease.id r found in
      interleave_fenced (perform s call) lease turns r' found'
        (Extends-IsFenced lease r r' later fenced)
  interleave_fenced s lease (command fresh now action ∷ turns) r found fenced =
      let (store, poison, replies) = interleave_fenced s lease turns r found fenced in
      rw (handle-IsFenced fresh now s lease action r found fenced) (store, poison, (refl, replies))
