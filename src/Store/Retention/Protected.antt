-- ===== src/Store/Retention/Protected.antt =====
-- Which records a sweep of the store in memory may change.
use whale_ai_sdk.Base.{
  ◌||◌, ◌∷◌, ◌≡◌, ◌⊎◌, Bool, Bool-cases, Eq, List, Option-cases, String, [], arith, false, inl, inr,
  is_some, not, refl, some, string_eq, true, ℕ,
}
use whale_ai_sdk.Base.TreeMap.{get, get-insert, insert}
use whale_ai_sdk.Protocol.Limits.{StoreRetentionPolicy}
use whale_ai_sdk.Store.Backend.Memory.{Records, compare_exchange, load, memory_store}
use whale_ai_sdk.Store.Env.{Env}
use whale_ai_sdk.Store.Error.{Result, Result-cases, Result-split, err, ok}
use whale_ai_sdk.Store.Retention.Lifecycle.{RetentionMetadata, retired, retirement_replacement}
use whale_ai_sdk.Store.Retention.Sweep.{
  Sweeping, counted, has_excess, has_expired, is_protected, reason_of, retire_detached, sweep_row,
  sweep_rows, tombstone,
}
use whale_ai_sdk.Store.Backend.Replace.{validate_replace}
use whale_ai_sdk.Store.Runtime.{after}
use whale_ai_sdk.Store.State.Queries
use whale_ai_sdk.Store.State.Queries.{unresolved}
use whale_ai_sdk.Store.Types.{SessionRecord}

after-store {κ} : {S : Type κ} (x : S × Result (Unit {0})) (b : Bool) → (after x b).0 ≡ x.0
after-store (s, ok done) b = refl
after-store (s, err e) b = refl

module _ {V : Type 0} where
  -- A record that has an owner, a live run, or an execution that awaits acknowledgment.
  unfoldable pub is_used : SessionRecord V → Bool
  is_used r = is_some r.owner || Queries.active r || unresolved r

module _ {V : Type 0} ⦃v : Eq V⦄ ⦃env : Env V⦄ where
  replacement_used :
      (r new : SessionRecord V) (expected now : ℕ) (reason : String)
      → is_used r ≡ true
      → retirement_replacement r expected now reason ≡ ok (some new)
      → ⊥
  unfolding is_used retirement_replacement retired
  replacement_used r new expected now reason used h = ground arith

  -- The memory store after an exchange: the same, or with the record under its identity.
  exchange_store :
      (s : Records V) (id : String) (expected : ℕ) (new : SessionRecord V)
      → ((compare_exchange s id expected new).0 ≡ s)
        ⊎ ((compare_exchange s id expected new).0 ≡ insert s id new)
  unfolding compare_exchange
  exchange_store s id expected new = elim (Option-cases (get s id)) [
    | inl missing ↦ inl (ground arith)
    | inr (old, found) ↦ elim (Result-cases (validate_replace old id expected new)) [
      | inl accepted ↦ inr (ground arith)
      | inr (e, refused) ↦ inl (ground arith)
    ]
  ]

  counted-store :
      (row : RetentionMetadata) (w : Sweeping (Records V)) (x : Records V × Result Bool)
      → (counted V row w x).0.store ≡ x.0
  unfolding counted
  counted-store row w (s, ok true) = refl
  counted-store row w (s, ok false) = refl
  counted-store row w (s, err e) = refl

  tombstone_used :
      (s : Records V) (row : String) (expected now : ℕ) (reason : String) (r new : SessionRecord V)
      → get s row ≡ some r
      → is_used r ≡ true
      → tombstone {V = V} s row expected now reason ≡ ok (some new)
      → ⊥
  unfolding tombstone memory_store load
  tombstone_used s row expected now reason r new found used made =
      replacement_used r new expected now reason used (ground arith)

  retire_used :
      (s : Records V) (row : String) (expected now : ℕ) (reason : String) (id : String)
      (r : SessionRecord V)
      → get s id ≡ some r
      → is_used r ≡ true
      → get (retire_detached V s row expected now reason).0 id ≡ some r
  unfolding retire_detached memory_store
  retire_used s row expected now reason id r found used =
      elim (Result-split (tombstone {V = V} s row expected now reason)) [
        | inr (e, refused) ↦ rw (retire_detached, refused) found
        | inl (replacement, made) ↦ elim (Option-cases replacement) [
          | inl already ↦ rw (retire_detached, made, already) found
          | inr (new, is) ↦
              rw (retire_detached, made, is, after-store (compare_exchange s row expected new) true)
                (elim (exchange_store s row expected new) [
                  | inl same ↦ rw same found
                  | inr stored ↦ elim (string_eq.dec id row) [
                    | yes here ↦ absurd (
                        tombstone_used s row expected now reason r new (ground arith) used
                          (ground arith))
                    | no other ↦ rw (stored, get-insert s row id new) (ground arith)
                  ]
                ])
        ]
      ]

  sweep_row_used :
      (policy : StoreRetentionPolicy) (now : ℕ) (row : RetentionMetadata) (w : Sweeping (Records V))
      (id : String) (r : SessionRecord V)
      → get w.store id ≡ some r
      → is_used r ≡ true
      → get (sweep_row V policy now row w).0.store id ≡ some r
  unfolding sweep_row
  sweep_row_used policy now row w id r found used =
      elim (Bool-cases
        (is_protected row || not (has_expired policy now row || has_excess policy w))) [
          | inl skipped ↦ rw (sweep_row, skipped) found
          | inr tried ↦
              let reason = reason_of (has_expired policy now row) in
              rw
                (
                  sweep_row,
                  tried,
                  counted-store row w
                      (retire_detached V w.store row.recovery_id row.revision now reason),
                )
                (retire_used w.store row.recovery_id row.revision now reason id r found used)
        ]

  -- A sweep of the store in memory, with whatever rows, counters, policy and clock, leaves every
  -- record as it is that has an owner, a live run, or an execution that awaits acknowledgment.
  pub sweep_rows-kept :
      (policy : StoreRetentionPolicy) (now : ℕ) (rows : List RetentionMetadata)
      (w : Sweeping (Records V)) (id : String) (r : SessionRecord V)
      → get w.store id ≡ some r
      → is_used r ≡ true
      → get (sweep_rows V policy now rows w).0.store id ≡ some r
  unfolding sweep_rows
  sweep_rows-kept policy now [] w id r found used = found
  sweep_rows-kept policy now (row ∷ rest) w id r found used =
      let step = sweep_row_used policy now row w id r found used in
      elim (Result-cases (sweep_row V policy now row w).1) [
        | inl done ↦
            rw (sweep_rows, done)
              (sweep_rows-kept policy now rest (sweep_row V policy now row w).0 id r step used)
        | inr (e, stopped) ↦ rw (sweep_rows, stopped) step
      ]
