-- ===== src/Store/Backend/Dispatch.antt =====
-- The dispatch of tool calls over the life of a stored record.
use whale_ai_sdk.Base.{◌≡◌, ◌≢◌, Eq, List, Option, String, arith, false, some, subst}
use whale_ai_sdk.Base.TreeMap.{get}
use whale_ai_sdk.Protocol.Canonical.{CanonicalItem}
use whale_ai_sdk.Protocol.Runs.{ToolExecutionRecord}
use whale_ai_sdk.Store.Backend.Commits.{StoreCall, perform_all, perform_all-Later}
use whale_ai_sdk.Store.Backend.Extends.{Extends}
use whale_ai_sdk.Store.Backend.Memory.{Records}
use whale_ai_sdk.Store.Env.{Env}
use whale_ai_sdk.Store.Error.{ok}
use whale_ai_sdk.Store.State.Dispatched.{dispatch_once}
use whale_ai_sdk.Store.State.Mutate.{FreshIds, mutate}
use whale_ai_sdk.Store.Types.{SessionRecord, dispatch_intent}

module _ {V : Type 0} ⦃v : Eq V⦄ ⦃env : Env V⦄ where
  -- When the record that a dispatch left is stored, then after any further calls on the store, by
  -- any tasks in any order, the record that is then stored refuses another dispatch of that call,
  -- unless it has been forgotten.
  pub dispatch_once_stored :
      (before sent later next : SessionRecord V) (fresh fresh' : FreshIds) (turn call_id : String)
      (execution execution' : ToolExecutionRecord V) (returned returned' : Option (CanonicalItem V))
      (s : Records V) (cs : List (StoreCall V)) (id : String)
      → mutate before fresh turn (dispatch_intent call_id execution) ≡ ok (sent, returned)
      → get s id ≡ some sent
      → get (perform_all s cs) id ≡ some later
      → later.forgotten ≡ false
      → mutate later fresh' turn (dispatch_intent call_id execution') ≢ ok (next, returned')
  dispatch_once_stored before sent later next fresh fresh' turn call_id execution execution'
        returned returned' s cs id h stored found present =
      let (r, there, extends) = perform_all-Later s cs id sent stored in
      let same : r ≡ later = ground (arith, there, found) in
      let kept : Extends sent later = subst (Extends sent) same extends in
      dispatch_once before sent later next fresh fresh' turn call_id execution execution' returned
        returned' h (kept.keeps present)
