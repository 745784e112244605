-- ===== src/Core/Session/Closed.antt =====
-- Closing the unanswered calls of a turn.
use whale_ai_sdk.Base.{
  ◌++◌, ◌∷◌, ◌≡◌, ◌≤◌, List, String, [], append-nil, ap, drop-before, ◌∙◌, arith, drop, map, Bool,
  Option, some, none, true, length, refl, sym, string_eq, suc, ℕ,
}
use whale_ai_sdk.Core.Session.{
  ThreadSession, close_unanswered_tool_calls, closings, remove_first, unanswered,
}
use whale_ai_sdk.Core.Session.Unanswered.{
  call_ids, occurrences, open_calls, unanswered-Sublist, unanswered-occurrences,
}
use mathlib.Core.List.{Sublistᴰ}
use whale_ai_sdk.Protocol.Canonical.{
  CanonicalItem, assistant_message, reasoning, tool_call, tool_result, user_message,
}

remove_first-head : (id : String) (ids : List String) → remove_first id (id ∷ ids) ≡ ids
unfolding remove_first
remove_first-head id ids = ground arith

unanswered-closings :
    (V : Type 0) (fresh : ℕ → String) (n : ℕ) (ids : List String)
    → unanswered ids (closings {V = V} fresh n ids) ≡ []
unfolding unanswered closings
unanswered-closings V fresh n [] = refl
unanswered-closings V fresh n (id ∷ ids) =
    ap (λ p. unanswered p (closings {V = V} fresh (suc n) ids)) (remove_first-head id ids)
    ∙ unanswered-closings V fresh (suc n) ids

-- The call that a result answers, and whether it says that the call failed.
abbrev pub answer_of : {V : Type 0} → CanonicalItem V → Option (String × Bool)
answer_of (tool_result id call_id output is_error) = some (call_id, is_error)
answer_of _ = none

closings-answer_of :
    (V : Type 0) (fresh : ℕ → String) (n : ℕ) (ids : List String)
    → map answer_of (closings {V = V} fresh n ids) ≡ map (λ id. some (id, true)) ids
unfolding closings
closings-answer_of V fresh n [] = refl
closings-answer_of V fresh n (id ∷ ids) =
    ap (λ xs. some (id, true) ∷ xs) (closings-answer_of V fresh (suc n) ids)

module _ {V : Type 0} where
  unanswered-append :
      (xs ys : List (CanonicalItem V)) (pending : List String)
      → unanswered pending (xs ++ ys) ≡ unanswered (unanswered pending xs) ys
  unfolding unanswered
  unanswered-append [] ys pending = refl
  unanswered-append (user_message id content ∷ xs) ys pending = unanswered-append xs ys pending
  unanswered-append (assistant_message id content phase ∷ xs) ys pending =
      unanswered-append xs ys pending
  unanswered-append (reasoning id thinking signature encrypted ∷ xs) ys pending =
      unanswered-append xs ys pending
  unanswered-append (tool_call id call_id namespace name arguments raw ∷ xs) ys pending =
      unanswered-append xs ys (pending ++ call_id ∷ [])
  unanswered-append (tool_result id call_id output is_error ∷ xs) ys pending =
      unanswered-append xs ys (remove_first call_id pending)

  -- The results answer calls of a turn, in the order of these calls and each as failed: for every
  -- identity as many as the turn leaves open.
  pub record Answers (turn results : List (CanonicalItem V)) : Type 0 where
    pub calls : List String
    pub answers : map answer_of results ≡ map (λ id. some (id, true)) calls
    pub ordered : Sublistᴰ calls (call_ids turn)
    pub exact : (id : String) → occurrences id calls ≡ open_calls id 0 turn

  closings-Answers :
      (fresh : ℕ → String) (turn : List (CanonicalItem V))
      → Answers turn (closings fresh 0 (unanswered [] turn))
  unfolding occurrences
  closings-Answers fresh turn = record {
    calls = unanswered [] turn;
    answers = closings-answer_of V fresh 0 (unanswered [] turn);
    ordered = unanswered-Sublist [] [] turn Sublistᴰ.slnil;
    exact = λ id. unanswered-occurrences id [] turn;
  }

  none-open :
      (turn : List (CanonicalItem V)) (id : String)
      → unanswered [] turn ≡ []
      → open_calls id 0 turn ≡ 0
  unfolding occurrences
  none-open turn id h = sym (unanswered-occurrences id [] turn) ∙ ap (occurrences id) h

  -- Closing the calls of a turn, whose start lies within the history: the history grows at its end
  -- by the returned results and nothing else of the session changes; the results are failed ones
  -- that answer calls of the turn in the order of these calls, for every identity as many as the
  -- turn had open; afterwards the turn has no open call; and closing the turn again adds nothing. A
  -- call opens one for its identity, and a later result closes one.
  pub close_twice :
      (fresh fresh' : ℕ → String) (s : ThreadSession V) (history_start : ℕ)
      → history_start ≤ length s.history
      → ((close_unanswered_tool_calls fresh s history_start).0 ≡ record s {
        history = s.history ++ (close_unanswered_tool_calls fresh s history_start).1;
      })
        × Answers
            (drop history_start s.history)
            (close_unanswered_tool_calls fresh s history_start).1
        × ((id : String)
            → open_calls id 0
                (drop history_start (close_unanswered_tool_calls fresh s history_start).0.history)
              ≡ 0)
        × (close_unanswered_tool_calls fresh'
              (close_unanswered_tool_calls fresh s history_start).0
              history_start
            ≡ ((close_unanswered_tool_calls fresh s history_start).0, []))
  unfolding close_unanswered_tool_calls closings
  close_twice fresh fresh' s history_start h =
      let ids = unanswered [] (drop history_start s.history) in
      let answered : unanswered [] (drop history_start (s.history ++ closings fresh 0 ids)) ≡ [] =
        rw
          (
            drop-before history_start s.history (closings fresh 0 ids) h,
            unanswered-append (drop history_start s.history) (closings fresh 0 ids) [],
          )
          (unanswered-closings V fresh 0 ids) in
      (
        refl,
        closings-Answers fresh (drop history_start s.history),
        λ id. none-open (drop history_start (s.history ++ closings fresh 0 ids)) id answered,
        rw (answered, append-nil (s.history ++ closings fresh 0 ids)) refl,
      )
