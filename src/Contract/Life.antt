-- ===== src/Contract/Life.antt =====
-- Histories of one operation: chains of transitions that the guard lets through.
use hermes_life_bridge.Prelude.{
  ℕ, ◌+◌, ◌≡◌, ◌⊎◌, inl, inr, refl, true, List, [], ◌∷◌, arith, if◌then◌else◌,
}
use hermes_life_bridge.Contract.Types.{
  OperationState, prepared, in_flight, retry_wait, completed, failed_safe, delivery_unknown,
  exhausted, BridgeOperation, same_state,
}
use hermes_life_bridge.Contract.Transitions.{is_operation_transition_allowed}
use hermes_life_bridge.Contract.Reach.{
  Move, start, settle, lose, give_up, wait, release, late, allowed_iff,
}

-- The states that a history passes through after the first, in order.
pub data History : BridgeOperation → List OperationState → BridgeOperation → Type 0 where
  here : {a : BridgeOperation} → History a [] a
  then_move :
      {a b c : BridgeOperation} {between : List OperationState}
      → is_operation_transition_allowed a b ≡ true
      → History b between c
      → History a (b.state ∷ between) c

abbrev pub Passes : OperationState → List OperationState → Type 0
Passes s [] = ⊥
Passes s (t ∷ ts) = (t ≡ s) ⊎ Passes s ts

unfoldable pub count_state : OperationState → List OperationState → ℕ
count_state s [] = 0
count_state s (t ∷ ts) = (if same_state t s then 1 else 0) + count_state s ts

starts :
    (a b : BridgeOperation)
    → Move a b
    → b.attempt ≡ a.attempt + (if same_state b.state in_flight then 1 else 0)
unfolding same_state
starts a b (start p q n) = ground arith
starts a b (settle p q n) = ground arith
starts a b (lose p q n) = ground arith
starts a b (give_up p q n) = ground arith
starts a b (wait p q n) = ground arith
starts a b (release p q n) = ground arith
starts a b (late k m p q n) = ground arith

-- Along every history of allowed transitions the attempt counter grows by exactly the number of
-- times that the operation went in flight.
pub attempt-History :
    {a c : BridgeOperation} {between : List OperationState}
    → History a between c
    → c.attempt ≡ a.attempt + count_state in_flight between
unfolding count_state
attempt-History here = omega arith
attempt-History (then_move {a} {b} h rest) =
    omega (arith, starts a b ((allowed_iff a b).0 h).1, attempt-History rest)

abbrev IsTerminal : OperationState → Type 0
IsTerminal s = (s ≡ completed) ⊎ (s ≡ exhausted)

no_move : (a b : BridgeOperation) → IsTerminal a.state → Move a b → ⊥
no_move a b t (start p q n) = ground arith
no_move a b t (settle p q n) = ground arith
no_move a b t (lose p q n) = ground arith
no_move a b t (give_up p q n) = ground arith
no_move a b t (wait p q n) = ground arith
no_move a b t (release p q n) = ground arith
no_move a b t (late k m p q n) = ground arith

-- A completed or exhausted operation has no further history of allowed transitions.
pub History-terminal :
    {a c : BridgeOperation} {between : List OperationState}
    → History a between c
    → (a.state ≡ completed) ⊎ (a.state ≡ exhausted)
    → (between ≡ []) × (c ≡ a)
History-terminal here t = (refl, refl)
History-terminal (then_move {a} {b} h rest) t = absurd (no_move a b t ((allowed_iff a b).0 h).1)

abbrev IsLocked : OperationState → Type 0
IsLocked s = (s ≡ delivery_unknown) ⊎ (s ≡ completed)

IsLocked-move :
    (a b : BridgeOperation)
    → IsLocked a.state
    → Move a b
    → (b.state ≡ failed_safe) ⊎ IsLocked b.state
IsLocked-move a b l (start p q n) = absurd (ground arith)
IsLocked-move a b l (settle p (inl q) n) = inr (inr q)
IsLocked-move a b l (settle p (inr q) n) = inl q
IsLocked-move a b l (lose p q n) = inr (inl q)
IsLocked-move a b l (give_up p q n) = absurd (ground arith)
IsLocked-move a b l (wait p q n) = absurd (ground arith)
IsLocked-move a b l (release p q n) = absurd (ground arith)
IsLocked-move a b l (late k m p q n) = inr (inr q)

History-IsLocked :
    {a c : BridgeOperation} {between : List OperationState}
    → History a between c
    → IsLocked a.state
    → IsLocked c.state ⊎ Passes failed_safe between
History-IsLocked here l = inl l
History-IsLocked (then_move {a} {b} h rest) l =
    elim (IsLocked-move a b l ((allowed_iff a b).0 h).1) [
      | inl safe ↦ inr (inl safe)
      | inr still ↦ elim (History-IsLocked rest still) [ inl e ↦ inl e | inr p ↦ inr (inr p) ]
    ]

-- An operation whose delivery is unknown is never prepared, waiting for a retry or in flight later
-- unless its history has passed through FAILED_SAFE.
pub unknown_never_retried :
    {a c : BridgeOperation} {between : List OperationState}
    → History a between c
    → a.state ≡ delivery_unknown
    → (c.state ≡ prepared) ⊎ (c.state ≡ retry_wait) ⊎ (c.state ≡ in_flight)
    → Passes failed_safe between
unknown_never_retried h u again = elim (History-IsLocked h (inl u)) [
  | inl l ↦ absurd (ground arith)
  | inr p ↦ p
]
