-- ===== src/Paper/Lifecycle.antt =====
-- The lifecycle of a paper order as a graph, and the runs of events through it.
use algo_manus.Prelude.{
  ℕ, zero, suc, ◌≤◌, Bool, true, false, Option, none, some, List, [], ◌∷◌, ◌≡◌, ◌↔◌, refl, sym, ap,
  ◌∙◌, arith, ◌⊎◌, inl, inr, Option-cases, Bool-cases,
}
use algo_manus.Paper.{PaperOrderStatus, PaperEventType, ordinal, same_status, apply}

abbrev from_ordinal : ℕ → PaperOrderStatus
from_ordinal zero = PaperOrderStatus.pending_risk
from_ordinal (suc zero) = PaperOrderStatus.risk_approved
from_ordinal (suc (suc zero)) = PaperOrderStatus.rejected
from_ordinal (suc (suc (suc zero))) = PaperOrderStatus.accepted
from_ordinal (suc (suc (suc (suc zero)))) = PaperOrderStatus.working
from_ordinal (suc (suc (suc (suc (suc zero))))) = PaperOrderStatus.partially_filled
from_ordinal (suc (suc (suc (suc (suc (suc zero)))))) = PaperOrderStatus.filled
from_ordinal (suc (suc (suc (suc (suc (suc (suc zero))))))) = PaperOrderStatus.cancelled
from_ordinal (suc (suc (suc (suc (suc (suc (suc (suc n)))))))) = PaperOrderStatus.reconciled

from_ordinal-ordinal : (s : PaperOrderStatus) → from_ordinal (ordinal s) ≡ s
from_ordinal-ordinal PaperOrderStatus.pending_risk = refl
from_ordinal-ordinal _ = refl

-- The comparison of statuses decides their equality.
pub same_status_iff : (a b : PaperOrderStatus) → (same_status a b ≡ true) ↔ (a ≡ b)
same_status_iff a b = (
  λ h.
      let e : ordinal a ≡ ordinal b = ground arith in
      sym (from_ordinal-ordinal a) ∙ ap from_ordinal e ∙ from_ordinal-ordinal b,
  λ e. rw e (ground arith),
)

-- How far a status stands from the proposal.
abbrev pub stage : PaperOrderStatus → ℕ
stage PaperOrderStatus.pending_risk = 0
stage PaperOrderStatus.risk_approved = 1
stage PaperOrderStatus.rejected = 2
stage PaperOrderStatus.accepted = 2
stage PaperOrderStatus.working = 3
stage PaperOrderStatus.partially_filled = 4
stage PaperOrderStatus.filled = 5
stage PaperOrderStatus.cancelled = 5
stage PaperOrderStatus.reconciled = 6

-- The statuses that an order reaches only after its acceptance, fills and cancellation included.
pub data IsPlaced : PaperOrderStatus → Type 0 where
  accepted : IsPlaced PaperOrderStatus.accepted
  working : IsPlaced PaperOrderStatus.working
  partially_filled : IsPlaced PaperOrderStatus.partially_filled
  filled : IsPlaced PaperOrderStatus.filled
  cancelled : IsPlaced PaperOrderStatus.cancelled

-- An event that is in sequence never takes an order back to an earlier stage.
pub apply-stage :
    (s t : PaperOrderStatus) (e : PaperEventType) (risk : Option Bool)
    → apply s e risk ≡ some t
    → stage s ≤ stage t
unfolding apply
apply-stage s t PaperEventType.risk_decision risk h = ground arith
apply-stage s t _ risk h = ground arith

-- An event with the value of `risk_allowed` that its evidence holds.
abbrev pub Evidence : Type 0
Evidence = PaperEventType × Option Bool

-- The status after a stream of events; `none` once an event is out of sequence.
unfoldable pub run : PaperOrderStatus → List Evidence → Option PaperOrderStatus
run s [] = some s
run s ((e, risk) ∷ events) = elim (apply s e risk) [ none ↦ none | some t ↦ run t events ]

-- A risk decision that allows the order is among the events.
abbrev pub HasApproval : List Evidence → Type 0
HasApproval [] = ⊥
HasApproval ((e, risk) ∷ events) =
    (e ≡ PaperEventType.risk_decision) × (risk ≡ some true) ⊎ HasApproval events

-- Approved or placed.
abbrev is_past_risk : PaperOrderStatus → Bool
is_past_risk PaperOrderStatus.pending_risk = false
is_past_risk PaperOrderStatus.rejected = false
is_past_risk PaperOrderStatus.reconciled = false
is_past_risk _ = true

-- One event that takes an order past the risk gate from before it is an approval.
gate :
    (s t : PaperOrderStatus) (e : PaperEventType) (risk : Option Bool)
    → apply s e risk ≡ some t
    → is_past_risk s ≡ false
    → is_past_risk t ≡ true
    → (e ≡ PaperEventType.risk_decision) × (risk ≡ some true)
unfolding apply
gate s t PaperEventType.risk_decision risk h p q = ground arith
gate s t _ risk h p q = ground arith

past_risk_approved :
    (s : PaperOrderStatus) (events : List Evidence) {t : PaperOrderStatus}
    → is_past_risk s ≡ false
    → run s events ≡ some t
    → is_past_risk t ≡ true
    → HasApproval events
unfolding run
past_risk_approved s [] p h q = ground arith
past_risk_approved s ((e, risk) ∷ events) {t} p h q = elim (Option-cases (apply s e risk)) [
  | inl none_next ↦ ground arith
  | inr (u, step) ↦ elim (Bool-cases (is_past_risk u)) [
    | inl past ↦ inl (gate s u e risk step p past)
    | inr before ↦ inr (past_risk_approved u events before (ground arith) q)
  ]
]

-- A stream of events that takes a new order to acceptance, or to any status after it other than
-- reconciliation, holds a risk decision that allows the order.
pub placed_needs_approval :
    (events : List Evidence) {t : PaperOrderStatus}
    → IsPlaced t
    → run PaperOrderStatus.pending_risk events ≡ some t
    → HasApproval events
placed_needs_approval events IsPlaced.accepted h = past_risk_approved _ events refl h refl
placed_needs_approval events IsPlaced.working h = past_risk_approved _ events refl h refl
placed_needs_approval events IsPlaced.partially_filled h = past_risk_approved _ events refl h refl
placed_needs_approval events IsPlaced.filled h = past_risk_approved _ events refl h refl
placed_needs_approval events IsPlaced.cancelled h = past_risk_approved _ events refl h refl
