-- ===== src/Examples/OrderExamples.antt =====
-- The theorems on execution orders and on the paper lifecycle at concrete inputs.
use algo_manus.Prelude.{true, none, some, List, [], ◌∷◌, ◌≡◌, ◌↔◌, ◌≢◌, inl, refl, arith}
use algo_manus.Prelude.Int.{ℤ, pos, ◌+ℤ◌, ◌-ℤ◌}
use algo_manus.Prelude.Result.{ok}
use algo_manus.Prelude.Floats.{whole}
use algo_manus.Prelude.Text.{is_blank, is_space}
use algo_manus.Prelude.Time.{at}
use algo_manus.Risk.Intent.{OrderSide}
use algo_manus.Orders.{
  OrderStatus, ExecutionOrder, Fill, execution_order, transition, record_fill, new_fill, is_allowed,
  remaining_quantity, excludes_fills, allowed_transitions,
}
use algo_manus.Orders.Validity.{IsValid, execution_order_iff}
use algo_manus.Orders.Lifecycle.{Moved, transition-Moved, partially_filled-failed_refused}
use algo_manus.Orders.Fills.{Fits, after_fill, record_fill_iff}
use algo_manus.Orders.History.{History, Kept, History-Kept, terminal_stays}
use algo_manus.Paper.{PaperEventType, apply}
use algo_manus.Paper.Lifecycle.{IsPlaced, Evidence, HasApproval, placed_needs_approval, run}
use algo_manus.Examples.{intent}

-- An order in the given status, with the given fill, at time 1.
abbrev order : OrderStatus → ℤ → ExecutionOrder ℤ
order status filled = record {
  intent = intent;
  status = status;
  created_at = at 1;
  updated_at = at 1;
  filled_quantity = filled;
}

abbrev four : Fill ℤ
four = record {
  fill_id = "f-1";
  order_id = "o-1";
  instrument_id = "INFY";
  side = OrderSide.buy;
  quantity = pos 4;
  price = pos 5;
  occurred_at = at 2;
}

execution_order_iff_example :
    (execution_order (order OrderStatus.filled (pos 10)) ≡ ok (order OrderStatus.filled (pos 10)))
    ↔ (IsValid (order OrderStatus.filled (pos 10))
        × (order OrderStatus.filled (pos 10) ≡ order OrderStatus.filled (pos 10)))
execution_order_iff_example =
    execution_order_iff (order OrderStatus.filled (pos 10)) (order OrderStatus.filled (pos 10))

submitted-IsValid : IsValid (order OrderStatus.submitted (pos 0))
submitted-IsValid = record {
  created_aware = refl;
  updated_aware = refl;
  ordered = omega arith;
  filled_lower = omega arith;
  filled_upper = omega arith;
  complete = λ e. cc;
  partial_lower = λ e. cc;
  partial_upper = λ e. cc;
  unfilled = λ e. refl;
}

partial-IsValid : IsValid (order OrderStatus.partially_filled (pos 4))
unfolding excludes_fills
partial-IsValid = record {
  created_aware = refl;
  updated_aware = refl;
  ordered = omega arith;
  filled_lower = omega arith;
  filled_upper = omega arith;
  complete = λ e. cc;
  partial_lower = λ e h. omega arith;
  partial_upper = λ e h. omega arith;
  unfilled = λ e. cc;
}

rejected-IsValid : IsValid (order OrderStatus.risk_rejected (pos 0))
rejected-IsValid = record {
  created_aware = refl;
  updated_aware = refl;
  ordered = omega arith;
  filled_lower = omega arith;
  filled_upper = omega arith;
  complete = λ e. cc;
  partial_lower = λ e. cc;
  partial_upper = λ e. cc;
  unfilled = λ e. refl;
}

abbrev acknowledged : ExecutionOrder ℤ
acknowledged = record (order OrderStatus.acknowledged (pos 0)) { updated_at = at 2 }

transition-Moved_example :
    Moved (order OrderStatus.submitted (pos 0)) OrderStatus.acknowledged (at 2) acknowledged
unfolding transition execution_order is_allowed allowed_transitions excludes_fills
transition-Moved_example =
    transition-Moved (order OrderStatus.submitted (pos 0)) OrderStatus.acknowledged (at 2) refl

partially_filled-failed_refused_example :
    (is_allowed OrderStatus.partially_filled OrderStatus.failed ≡ true)
    × (transition (order OrderStatus.partially_filled (pos 4)) OrderStatus.failed (at 2)
        ≢ ok (order OrderStatus.failed (pos 4)))
partially_filled-failed_refused_example =
    partially_filled-failed_refused (order OrderStatus.partially_filled (pos 4)) (at 2)
      (order OrderStatus.failed (pos 4)) partial-IsValid refl

record_fill_iff_example :
    (record_fill (order OrderStatus.submitted (pos 0)) four
      ≡ ok (after_fill (order OrderStatus.submitted (pos 0)) four))
    ↔ (Fits (order OrderStatus.submitted (pos 0)) four
        × (after_fill (order OrderStatus.submitted (pos 0)) four
            ≡ after_fill (order OrderStatus.submitted (pos 0)) four)
        × IsValid (after_fill (order OrderStatus.submitted (pos 0)) four))
record_fill_iff_example =
    record_fill_iff (order OrderStatus.submitted (pos 0)) four
      (after_fill (order OrderStatus.submitted (pos 0)) four) submitted-IsValid refl
      (λ h. omega arith)

-- A fill of four, then a cancellation.
abbrev cut_short : ExecutionOrder ℤ
cut_short = record (after_fill (order OrderStatus.submitted (pos 0)) four) {
  status = OrderStatus.cancelled;
  updated_at = at 3;
}

cut_short_history : History ⦃fl = whole⦄ (order OrderStatus.submitted (pos 0)) (four ∷ []) cut_short
unfolding transition record_fill new_fill execution_order is_allowed allowed_transitions
    excludes_fills remaining_quantity ◌+ℤ◌ ◌-ℤ◌ whole is_blank is_space
cut_short_history =
    History.move OrderStatus.cancelled (at 3) (History.take four History.start refl refl) refl

History-Kept_example : Kept (order OrderStatus.submitted (pos 0)) (four ∷ []) cut_short
History-Kept_example = History-Kept ⦃fl = whole⦄ submitted-IsValid cut_short_history

terminal_stays_example :
    (order OrderStatus.risk_rejected (pos 0) ≡ order OrderStatus.risk_rejected (pos 0))
    × (◌≡◌ {A = List (Fill ℤ)} [] [])
terminal_stays_example = terminal_stays ⦃fl = whole⦄ rejected-IsValid (inl refl) History.start

abbrev to_cancelled : List Evidence
to_cancelled =
    (PaperEventType.order_proposed, none)
    ∷ (PaperEventType.risk_decision, some true)
    ∷ (PaperEventType.order_accepted, none)
    ∷ (PaperEventType.order_working, none)
    ∷ (PaperEventType.order_cancelled, none)
    ∷ []

placed_needs_approval_example : HasApproval to_cancelled
unfolding run apply
placed_needs_approval_example = placed_needs_approval to_cancelled IsPlaced.cancelled refl
