-- ===== src/PaperProjection/Conservation/Rounds.antt =====
-- What one round of the replay keeps of an order and of the positions.
use algo_manus.Prelude.{
  String, Bool, true, Option, none, some, List, ◌≡◌, refl, arith, subst, Option-cases, inl, inr,
}
use algo_manus.Prelude.Int.{pos, ◌≤ℤ◌}
use algo_manus.Prelude.Floats.{Floats}
use algo_manus.Prelude.Time.{Datetime}
use algo_manus.Prelude.Json.{Dict}
use algo_manus.Paper.{PaperOrderStatus, PaperEventType, apply}
use algo_manus.PaperProjection.State.{Position, ProjectedOrder}
use algo_manus.PaperProjection.Round.{Change, refused, by_type, risk_part, project}
use algo_manus.PaperProjection.Conservation.{held, IsConsistent}
use algo_manus.PaperProjection.Conservation.Keeping.{Kept}
use algo_manus.PaperProjection.Conservation.Branches.{refused-Kept, by_type-Kept}

module _ {F : Type 0} ⦃fl : Floats F⦄ where
  -- The risk part of a round sets no more than a flag.
  risk_part_facts :
      (o : ProjectedOrder F) (e : PaperEventType) (payload : Dict F) {seen : ProjectedOrder F}
      {risk : Option Bool}
      → risk_part o e payload ≡ some (seen, risk)
      → (b : Bool) × (record o { risk_seen = b } ≡ seen)
  unfolding risk_part
  risk_part_facts o PaperEventType.risk_decision payload h = (true, ground arith)
  risk_part_facts o PaperEventType.order_rejected payload h = (o.risk_seen, ground arith)
  risk_part_facts o _ payload h = (o.risk_seen, ground arith)

  -- The round of an event whose risk part was read.
  seen-Kept :
      (o : ProjectedOrder F) (positions : List (String × Position F)) (e : PaperEventType)
      (at : Datetime) (payload : Dict F) (b : Bool) (risk : Option Bool)
      → IsConsistent o
      → ((j : String) → pos 0 ≤ℤ held j positions)
      → (next : Option PaperOrderStatus) → apply o.status e risk ≡ next
      → Kept o positions (elim next [
        | none ↦ refused (record o { risk_seen = b }) positions
        | some next_status ↦ by_type (record o { risk_seen = b }) positions next_status e at payload
      ])
  seen-Kept o positions e at payload b risk v long next step = as_before next step
    where
      seen : ProjectedOrder F
      seen = record o { risk_seen = b }

      w : IsConsistent seen
      w = record {
        lower = v.lower;
        upper = v.upper;
        no_side = v.no_side;
        no_quantity = v.no_quantity;
        unfilled = v.unfilled;
        complete = v.complete;
      }

      unseen : (c : Change F) → Kept seen positions c → Kept o positions c
      unseen c k = record {
        instrument = k.instrument;
        consistent = k.consistent;
        long_only = k.long_only;
        distinct = k.distinct;
        balance = k.balance;
      }

      as_before :
          (next : Option PaperOrderStatus)
          → apply o.status e risk ≡ next
          → Kept o positions (elim next [
            | none ↦ refused seen positions
            | some next_status ↦ by_type seen positions next_status e at payload
          ])
      as_before none step = unseen _ (refused-Kept seen positions w long)
      as_before (some t) step =
          unseen _ (by_type-Kept seen positions w long t e risk at payload step)

  -- A round keeps the balance of the position and the fills of its order, the sign of every
  -- position, and the consistency of the order.
  pub project-Kept :
      (o : ProjectedOrder F) (positions : List (String × Position F)) (e : PaperEventType)
      (at : Datetime) (payload : Dict F)
      → IsConsistent o
      → ((j : String) → pos 0 ≤ℤ held j positions)
      → Kept o positions (project o positions e at payload)
  unfolding project
  project-Kept o positions e at payload v long = elim (Option-cases (risk_part o e payload)) [
    | inl unread ↦ rw (unread, project) (refused-Kept o positions v long)
    | inr ((seen, risk), read) ↦
        let (b, same) = risk_part_facts o e payload read in
        rw (read, project)
          (subst
            (λ (x : ProjectedOrder F). Kept o positions (elim (apply x.status e risk) [
              | none ↦ refused x positions
              | some next_status ↦ by_type x positions next_status e at payload
            ]))
            same (seen-Kept o positions e at payload b risk v long (apply o.status e risk) refl))
  ]
