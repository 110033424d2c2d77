-- ===== src/PaperProjection/Conservation/Keeping.antt =====
-- What a round keeps of an order and of the positions, and what the events do to the status.
use algo_manus.Prelude.{
  String, Bool, true, false, Option, none, some, List, ◌≡◌, ◌≢◌, refl, sym, ◌∙◌, arith,
}
use algo_manus.Prelude.Int.{ℤ, pos, neg_ℤ, ◌+ℤ◌, ◌-ℤ◌, ◌≤ℤ◌}
use algo_manus.Risk.Intent.{OrderSide}
use algo_manus.Paper.{PaperOrderStatus, PaperEventType, apply}
use algo_manus.PaperExecution.Consistency.{precedes_fills}
use algo_manus.PaperProjection.State.{Position, ProjectedOrder}
use algo_manus.PaperProjection.Dicts.{Distinct}
use algo_manus.PaperProjection.Round.{Change, is_fill}
use algo_manus.PaperProjection.Conservation.{contribution, signed_fills, held, IsConsistent}

pub no_contribution : (s : Option OrderSide) → contribution s (pos 0) ≡ pos 0
unfolding neg_ℤ ◌-ℤ◌
no_contribution none = refl
no_contribution (some OrderSide.buy) = refl
no_contribution (some OrderSide.sell) = refl

module _ {F : Type 0} where
  -- What a round keeps.
  pub record Kept (o : ProjectedOrder F) (positions : List (String × Position F)) (c : Change F)
      : Type 0 where
    pub instrument : c.order.instrument_id ≡ o.instrument_id
    pub consistent : IsConsistent c.order
    pub long_only : (j : String) → pos 0 ≤ℤ held j c.positions
    pub distinct : Distinct positions → Distinct c.positions
    pub balance :
        (j : String)
        → held j c.positions +ℤ signed_fills j o ≡ held j positions +ℤ signed_fills j c.order

  -- Another status, which keeps to the fills, and other fields that are not about fills.
  pub restated-IsConsistent :
      (o o' : ProjectedOrder F)
      → IsConsistent o
      → o'.filled_quantity ≡ o.filled_quantity
      → o'.side ≡ o.side
      → o'.quantity ≡ o.quantity
      → (precedes_fills o'.status ≡ true → precedes_fills o.status ≡ true)
      → o'.status ≢ PaperOrderStatus.filled
      → IsConsistent o'
  restated-IsConsistent o o' v f s q before not_full = record {
    lower = rw f v.lower;
    upper = λ n e. rw f (v.upper n (sym q ∙ e));
    no_side = λ e. f ∙ v.no_side (sym s ∙ e);
    no_quantity = λ e. f ∙ v.no_quantity (sym q ∙ e);
    unfilled = λ e. f ∙ v.unfilled (before e);
    complete = λ e. absurd (not_full e);
  }

  -- New terms for an order without fills.
  pub termed-IsConsistent :
      (o' : ProjectedOrder F) (q : ℤ)
      → o'.filled_quantity ≡ pos 0
      → o'.quantity ≡ some q
      → o'.side ≢ none
      → ¬ (q ≤ℤ pos 0)
      → o'.status ≢ PaperOrderStatus.filled
      → IsConsistent o'
  termed-IsConsistent o' q f e s some_q not_full = record {
    lower = rw f (omega arith);
    upper = λ n h. ground arith;
    no_side = λ h. f;
    no_quantity = λ h. f;
    unfilled = λ h. f;
    complete = λ h. absurd (not_full h);
  }

-- Events without a fill never lead back before the fills, nor to FILLED.
pub unfilled_step :
    (s t : PaperOrderStatus) (e : PaperEventType) (risk : Option Bool)
    → apply s e risk ≡ some t
    → is_fill e ≡ false
    → (precedes_fills t ≡ true → precedes_fills s ≡ true) × (t ≢ PaperOrderStatus.filled)
unfolding apply
unfilled_step s t PaperEventType.risk_decision risk h n = ground arith
unfilled_step s t _ risk h n = ground arith

abbrev pub sets_terms : PaperEventType → Bool
sets_terms PaperEventType.order_proposed = true
sets_terms PaperEventType.order_accepted = true
sets_terms PaperEventType.order_submitted = true
sets_terms _ = false

pub terms_step :
    (s t : PaperOrderStatus) (e : PaperEventType) (risk : Option Bool)
    → apply s e risk ≡ some t
    → sets_terms e ≡ true
    → precedes_fills s ≡ true
unfolding apply
terms_step s t PaperEventType.order_proposed risk h n = ground arith
terms_step s t PaperEventType.order_accepted risk h n = ground arith
terms_step s t PaperEventType.order_submitted risk h n = ground arith
terms_step s t _ risk h n = cc

pub fill_step :
    (s t : PaperOrderStatus) (risk : Option Bool)
    → ((apply s PaperEventType.order_filled risk ≡ some t) → t ≡ PaperOrderStatus.filled)
      × ((apply s PaperEventType.order_partially_filled risk ≡ some t)
          → t ≡ PaperOrderStatus.partially_filled)
unfolding apply
fill_step s t risk = (λ h. ground arith, λ h. ground arith)
