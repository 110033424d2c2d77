-- ===== src/Risk/Policy.antt =====
-- `DeterministicRiskPolicy.evaluate` against the list of its limits.
use algo_manus.Prelude.{String, Bool, true, false, List, ◌≡◌, ◌↔◌, arith}
use algo_manus.Prelude.Int.{◌≤ℤ◌}
use algo_manus.Prelude.Floats.{Floats, float, ◌⊕◌, ◌⊗◌, ◌≺◌, ◌≼◌}
use algo_manus.Risk.Intent.{
  OrderSide, OrderIntent, PaperPortfolioSnapshot, RiskLimits, evaluate, notional, position_quantity,
  gross_notional, signed_notional, get_or,
}

module _ {F : Type 0} ⦃fl : Floats F⦄ where
  -- Every limit of the paper policy holds for the intent.
  pub record IsWithinLimits (intent : OrderIntent F) (portfolio : PaperPortfolioSnapshot F)
      (marks : List (String × F)) (limits : RiskLimits F) (kill_switch_active : Bool) : Type 0 where
    pub switched_on : kill_switch_active ≡ false
    pub session_open : ¬ (limits.max_session_orders ≤ℤ portfolio.session_order_count)
    pub loss_bounded : (portfolio.realized_pnl ≼ fl.neg limits.max_daily_loss) ≡ false
    pub covered :
        intent.side ≡ OrderSide.sell
        → intent.quantity ≤ℤ position_quantity portfolio intent.instrument_id
    pub instrument_bounded :
        (limits.max_notional_per_instrument
          ≺ fl.abs (
              float (position_quantity portfolio intent.instrument_id)
                ⊗ get_or intent.instrument_id intent.reference_price marks
              ⊕ signed_notional intent))
        ≡ false
    pub gross_bounded :
        (limits.max_gross_notional ≺ (gross_notional portfolio marks ⊕ signed_notional intent))
        ≡ false
    pub funded : intent.side ≡ OrderSide.buy → (portfolio.cash ≺ notional intent) ≡ false

  module _ (intent : OrderIntent F) (portfolio : PaperPortfolioSnapshot F)
      (marks : List (String × F)) (limits : RiskLimits F) (kill : Bool) where
    -- The paper policy allows an intent exactly when every one of its limits holds: the switch is
    -- off, the session and loss limits are not reached, a sale is covered by the position, the
    -- instrument and gross notionals stay within bounds, and a purchase is covered by the cash.
    pub evaluate_iff :
        ((evaluate intent portfolio marks limits kill).allowed ≡ true)
        ↔ IsWithinLimits intent portfolio marks limits kill
    unfolding evaluate
    evaluate_iff = (λ h. ground arith, λ w. ground arith)
