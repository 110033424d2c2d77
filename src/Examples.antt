-- ===== src/Examples.antt =====
-- Concrete inputs for the tests of the theorems: whole numbers in the place of floats, and one
-- purchase of ten units at five.
pub mod OrderExamples
pub mod RiskExamples
pub mod BusExamples
pub mod ExecutionExamples
pub mod ProjectionExamples
pub mod BacktestExamples
pub mod AuditExamples
pub mod StrategyExamples
pub mod ControlExamples
use algo_manus.Prelude.{String, false, none, some, List, [], ◌∷◌}
use algo_manus.Prelude.Int.{ℤ, pos}
use algo_manus.Prelude.Time.{at}
use algo_manus.Vocabulary.{InstrumentStatus, DataValidationStatus, DatasetValidationOutcome}
use algo_manus.Risk.Intent.{OrderSide, OrderIntent, PaperPortfolioSnapshot, RiskLimits}
use algo_manus.Risk.Engine.{CentralRiskPolicy, PortfolioRiskSnapshot, RiskEvaluationContext}

abbrev pub intent : OrderIntent ℤ
intent = record {
  order_id = "o-1";
  instrument_id = "INFY";
  side = OrderSide.buy;
  quantity = pos 10;
  reference_price = pos 5;
  strategy_revision_id = "sma-1";
}

abbrev pub portfolio : PaperPortfolioSnapshot ℤ
portfolio = record {
  cash = pos 1000;
  positions = ("TCS", pos 3) ∷ [];
  realized_pnl = pos 0;
  session_order_count = pos 1;
}

abbrev pub marks : List (String × ℤ)
marks = ("TCS", pos 20) ∷ ("INFY", pos 6) ∷ []

abbrev pub limits : RiskLimits ℤ
limits = record {
  max_gross_notional = pos 500;
  max_notional_per_instrument = pos 200;
  max_session_orders = pos 5;
  max_daily_loss = pos 50;
}

abbrev pub policy : CentralRiskPolicy ℤ
policy = record {
  policy_version = "v1";
  max_quantity_per_order = pos 20;
  max_notional_per_order = pos 100;
  max_open_positions = pos 4;
  max_gross_notional = some (pos 400);
  max_notional_per_instrument = none;
  max_realized_loss = some (pos 60);
  max_concentration_pct = none;
}

abbrev pub exposure : PortfolioRiskSnapshot ℤ
exposure = record {
  gross_notional = pos 60;
  realized_pnl = pos 0;
  instrument_notionals = ("TCS", pos 60) ∷ [];
}

abbrev pub accepted_data : DatasetValidationOutcome
accepted_data = record {
  dataset_id = "d-1";
  status = DataValidationStatus.accepted;
  policy_version = "p-1";
  validated_at = at 0;
  issues = [];
}

abbrev pub complete_context : RiskEvaluationContext ℤ
complete_context = record {
  kill_switch_active = false;
  seen_order_ids = "o-0" ∷ [];
  open_position_count = pos 1;
  instrument_status = some InstrumentStatus.active;
  validation_outcome = some accepted_data;
  portfolio_risk = some exposure;
}
