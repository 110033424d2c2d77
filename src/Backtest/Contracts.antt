-- ===== src/Backtest/Contracts.antt =====
-- src/algo_manus/domain/backtest.py: specifications, trades, results and their constructors.
use algo_manus.Prelude.{ℕ, String, Bool, not, ◌||◌, Option, List, ◌+++◌, is_blank, is_empty}
use algo_manus.Prelude.Int.{ℤ, pos, leb_ℤ, ltb_ℤ, min_ℤ}
use algo_manus.Prelude.Result.{Result, ok, value_error, raise_if, ◌>>◌}
use algo_manus.Prelude.Floats.{Floats, zero_f, ◌⊖◌, ◌≺◌, ◌≼◌}
use algo_manus.Prelude.Time.{Datetime}
use algo_manus.Prelude.Json.{Codec, text, number, integer, boolean, object, put, empty}

pub record BacktestSpec (F : Type 0) : Type 0 where
  pub dataset_id : String
  pub strategy_id : String
  pub parameter_revision_id : String
  pub initial_cash : F
  pub quantity : ℤ
  pub commission_bps : F
  pub slippage_bps : F
  pub force_close_at_end : Bool

pub record BacktestTrade (F : Type 0) : Type 0 where
  pub entry_time : Datetime
  pub exit_time : Datetime
  pub quantity : ℤ
  pub entry_price : F
  pub exit_price : F
  pub gross_pnl : F
  pub cost : F

pub record BacktestMetrics (F : Type 0) : Type 0 where
  pub net_pnl : F
  pub total_return_pct : F
  pub max_drawdown_pct : F
  pub trade_count : ℕ
  pub win_rate_pct : F
  pub profit_factor : Option F
  pub cagr_pct : Option F
  pub sharpe_ratio : Option F
  pub sortino_ratio : Option F
  pub expectancy : Option F
  pub turnover_pct : F
  pub exposure_pct : Option F
  pub average_holding_period_days : Option F

pub data BacktestOutcomeKind : Type 0 where
  insufficient_history calculated_no_trades calculated_with_trades : BacktestOutcomeKind

pub record BacktestOutcome : Type 0 where
  pub kind : BacktestOutcomeKind
  pub message : String
  pub available_bar_count : ℤ
  pub required_history : ℤ
  pub enter_signal_count : ℤ
  pub exit_signal_count : ℤ
  pub completed_trade_count : ℤ

pub record BacktestDrawdownPoint (F : Type 0) : Type 0 where
  pub timestamp : Datetime
  pub equity : F
  pub peak_equity : F
  pub drawdown_pct : F

pub record BacktestResult (F : Type 0) : Type 0 where
  pub spec : BacktestSpec F
  pub trades : List (BacktestTrade F)
  pub equity_curve : List (Datetime × F)
  pub metrics : BacktestMetrics F
  pub drawdown_curve : List (BacktestDrawdownPoint F)
  pub outcome : Option BacktestOutcome

-- The constructor of `BacktestOutcome` with its `__post_init__`.
unfoldable pub backtest_outcome : BacktestOutcome → Result BacktestOutcome
backtest_outcome o = do
  raise_if (is_blank o.message) (value_error "backtest outcome message is required")
  raise_if
      (ltb_ℤ
        (min_ℤ
          (min_ℤ (min_ℤ (min_ℤ o.available_bar_count o.required_history) o.enter_signal_count)
            o.exit_signal_count)
          o.completed_trade_count)
        (pos 0))
      (value_error "backtest outcome counts cannot be negative")
  ok o

module _ {F : Type 0} ⦃fl : Floats F⦄ where
  -- The constructor of `BacktestSpec` with the tests of its `__post_init__`; the conversions before
  -- them leave values of these types as they are.
  unfoldable pub backtest_spec : BacktestSpec F → Result (BacktestSpec F)
  backtest_spec s = do
    raise_if (is_empty s.dataset_id || is_empty s.strategy_id || is_empty s.parameter_revision_id)
        (value_error "dataset, strategy and parameter revision identifiers are required")
    raise_if ((s.initial_cash ≼ zero_f) || leb_ℤ s.quantity (pos 0))
        (value_error "initial_cash and quantity must be positive")
    raise_if ((s.commission_bps ≺ zero_f) || (s.slippage_bps ≺ zero_f))
        (value_error "commission_bps and slippage_bps cannot be negative")
    ok s

  unfoldable pub net_pnl : BacktestTrade F → F
  net_pnl t = t.gross_pnl ⊖ t.cost

  -- The constructor of `BacktestDrawdownPoint` with its `__post_init__`.
  unfoldable pub drawdown_point : BacktestDrawdownPoint F → Result (BacktestDrawdownPoint F)
  drawdown_point p = do
    raise_if (not p.timestamp.aware) (value_error "drawdown timestamp must be timezone-aware")
    raise_if ((p.equity ≺ zero_f) || (p.peak_equity ≼ zero_f) || (p.drawdown_pct ≺ zero_f))
        (value_error "drawdown point values are invalid")
    ok p

module _ {F T : Type 0} (codec : Codec F T) where
  unfoldable pub spec_id : BacktestSpec F → String
  spec_id s =
      "BT-"
      +++ codec.digest (
          codec.dumps (
            object (
              put "dataset_id" (text s.dataset_id) (
                put "strategy_id" (text s.strategy_id) (
                  put "parameter_revision_id" (text s.parameter_revision_id) (
                    put "initial_cash" (number s.initial_cash) (
                      put "quantity" (integer s.quantity) (
                        put "commission_bps" (number s.commission_bps) (
                          put "slippage_bps" (number s.slippage_bps)
                            (put "force_close_at_end" (boolean s.force_close_at_end) empty))))))))))
