-- ===== src/Backtest/Measures.antt =====
-- The measures of a backtest: `BarBacktestService._metrics` and the functions that it calls, and
-- `_drawdown_curve`, from src/algo_manus/application/backtesting.py.
use algo_manus.Prelude.{
  ℕ, Bool, Option, none, some, List, [], ◌∷◌, map, keep, length, not, ◌||◌, ltb, if◌then◌else◌,
}
use algo_manus.Prelude.Int.{pos, sub_ℕ}
use algo_manus.Prelude.Result.{Result, ok, ◌>>=◌}
use algo_manus.Prelude.Floats.{Floats, float, zero_f, max_f, min_f, ◌⊕◌, ◌⊖◌, ◌⊗◌, ◌⊘◌, ◌≺◌, ◌≼◌}
use algo_manus.Prelude.Time.{Datetime}
use algo_manus.Backtest.Contracts.{
  BacktestTrade, BacktestMetrics, BacktestDrawdownPoint, net_pnl, drawdown_point,
}

-- `value if items else fallback`
abbrev unless_empty {ℓ κ} : {A : Type ℓ} {B : Type κ} → List A → B → B → B
unless_empty [] fallback value = fallback
unless_empty (_ ∷ _) fallback value = value

module _ {F : Type 0} ⦃fl : Floats F⦄ where
  -- The truth value of a float.
  abbrev pub is_nonzero : F → Bool
  is_nonzero x = not (fl.eq x zero_f)

  -- `(later - earlier).total_seconds() / 86_400`
  abbrev days_between : Datetime → Datetime → F
  days_between earlier later =
      float (sub_ℕ later.instant earlier.instant) ⊘ float (pos 1000000) ⊘ float (pos 86400)

  -- `((peak - equity) / peak) * 100`
  abbrev pub drawdown_of : F → F → F
  drawdown_of peak equity = (peak ⊖ equity) ⊘ peak ⊗ float (pos 100)

  -- The loop of `_metrics` over the equity curve, from this peak and this maximum.
  unfoldable pub max_drawdown : F → F → List (Datetime × F) → F
  max_drawdown peak deepest [] = deepest
  max_drawdown peak deepest ((_, equity) ∷ curve) =
      let new_peak = max_f peak equity in
      max_drawdown new_peak
        (if is_nonzero new_peak then max_f deepest (drawdown_of new_peak equity) else deepest) curve

  -- `_drawdown_curve`, from this peak.
  unfoldable pub drawdown_curve : F → List (Datetime × F) → Result (List (BacktestDrawdownPoint F))
  drawdown_curve peak [] = ok []
  drawdown_curve peak ((timestamp, equity) ∷ curve) =
      let new_peak = max_f peak equity in
      drawdown_point (record {
        timestamp = timestamp;
        equity = equity;
        peak_equity = new_peak;
        drawdown_pct = if is_nonzero new_peak then drawdown_of new_peak equity else zero_f;
      })
      >>= (λ point. drawdown_curve new_peak curve >>= λ points. ok (point ∷ points))

  -- `_equity_returns`; `none` for the early return of no returns at all.
  unfoldable pub returns_from : F → List (Datetime × F) → Option (List F)
  returns_from previous [] = some []
  returns_from previous ((_, equity) ∷ curve) =
      if previous ≼ zero_f then none else elim (returns_from equity curve) [
        | none ↦ none
        | some returns ↦ some ((equity ⊘ previous ⊖ float (pos 1)) ∷ returns)
      ]

  unfoldable pub equity_returns : F → List (Datetime × F) → List F
  equity_returns initial_cash curve = elim (returns_from initial_cash curve) [
    | none ↦ []
    | some returns ↦ returns
  ]

  abbrev last_time : Datetime → List (Datetime × F) → Datetime
  last_time t [] = t
  last_time t ((u, _) ∷ curve) = last_time u curve

  -- The annual growth over this number of days.
  abbrev growth : F → F → F → Option F
  growth initial_cash final_cash days =
      if days ≺ float (pos 365)
      then none
      else some (
          (fl.pow (final_cash ⊘ initial_cash)
              (float (pos 1) ⊘ (days ⊘ (float (pos 36525) ⊘ float (pos 100))))
            ⊖ float (pos 1))
          ⊗ float (pos 100))

  -- `_cagr_pct`
  unfoldable pub cagr_pct : F → F → List (Datetime × F) → Option F
  cagr_pct initial_cash final_cash ((start, _) ∷ point ∷ curve) =
      if (initial_cash ≼ zero_f) || (final_cash ≼ zero_f)
      then none
      else growth initial_cash final_cash (days_between start (last_time start (point ∷ curve)))
  cagr_pct initial_cash final_cash _ = none

  -- `fmean(returns) / deviation * sqrt(annualization_periods) if deviation else None`
  abbrev ratio : List F → F → ℕ → Option F
  ratio returns deviation periods =
      if is_nonzero deviation
      then some (fl.fmean returns ⊘ deviation ⊗ fl.sqrt (float (pos periods)))
      else none

  -- `_sharpe_ratio`
  unfoldable pub sharpe_ratio : List F → Option ℕ → Option F
  sharpe_ratio returns none = none
  sharpe_ratio returns (some periods) =
      if ltb (length returns) 2 then none else ratio returns (fl.pstdev returns) periods

  -- `_sortino_ratio`
  unfoldable pub sortino_ratio : List F → Option ℕ → Option F
  sortino_ratio returns none = none
  sortino_ratio returns (some periods) =
      if ltb (length returns) 2
      then none
      else ratio returns
          (fl.sqrt (fl.fmean (map (λ (x : F). min_f x zero_f ⊗ min_f x zero_f) returns))) periods

  -- `_metrics`
  unfoldable pub metrics :
      F → F → List (BacktestTrade F) → List (Datetime × F) → ℕ → Option ℕ → BacktestMetrics F
  unfolding net_pnl
  metrics initial_cash final_cash trades curve exposure_points periods =
      let wins = keep (λ (t : BacktestTrade F). zero_f ≺ net_pnl t) trades in
      let losses = keep (λ (t : BacktestTrade F). net_pnl t ≺ zero_f) trades in
      let loss_total = fl.abs (fl.sum (map net_pnl losses)) in
      let returns = equity_returns initial_cash curve in
      record {
        net_pnl = final_cash ⊖ initial_cash;
        total_return_pct = (final_cash ⊖ initial_cash) ⊘ initial_cash ⊗ float (pos 100);
        max_drawdown_pct = max_drawdown initial_cash zero_f curve;
        trade_count = length trades;
        win_rate_pct =
            unless_empty trades zero_f
              (float (pos (length wins)) ⊘ float (pos (length trades)) ⊗ float (pos 100));
        profit_factor =
            if is_nonzero loss_total then some (fl.sum (map net_pnl wins) ⊘ loss_total) else none;
        cagr_pct = cagr_pct initial_cash final_cash curve;
        sharpe_ratio = sharpe_ratio returns periods;
        sortino_ratio = sortino_ratio returns periods;
        expectancy = unless_empty trades none (some (fl.fmean (map net_pnl trades)));
        turnover_pct = unless_empty trades zero_f (
            fl.sum (
              map (λ (t : BacktestTrade F). (t.entry_price ⊕ t.exit_price) ⊗ float t.quantity)
                trades)
            ⊘ initial_cash
            ⊗ float (pos 100));
        exposure_pct =
            unless_empty curve none
              (some (float (pos exposure_points) ⊘ float (pos (length curve)) ⊗ float (pos 100)));
        average_holding_period_days = unless_empty trades none (
            some (
              fl.fmean
                (map (λ (t : BacktestTrade F). days_between t.entry_time t.exit_time) trades)));
      }
