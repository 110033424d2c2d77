-- ===== src/Backtest/Drawdowns.antt =====
-- The two computations of the drawdown, and what `explain` says of a run.
use algo_manus.Prelude.{
  ℕ, ◌+◌, true, false, Option, some, List, [], ◌∷◌, length, map, ◌≡◌, refl, sym, ap, ◌∙◌, arith,
  subst, inl, inr, leb, ◌≤◌, ◌<◌, if◌then◌else◌,
}
use algo_manus.Prelude.Text.{is_blank, is_space}
use algo_manus.Prelude.Int.{pos, ltb_ℤ, min_ℤ}
use algo_manus.Prelude.Result.{ok, >>=-eq-ok, ok-injective, is_ok, Result-cases}
use algo_manus.Prelude.Floats.{Floats, zero_f, max_f, ◌≼◌}
use algo_manus.Prelude.Time.{Datetime}
use algo_manus.Market.{CandleDataset}
use algo_manus.Backtest.Contracts.{
  BacktestSpec, BacktestDrawdownPoint, BacktestOutcome, BacktestOutcomeKind, BacktestResult,
  drawdown_point, backtest_outcome,
}
use algo_manus.Backtest.Measures.{is_nonzero, drawdown_of, max_drawdown, drawdown_curve, metrics}
use algo_manus.Backtest.Engine.{
  Strategy, StrategyParameterRevision, explain, run, insufficient_data, insufficient_outcome,
  retained_outcome,
}
use algo_manus.Backtest.Results.{run-Ran}

module _ {F : Type 0} ⦃fl : Floats F⦄ where
  -- The deepest drawdown of the points, as a running maximum from `deepest`.
  abbrev pub deepest_of : F → List (BacktestDrawdownPoint F) → F
  deepest_of deepest [] = deepest
  deepest_of deepest (point ∷ points) = deepest_of (max_f deepest point.drawdown_pct) points

  -- A point that its constructor accepts is as it was given, and its peak is above zero.
  drawdown_point-same :
      (point : BacktestDrawdownPoint F) {made : BacktestDrawdownPoint F}
      → drawdown_point point ≡ ok made
      → (point ≡ made) × ((point.peak_equity ≼ zero_f) ≡ false)
  unfolding drawdown_point
  drawdown_point-same point h = (ground arith, ground arith)

  max_drawdown-deepest_of :
      ((x : F) → fl.eq x zero_f ≡ true → (x ≼ zero_f) ≡ true)
      → (peak deepest : F) (curve : List (Datetime × F)) {points : List (BacktestDrawdownPoint F)}
      → drawdown_curve peak curve ≡ ok points
      → max_drawdown peak deepest curve ≡ deepest_of deepest points
  unfolding drawdown_curve max_drawdown
  max_drawdown-deepest_of low peak deepest [] h = ap (deepest_of deepest) (ok-injective h)
  max_drawdown-deepest_of low peak deepest ((at, equity) ∷ curve) h =
      let new_peak = max_f peak equity in
      let fall = drawdown_of new_peak equity in
      let (point, made, h1) = >>=-eq-ok _ _ h in
      let (points, drawn, h2) = >>=-eq-ok (drawdown_curve new_peak curve) _ h1 in
      let (same, high) = drawdown_point-same _ made in
      let peaked : is_nonzero new_peak ≡ true = nonzero new_peak (low new_peak) high in
      let shown : fall ≡ point.drawdown_pct =
        subst (λ test. (if test then fall else zero_f) ≡ point.drawdown_pct) peaked
          (ap (λ (x : BacktestDrawdownPoint F). x.drawdown_pct) same) in
      rw peaked (
        max_drawdown-deepest_of low new_peak (max_f deepest fall) curve drawn
        ∙ ap (λ d. deepest_of (max_f deepest d) points) shown
        ∙ ap (deepest_of deepest) (ok-injective h2))
    where
      nonzero :
          (x : F)
          → (fl.eq x zero_f ≡ true → (x ≼ zero_f) ≡ true)
          → (x ≼ zero_f) ≡ false
          → is_nonzero x ≡ true
      nonzero x low high = ground (arith, low)

  -- The equity point of a drawdown point.
  abbrev pub equity_point : BacktestDrawdownPoint F → Datetime × F
  equity_point point = (point.timestamp, point.equity)

  drawdown_curve-equity :
      (peak : F) (curve : List (Datetime × F)) {points : List (BacktestDrawdownPoint F)}
      → drawdown_curve peak curve ≡ ok points
      → map equity_point points ≡ curve
  unfolding drawdown_curve
  drawdown_curve-equity peak [] h = ap (map equity_point) (sym (ok-injective h))
  drawdown_curve-equity peak ((at, equity) ∷ curve) h =
      let (point, made, h1) = >>=-eq-ok _ _ h in
      let (points, drawn, h2) = >>=-eq-ok (drawdown_curve (max_f peak equity) curve) _ h1 in
      let (same, high) = drawdown_point-same _ made in
      ap (map equity_point) (sym (ok-injective h2))
      ∙ ap (λ xs. equity_point point ∷ xs) (drawdown_curve-equity (max_f peak equity) curve drawn)
      ∙ ap (λ x. x ∷ curve) (ap equity_point (sym same))

counts_lem :
    (a b : ℕ)
    → ltb_ℤ (min_ℤ (min_ℤ (min_ℤ (min_ℤ (pos a) (pos b)) (pos 0)) (pos 0)) (pos 0)) (pos 0) ≡ false
counts_lem a b = ground arith

insufficient_outcome-Insufficient :
    (available required : ℕ)
    → (o : BacktestOutcome) × (insufficient_outcome available required ≡ ok o)
      × (o.kind ≡ BacktestOutcomeKind.insufficient_history)
      × (o.completed_trade_count ≡ pos 0)
unfolding insufficient_outcome backtest_outcome is_blank is_space
insufficient_outcome-Insufficient available required = (
  insufficient_data available required,
  rw (counts_lem available (required + 1)) refl,
  refl,
  refl,
)

at_most_test : {m n : ℕ} → m ≤ n → leb m n ≡ true
at_most_test h = ground arith

above_test : {m n : ℕ} → n < m → leb m n ≡ false
above_test h = ground arith

module _ {F P : Type 0} ⦃fl : Floats F⦄ (dataset : CandleDataset F) (strategy : Strategy F P)
    (parameters : StrategyParameterRevision P) (spec : BacktestSpec F) where
  -- When a backtest returns, with floats among which a number that equals zero is at most zero, the
  -- drawdown curve has exactly the points of the equity curve, and the maximum drawdown of the
  -- metrics is the deepest drawdown of that curve, taken as a running maximum from zero.
  pub run-deepest_of :
      ((x : F) → fl.eq x zero_f ≡ true → (x ≼ zero_f) ≡ true)
      → {r : BacktestResult F} → run dataset strategy parameters spec ≡ ok r
      → (map equity_point r.drawdown_curve ≡ r.equity_curve)
        × (r.metrics.max_drawdown_pct ≡ deepest_of zero_f r.drawdown_curve)
  unfolding metrics
  run-deepest_of low {r} h =
      let v = run-Ran dataset strategy parameters spec h in
      (
        drawdown_curve-equity spec.initial_cash _ v.shows.drawdown ∙ sym v.shows.equity_curve,
        rw v.shows.metrics_same
            (max_drawdown-deepest_of low spec.initial_cash zero_f _ v.shows.drawdown),
      )

  -- Where the dataset has too few candles for the strategy, no backtest over it returns, and
  -- `explain` returns an outcome that says so and counts no trades, whatever result it is given.
  pub explain-insufficient :
      (result : Option (BacktestResult F))
      → length dataset.candles ≤ strategy.required_history parameters.parameters
      → (is_ok (run dataset strategy parameters spec) ≡ false)
        × ((o : BacktestOutcome) × (explain dataset strategy parameters result ≡ ok o)
            × (o.kind ≡ BacktestOutcomeKind.insufficient_history)
            × (o.completed_trade_count ≡ pos 0))
  unfolding explain
  explain-insufficient result short = (
    elim (Result-cases (run dataset strategy parameters spec)) [
      | inl (r, e) ↦
          absurd (ground (arith, short, (run-Ran dataset strategy parameters spec e).enough))
      | inr (e, failed) ↦ rw failed refl
    ],
    rw (at_most_test short) (
        insufficient_outcome-Insufficient (length dataset.candles)
          (strategy.required_history parameters.parameters)),
  )

  -- When a backtest returns, its result holds an outcome, and `explain` of the result returns it.
  pub explain-run :
      {r : BacktestResult F}
      → run dataset strategy parameters spec ≡ ok r
      → (o : BacktestOutcome) × (r.outcome ≡ some o)
        × (explain dataset strategy parameters (some r) ≡ ok o)
  unfolding explain retained_outcome
  explain-run h =
      let v = run-Ran dataset strategy parameters spec h in
      (v.shows.shown, v.shows.outcome, rw (above_test v.enough, v.shows.outcome) refl)
