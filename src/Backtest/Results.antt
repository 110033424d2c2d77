-- ===== src/Backtest/Results.antt =====
-- What a backtest that returns has computed.
use algo_manus.Prelude.{
  ℕ, ◌<◌, String, Bool, true, false, none, some, length, ◌≡◌, refl, sym, ap, ◌∙◌, arith, not, ◌||◌,
  leb, str_eq, if◌then◌else◌,
}
use algo_manus.Prelude.Result.{Result, ok, Failure, raise_if, ◌>>◌, >>=-eq-ok, ok-injective}
use algo_manus.Prelude.Floats.{Floats}
use algo_manus.Market.{CandleDataset, is_research}
use algo_manus.Backtest.Contracts.{BacktestSpec, BacktestOutcome, BacktestResult}
use algo_manus.Backtest.Measures.{metrics, drawdown_curve}
use algo_manus.Backtest.Engine.{
  Strategy, StrategyParameterRevision, RunState, finish, run_bars, calculated_outcome, result_of,
  run,
}

raise_if-eq-ok {ℓ} :
    {A : Type ℓ} (test : Bool) (failure : Failure) (next : Result A) {a : A}
    → (raise_if test failure >> next) ≡ ok a
    → (test ≡ false) × (next ≡ ok a)
raise_if-eq-ok true failure next h = cc
raise_if-eq-ok false failure next h = (refl, h)

module _ {F : Type 0} ⦃fl : Floats F⦄ where
  -- A result that shows what these variables hold.
  pub record Shows (spec : BacktestSpec F) (interval : String) (available required : ℕ)
      (s : RunState F) (r : BacktestResult F) : Type 0 where
    pub spec_same : r.spec ≡ spec
    pub trades : r.trades ≡ s.trades
    pub equity_curve : r.equity_curve ≡ s.equity_curve
    pub metrics_same :
        r.metrics
        ≡ metrics spec.initial_cash s.cash s.trades s.equity_curve s.exposure_points
            (if str_eq interval "1d" then some 252 else none)
    pub drawdown : drawdown_curve spec.initial_cash s.equity_curve ≡ ok r.drawdown_curve
    pub shown : BacktestOutcome
    pub outcome : r.outcome ≡ some shown
    pub calculated :
        calculated_outcome available required s.enter_signal_count s.exit_signal_count
          (length s.trades)
        ≡ ok shown

  result_of-Shows :
      (spec : BacktestSpec F) (interval : String) (available required : ℕ) (s : RunState F)
      {r : BacktestResult F}
      → result_of spec interval available required s ≡ ok r
      → Shows spec interval available required s r
  unfolding result_of
  result_of-Shows spec interval available required s {r} h =
      let (o, made, h1) =
        >>=-eq-ok
          (calculated_outcome available required s.enter_signal_count s.exit_signal_count
            (length s.trades))
          _ h in
      let (points, drawn, h2) = >>=-eq-ok (drawdown_curve spec.initial_cash s.equity_curve) _ h1 in
      let same = sym (ok-injective h2) in
      record {
        spec_same = ap (λ (x : BacktestResult F). x.spec) same;
        trades = ap (λ (x : BacktestResult F). x.trades) same;
        equity_curve = ap (λ (x : BacktestResult F). x.equity_curve) same;
        metrics_same = ap (λ (x : BacktestResult F). x.metrics) same;
        drawdown = drawn ∙ ap (λ (x : BacktestResult F). ok x.drawdown_curve) (sym same);
        shown = o;
        outcome = ap (λ (x : BacktestResult F). x.outcome) same;
        calculated = made;
      }

module _ {F P : Type 0} ⦃fl : Floats F⦄ (dataset : CandleDataset F) (strategy : Strategy F P)
    (parameters : StrategyParameterRevision P) (spec : BacktestSpec F) where
  -- The variables at the end of a run.
  abbrev pub final_state : RunState F
  final_state =
      finish spec dataset.candles (run_bars strategy parameters.parameters spec dataset.candles)

  -- What a run that returned had tested, and what its result shows.
  pub record Ran (r : BacktestResult F) : Type 0 where
    pub for_research : is_research dataset.provenance.use_case ≡ true
    pub same_dataset : str_eq dataset.dataset_id spec.dataset_id ≡ true
    pub enough : strategy.required_history parameters.parameters < length dataset.candles
    pub shows :
        Shows spec dataset.interval
          (length dataset.candles)
          (strategy.required_history parameters.parameters)
          final_state
          r

  pub run-Ran : {r : BacktestResult F} → run dataset strategy parameters spec ≡ ok r → Ran r
  unfolding run
  run-Ran {r} h =
      let required = strategy.required_history parameters.parameters in
      let (a, h1) = raise_if-eq-ok (not (is_research dataset.provenance.use_case)) _ _ h in
      let (b, h2) = raise_if-eq-ok (not (str_eq dataset.dataset_id spec.dataset_id)) _ _ h1 in
      let (c, h3) =
        raise_if-eq-ok
          (not (str_eq strategy.strategy_id spec.strategy_id)
            || not (str_eq parameters.strategy_id spec.strategy_id))
          _ _ h2 in
      let (d, h4) =
        raise_if-eq-ok (not (str_eq parameters.revision_id spec.parameter_revision_id)) _ _ h3 in
      let (e, h5) = raise_if-eq-ok (leb (length dataset.candles) required) _ _ h4 in
      record {
        for_research = ground arith;
        same_dataset = ground arith;
        enough = ground arith;
        shows =
            result_of-Shows spec dataset.interval (length dataset.candles) required final_state h5;
      }
