-- ===== src/Strategies/Acceptance.antt =====
-- Which parameters the strategies take: those that their schemas accept; with those, no history
-- makes one of them raise but for the float arithmetic.
use algo_manus.Prelude.{
  String, true, false, List, [], ◌∷◌, ◌≡◌, refl, ap, ◌∙◌, subst, arith, inl, inr,
}
use algo_manus.Prelude.Int.{pos}
use algo_manus.Prelude.Result.{Failure, parameter_error, Result, ok, err, is_ok, Result-cases}
use algo_manus.Prelude.Floats.{Floats}
use algo_manus.Prelude.Json.{Json}
use algo_manus.Market.{Candle}
use algo_manus.Backtest.Engine.{SignalAction}
use algo_manus.Strategies.Schema.{whole_number, Values, ParameterSchema, validate}
use algo_manus.Strategies.Signals.Schemas.{
  validate_windows, validate_three_windows, sma_schema, macd_schema, triple_schema,
  threshold_schema, rsi_schema, bollinger_schema,
}
use algo_manus.Strategies.Signals.Averages.{
  closes, sma_windows, sma_signal, macd_signal, triple_signal,
}
use algo_manus.Strategies.Signals.Levels.{threshold_signal, reversion_signal, bollinger_signal}
use algo_manus.Strategies.RoundTrips.{validate-parts}
use algo_manus.Strategies.Fields.{settles, validate_all-first}
use algo_manus.Strategies.Readiness.{
  sma_decision-settles, macd_decision-settles, triple_decision-settles,
}
use algo_manus.Strategies.Readiness.Levels.{
  threshold_decision-settles, reversion_decision-settles, bollinger_decision-settles,
}
use algo_manus.Strategies.Accepted.{
  validate_all-First, order-windows, order-three, three-windows, window-and-two,
}

module _ {F : Type 0} ⦃fl : Floats F⦄ where
  macd-accepted :
      (candles : List (Candle F)) (parameters : List (String × Json F)) {values : Values F}
      → validate macd_schema parameters ≡ ok values
      → settles (macd_signal candles parameters) ≡ true
  unfolding macd_signal
  macd-accepted candles parameters h =
      let (all_valid, checked) = validate-parts macd_schema parameters h in
      let (fast, slow, window, least_fast, _, least, made) =
        three-windows _ _ _ _ _ _ _ _ _ _ _ _ _ _ _ parameters all_valid in
      rw (macd_signal, h, made)
        (macd_decision-settles (closes candles) fast slow window (omega (arith, least_fast))
          (order-windows fast slow _ (subst (λ v. validate_windows v ≡ ok tt) made checked))
          (omega (arith, least)))

  triple-accepted :
      (candles : List (Candle F)) (parameters : List (String × Json F)) {values : Values F}
      → validate triple_schema parameters ≡ ok values
      → settles (triple_signal candles parameters) ≡ true
  unfolding triple_signal
  triple-accepted candles parameters h =
      let (all_valid, checked) = validate-parts triple_schema parameters h in
      let (fast, middle, slow, least_fast, least_middle, _, made) =
        three-windows _ _ _ _ _ _ _ _ _ _ _ _ _ _ _ parameters all_valid in
      let order =
        order-three fast middle slow []
          (subst (λ v. validate_three_windows v ≡ ok tt) made checked) in
      rw (triple_signal, h, made)
        (triple_decision-settles (closes candles) fast middle slow (omega (arith, least_fast))
          (omega (arith, least_middle)) order.0 order.1)

  threshold-accepted :
      (candles : List (Candle F)) (parameters : List (String × Json F)) {values : Values F}
      → validate threshold_schema parameters ≡ ok values
      → settles (threshold_signal candles parameters) ≡ true
  unfolding threshold_signal
  threshold-accepted candles parameters h =
      let (all_valid, _) = validate-parts threshold_schema parameters h in
      let (window, s, t, least, made) = window-and-two _ _ _ _ _ _ _ parameters all_valid in
      rw (threshold_signal, h, made)
        (threshold_decision-settles (closes candles) window _ (omega (arith, least)) refl refl)

  reversion-accepted :
      (candles : List (Candle F)) (parameters : List (String × Json F)) {values : Values F}
      → validate rsi_schema parameters ≡ ok values
      → settles (reversion_signal candles parameters) ≡ true
  unfolding reversion_signal
  reversion-accepted candles parameters h =
      let (all_valid, _) = validate-parts rsi_schema parameters h in
      let (window, s, t, least, made) = window-and-two _ _ _ _ _ _ _ parameters all_valid in
      rw (reversion_signal, h, made)
        (reversion_decision-settles (closes candles) window _ (omega (arith, least)) refl refl)

  bollinger-accepted :
      (candles : List (Candle F)) (parameters : List (String × Json F)) {values : Values F}
      → validate bollinger_schema parameters ≡ ok values
      → settles (bollinger_signal candles parameters) ≡ true
  unfolding bollinger_signal
  bollinger-accepted candles parameters h =
      let (all_valid, _) = validate-parts bollinger_schema parameters h in
      let (window, r1, least, v1, e1) = validate_all-First _ _ _ _ _ _ parameters all_valid in
      let (s, r2, _, v2, e2) = validate_all-first _ _ parameters v1 in
      let made = e1 ∙ ap (λ r. ("window", whole_number (pos window)) ∷ r) e2 in
      rw (bollinger_signal, h, made)
        (bollinger_decision-settles candles window _ (omega (arith, least)))

  sma-accepted :
      (candles : List (Candle F)) (parameters : List (String × Json F)) {values : Values F}
      → validate sma_schema parameters ≡ ok values
      → settles (sma_signal candles parameters) ≡ true
  unfolding sma_signal sma_windows
  sma-accepted candles parameters h =
      let (all_valid, _) = validate-parts sma_schema parameters h in
      let (fast, r1, least_fast, v1, e1) = validate_all-First _ _ _ _ _ _ parameters all_valid in
      let (slow, r2, least_slow, v2, e2) = validate_all-First _ _ _ _ _ _ parameters v1 in
      let made = e1 ∙ ap (λ r. ("fast_window", whole_number (pos fast)) ∷ r) e2 in
      rw (sma_signal, h, made)
        (sma_decision-settles candles fast slow (omega (arith, least_fast))
          (omega (arith, least_slow)))

  -- Where the schema accepts the parameters, the signal returns or raises an exception of the float
  -- arithmetic; where the schema refuses them, the signal raises.
  abbrev pub Follows :
      ParameterSchema F
      → (List (String × Json F) → Result SignalAction)
      → List (String × Json F)
      → Type 0
  Follows schema signal parameters = elim (validate schema parameters) [
    | ok _ ↦ settles (signal parameters) ≡ true
    | err _ ↦ is_ok (signal parameters) ≡ false
  ]

  follow :
      (schema : ParameterSchema F) (signal : List (String × Json F) → Result SignalAction)
      (parameters : List (String × Json F))
      → ((values : Values F)
          → validate schema parameters ≡ ok values
          → settles (signal parameters) ≡ true)
      → ((e : Failure) → validate schema parameters ≡ err e → is_ok (signal parameters) ≡ false)
      → Follows schema signal parameters
  follow schema signal parameters accepted refused =
      elim (Result-cases (validate schema parameters)) [
        | inl (values, e) ↦ rw (Follows, e) (accepted values e)
        | inr (failed, e) ↦ rw (Follows, e) (refused failed e)
      ]

  sma-refused :
      (candles : List (Candle F)) (parameters : List (String × Json F)) (e : Failure)
      → validate sma_schema parameters ≡ err e
      → is_ok (sma_signal candles parameters) ≡ false
  unfolding sma_signal sma_windows
  sma-refused candles parameters (parameter_error reason) h = rw (sma_signal, h) refl
  sma-refused candles parameters _ h = rw (sma_signal, h) refl

  -- For the SMA, MACD, triple EMA, Bollinger and the two RSI strategies and any candles, however
  -- few: where the strategy's schema accepts the parameters, the signal returns, or raises what an
  -- overflow of `fmean` or `**` raises, so no indicator is given too few prices; where the schema
  -- refuses the parameters, the signal raises.
  pub signals-Follow :
      (candles : List (Candle F)) (parameters : List (String × Json F))
      → Follows sma_schema (sma_signal candles) parameters
        × Follows macd_schema (macd_signal candles) parameters
        × Follows triple_schema (triple_signal candles) parameters
        × Follows bollinger_schema (bollinger_signal candles) parameters
        × Follows threshold_schema (threshold_signal candles) parameters
        × Follows rsi_schema (reversion_signal candles) parameters
  unfolding macd_signal triple_signal bollinger_signal threshold_signal reversion_signal
  signals-Follow candles parameters = (
    follow sma_schema (sma_signal candles) parameters (λ _. sma-accepted candles parameters)
        (sma-refused candles parameters),
    follow macd_schema (macd_signal candles) parameters (λ _. macd-accepted candles parameters)
        (λ _ h. rw (macd_signal, h) refl),
    follow triple_schema (triple_signal candles) parameters
        (λ _. triple-accepted candles parameters) (λ _ h. rw (triple_signal, h) refl),
    follow bollinger_schema (bollinger_signal candles) parameters
        (λ _. bollinger-accepted candles parameters) (λ _ h. rw (bollinger_signal, h) refl),
    follow threshold_schema (threshold_signal candles) parameters
        (λ _. threshold-accepted candles parameters) (λ _ h. rw (threshold_signal, h) refl),
    follow rsi_schema (reversion_signal candles) parameters
        (λ _. reversion-accepted candles parameters) (λ _ h. rw (reversion_signal, h) refl),
  )
