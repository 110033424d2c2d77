-- ===== src/Strategies/Signals/Levels.antt =====
-- The strategies on levels: the two on RSI, and the Bollinger breakout.
use algo_manus.Prelude.{String, List, [], ◌∷◌, ◌&&◌, if◌then◌else◌}
use algo_manus.Prelude.Int.{ℤ, pos, ltb_ℤ, ◌+ℤ◌}
use algo_manus.Prelude.Result.{Result, ok, ◌>>=◌}
use algo_manus.Prelude.Floats.{Floats, float, ◌⊕◌, ◌⊖◌, ◌⊗◌, ◌≺◌, ◌≼◌}
use algo_manus.Prelude.Json.{Json}
use algo_manus.Market.{Candle}
use algo_manus.Backtest.Engine.{SignalAction}
use algo_manus.Strategies.Schema.{Values, validate}
use algo_manus.Strategies.Signals.Schemas.{
  int_at, float_at, threshold_schema, rsi_schema, bollinger_schema,
}
use algo_manus.Strategies.Signals.Averages.{closes}
use algo_manus.Strategies.Indicators.{size, last_slice, but_last, from_end, mean, power, rsi}

module _ {F : Type 0} ⦃fl : Floats F⦄ where
  -- `RsiThresholdReversionStrategy`
  unfoldable pub threshold_required_history : List (String × Json F) → Result ℤ
  threshold_required_history parameters = do
    values ← validate threshold_schema parameters
    window ← int_at "rsi_window" values
    ok (window +ℤ pos 1)

  -- The two tests at the end of `signal`.
  abbrev crossed : F → F → F → F → SignalAction
  crossed previous current entry exit =
      if (entry ≼ previous) && (current ≺ entry)
      then SignalAction.enter_long
      else if (previous ≼ exit) && (exit ≺ current)
      then SignalAction.exit_long
      else SignalAction.hold

  -- The part of `signal` after the window is read.
  unfoldable pub threshold_decision : List F → ℤ → Values F → Result SignalAction
  threshold_decision prices window values =
      if ltb_ℤ (size prices) (window +ℤ pos 2)
      then ok SignalAction.hold
      else (rsi (but_last prices) window >>= λ previous_rsi. rsi prices window >>= λ current_rsi.
          float_at "entry_threshold" values >>= λ entry_threshold.
          float_at "exit_threshold" values >>= λ exit_threshold.
          ok (crossed previous_rsi current_rsi entry_threshold exit_threshold))

  unfoldable pub threshold_signal : List (Candle F) → List (String × Json F) → Result SignalAction
  threshold_signal candles parameters = do
    values ← validate threshold_schema parameters
    window ← int_at "rsi_window" values
    threshold_decision (closes candles) window values

  -- `RsiMeanReversionStrategy`
  unfoldable pub reversion_required_history : List (String × Json F) → Result ℤ
  reversion_required_history parameters = do
    values ← validate rsi_schema parameters
    window ← int_at "rsi_window" values
    ok (window +ℤ pos 1)

  -- The end of `signal`, with the RSI computed.
  unfoldable pub level_decision : Values F → F → Result SignalAction
  level_decision validated value = float_at "oversold" validated >>= λ oversold.
      if value ≼ oversold
      then ok SignalAction.enter_long
      else (float_at "overbought" validated >>= λ overbought.
          ok (if overbought ≼ value then SignalAction.exit_long else SignalAction.hold))

  unfoldable pub reversion_decision : List F → ℤ → Values F → Result SignalAction
  reversion_decision prices window validated =
      if ltb_ℤ (size prices) (window +ℤ pos 1)
      then ok SignalAction.hold
      else (rsi prices window >>= λ value. level_decision validated value)

  unfoldable pub reversion_signal : List (Candle F) → List (String × Json F) → Result SignalAction
  reversion_signal candles parameters = do
    validated ← validate rsi_schema parameters
    window ← int_at "rsi_window" validated
    reversion_decision (closes candles) window validated

  -- `BollingerBreakoutStrategy`
  unfoldable pub bollinger_required_history : List (String × Json F) → Result ℤ
  bollinger_required_history parameters = do
    values ← validate bollinger_schema parameters
    window ← int_at "window" values
    ok (window +ℤ pos 1)

  -- `close` against the band around the mean of the last prices.
  abbrev band : F → F → F → F → SignalAction
  band close mean standard_deviation deviation =
      if mean ⊕ deviation ⊗ standard_deviation ≺ close
      then SignalAction.enter_long
      else if close ≺ mean ⊖ deviation ⊗ standard_deviation
      then SignalAction.exit_long
      else SignalAction.hold

  -- `[(value - mean) ** 2 for value in closes]`
  unfoldable pub squared_distances : F → List F → Result (List F)
  squared_distances center [] = ok []
  squared_distances center (value ∷ values) = do
    first ← power (value ⊖ center) (float (pos 2))
    rest ← squared_distances center values
    ok (first ∷ rest)

  unfoldable pub bollinger_decision : List (Candle F) → ℤ → F → Result SignalAction
  bollinger_decision candles window deviation =
      let prices = closes (last_slice window candles) in
      if ltb_ℤ (size candles) (window +ℤ pos 1)
      then ok SignalAction.hold
      else (mean prices >>= λ center. squared_distances center prices >>= λ squares.
          mean squares >>= λ variance.
          from_end 0 prices >>= λ close. ok (band close center (fl.sqrt variance) deviation))

  unfoldable pub bollinger_signal : List (Candle F) → List (String × Json F) → Result SignalAction
  bollinger_signal candles parameters = do
    values ← validate bollinger_schema parameters
    window ← int_at "window" values
    deviation ← float_at "deviation" values
    bollinger_decision candles window deviation
