-- ===== src/Strategies/Signals/Averages.antt =====
-- The strategies on moving averages: SMA, EMA, MACD and triple EMA crossovers.
use algo_manus.Prelude.{
  ℕ, zero, suc, ◌-◌, ◌+◌, String, Bool, not, List, [], ◌∷◌, map, take, length, ◌&&◌, if◌then◌else◌,
}
use algo_manus.Prelude.Int.{ℤ, pos, pos_part, ltb_ℤ, ◌+ℤ◌}
use algo_manus.Prelude.Result.{Result, ok, ◌>>=◌}
use algo_manus.Prelude.Floats.{Floats, ◌⊖◌, ◌≺◌}
use algo_manus.Prelude.Json.{Json}
use algo_manus.Market.{Candle}
use algo_manus.Backtest.Engine.{SignalAction}
use algo_manus.Strategies.Schema.{validate}
use algo_manus.Strategies.Signals.Schemas.{
  relabelled, int_at, two_windows, sma_schema, ema_schema, macd_schema, triple_schema,
}
use algo_manus.Strategies.Indicators.{size, last_slice, but_last, from_end, mean, ema, crossover}

module _ {F : Type 0} where
  -- `[candle.close for candle in candles]`
  abbrev pub closes : List (Candle F) → List F
  closes candles = map (λ (candle : Candle F). candle.close) candles

module _ {F : Type 0} ⦃fl : Floats F⦄ where
  -- `SmaCrossoverStrategy._windows`
  unfoldable pub sma_windows : List (String × Json F) → Result (ℤ × ℤ)
  sma_windows parameters = do
    validated ←
        relabelled "sma_crossover requires valid fast_window and slow_window: "
          (validate sma_schema parameters)
    fast ← int_at "fast_window" validated
    slow ← int_at "slow_window" validated
    ok (fast, slow)

  unfoldable pub sma_required_history : List (String × Json F) → Result ℤ
  sma_required_history parameters = do windows ← sma_windows parameters; ok (windows.1 +ℤ pos 1)

  -- The part of `signal` after the windows are read.
  unfoldable pub sma_decision : List (Candle F) → ℤ → ℤ → Result SignalAction
  sma_decision candles fast slow =
      let previous = but_last candles in
      if ltb_ℤ (size candles) (slow +ℤ pos 1)
      then ok SignalAction.hold
      else (mean (closes (last_slice fast previous)) >>= λ prior_fast.
          mean (closes (last_slice slow previous)) >>= λ prior_slow.
          mean (closes (last_slice fast candles)) >>= λ current_fast.
          mean (closes (last_slice slow candles)) >>= λ current_slow.
          ok (crossover prior_fast prior_slow current_fast current_slow))

  unfoldable pub sma_signal : List (Candle F) → List (String × Json F) → Result SignalAction
  sma_signal candles parameters = do
    windows ← sma_windows parameters
    sma_decision candles windows.0 windows.1

  unfoldable pub ema_required_history : List (String × Json F) → Result ℤ
  ema_required_history parameters = do
    values ← validate ema_schema parameters
    slow ← int_at "slow_window" values
    ok (slow +ℤ pos 1)

  unfoldable pub ema_decision : List F → ℤ → ℤ → Result SignalAction
  ema_decision current fast slow =
      let previous = but_last current in
      if ltb_ℤ (size current) (slow +ℤ pos 1)
      then ok SignalAction.hold
      else (ema previous fast >>= λ prior_fast. ema previous slow >>= λ prior_slow.
          ema current fast >>= λ current_fast. ema current slow >>= λ current_slow.
          ok (crossover prior_fast prior_slow current_fast current_slow))

  unfoldable pub ema_signal : List (Candle F) → List (String × Json F) → Result SignalAction
  ema_signal candles parameters = do
    windows ← two_windows "ema_crossover" parameters
    ema_decision (closes candles) windows.0 windows.1

  unfoldable pub macd_required_history : List (String × Json F) → Result ℤ
  macd_required_history parameters = do
    values ← validate macd_schema parameters
    slow ← int_at "slow_window" values
    signal_window ← int_at "signal_window" values
    ok (slow +ℤ signal_window +ℤ pos 1)

  -- `_ema(closes[:index], fast) - _ema(closes[:index], slow)` for `count` indices from `index` on.
  unfoldable pub macd_series : List F → ℤ → ℤ → ℕ → ℕ → Result (List F)
  macd_series values fast slow index zero = ok []
  macd_series values fast slow index (suc count) = do
    fast_ema ← ema (take index values) fast
    slow_ema ← ema (take index values) slow
    rest ← macd_series values fast slow (suc index) count
    ok ((fast_ema ⊖ slow_ema) ∷ rest)

  -- The part of `signal` after `macd_series`.
  unfoldable pub macd_cross : List F → ℤ → Result SignalAction
  macd_cross series signal_window =
      if ltb_ℤ (size series) (signal_window +ℤ pos 1)
      then ok SignalAction.hold
      else (ema (but_last series) signal_window >>= λ signal_previous.
          ema series signal_window >>= λ signal_current. from_end 1 series >>= λ macd_previous.
          from_end 0 series >>= λ macd_current.
          ok (crossover macd_previous signal_previous macd_current signal_current))

  -- The windows are positive, so the range of the indices starts at `slow`.
  unfoldable pub macd_decision : List F → ℤ → ℤ → ℤ → Result SignalAction
  macd_decision values fast slow signal_window =
      if ltb_ℤ (size values) (slow +ℤ signal_window +ℤ pos 1)
      then ok SignalAction.hold
      else (macd_series values fast slow (pos_part slow) (length values + 1 - pos_part slow)
          >>= λ series. macd_cross series signal_window)

  unfoldable pub macd_signal : List (Candle F) → List (String × Json F) → Result SignalAction
  macd_signal candles parameters = do
    values ← validate macd_schema parameters
    fast ← int_at "fast_window" values
    slow ← int_at "slow_window" values
    signal_window ← int_at "signal_window" values
    macd_decision (closes candles) fast slow signal_window

  unfoldable pub triple_required_history : List (String × Json F) → Result ℤ
  triple_required_history parameters = do
    values ← validate triple_schema parameters
    slow ← int_at "slow_window" values
    ok (slow +ℤ pos 1)

  -- `a > b > c`
  abbrev descends : F → F → F → Bool
  descends a b c = (b ≺ a) && (c ≺ b)

  abbrev ascends : F → F → F → Bool
  ascends a b c = (a ≺ b) && (b ≺ c)

  abbrev turned : F → F → F → F → F → F → SignalAction
  turned p0 p1 p2 c0 c1 c2 =
      if not (descends p0 p1 p2) && descends c0 c1 c2
      then SignalAction.enter_long
      else if not (ascends p0 p1 p2) && ascends c0 c1 c2
      then SignalAction.exit_long
      else SignalAction.hold

  unfoldable pub triple_decision : List F → ℤ → ℤ → ℤ → Result SignalAction
  triple_decision values fast middle slow =
      let previous = but_last values in
      if ltb_ℤ (size values) (slow +ℤ pos 1)
      then ok SignalAction.hold
      else (ema previous fast >>= λ p0. ema previous middle >>= λ p1. ema previous slow >>= λ p2.
          ema values fast >>= λ c0.
          ema values middle >>= λ c1. ema values slow >>= λ c2. ok (turned p0 p1 p2 c0 c1 c2))

  unfoldable pub triple_signal : List (Candle F) → List (String × Json F) → Result SignalAction
  triple_signal candles parameters = do
    values ← validate triple_schema parameters
    fast ← int_at "fast_window" values
    middle ← int_at "middle_window" values
    slow ← int_at "slow_window" values
    triple_decision (closes candles) fast middle slow
