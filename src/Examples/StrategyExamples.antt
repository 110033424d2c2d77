-- ===== src/Examples/StrategyExamples.antt =====
-- The theorems on strategies at the SMA crossover with windows of two and three days, and tests of
-- the built-in registry.
use algo_manus.Prelude.{String, true, false, List, [], ◌∷◌, ◌++◌, str_eq, ◌≡◌, refl}
use algo_manus.Prelude.Int.{ℤ, pos, ◌+ℤ◌}
use algo_manus.Prelude.Result.{ok, is_ok}
use algo_manus.Prelude.Floats.{whole}
use algo_manus.Prelude.Json.{Json, integer}
use algo_manus.Market.{Candle}
use algo_manus.Backtest.Engine.{SignalAction}
use algo_manus.Strategies.Schema.{
  whole_number, Values, validate, check_names, validate_all, validate_one, validate_scalar,
  normalized, within,
}
use algo_manus.Strategies.Registry.{RegisteredStrategy, Registry, register, register_all, get}
use algo_manus.Strategies.Signals.Schemas.{
  sma_schema, macd_schema, triple_schema, threshold_schema, rsi_schema, bollinger_schema,
  validate_windows, validate_order, two_windows,
}
use algo_manus.Strategies.Signals.Averages.{
  sma_signal, ema_signal, ema_decision, ema_required_history, macd_signal, triple_signal,
}
use algo_manus.Strategies.Signals.Levels.{threshold_signal, reversion_signal, bollinger_signal}
use algo_manus.Strategies.BuiltIn.{ema_crossover, sma_crossover, built_in_registry}
use algo_manus.Strategies.RoundTrips.{untrusted, validate-again, register-get}
use algo_manus.Examples.BacktestExamples.{early, late}
use algo_manus.Strategies.Acceptance.{Follows, signals-Follow}

abbrev windows : ℤ → ℤ → List (String × Json ℤ)
windows fast slow = ("fast_window", integer fast) ∷ ("slow_window", integer slow) ∷ []

abbrev accepted : Values ℤ
accepted = ("fast_window", whole_number (pos 2)) ∷ ("slow_window", whole_number (pos 3)) ∷ []

validate-again_example :
    validate ⦃fl = whole⦄ (sma_schema ⦃fl = whole⦄) (untrusted accepted) ≡ ok accepted
unfolding validate check_names validate_all validate_one validate_scalar normalized within
    validate_windows validate_order
validate-again_example =
    validate-again ⦃fl = whole⦄ (sma_schema ⦃fl = whole⦄) (windows (pos 2) (pos 3))
      {values = accepted} refl refl

abbrev first : Registry ℤ
first = ("ema_crossover", ema_crossover ⦃fl = whole⦄) ∷ []

abbrev second : Registry ℤ
second =
    ("ema_crossover", ema_crossover ⦃fl = whole⦄)
    ∷ ("sma_crossover", sma_crossover ⦃fl = whole⦄)
    ∷ []

register-get_example :
    (get second "sma_crossover" ≡ ok (sma_crossover ⦃fl = whole⦄))
    × ((id : String) → str_eq "sma_crossover" id ≡ false → get second id ≡ get first id)
    × ((other : RegisteredStrategy ℤ)
        → str_eq "sma_crossover" other.strategy_id ≡ true
        → is_ok (register second other) ≡ false)
unfolding register
register-get_example = register-get first (sma_crossover ⦃fl = whole⦄) {next = second} refl

abbrev four_days : List (Candle ℤ)
four_days = early ++ late

signals-Follow_example :
    Follows ⦃fl = whole⦄
      (sma_schema ⦃fl = whole⦄)
      (sma_signal ⦃fl = whole⦄ four_days)
      (windows (pos 2) (pos 3))
    × Follows ⦃fl = whole⦄
        (macd_schema ⦃fl = whole⦄)
        (macd_signal ⦃fl = whole⦄ four_days)
        (windows (pos 2) (pos 3))
    × Follows ⦃fl = whole⦄
        (triple_schema ⦃fl = whole⦄)
        (triple_signal ⦃fl = whole⦄ four_days)
        (windows (pos 2) (pos 3))
    × Follows ⦃fl = whole⦄
        (bollinger_schema ⦃fl = whole⦄)
        (bollinger_signal ⦃fl = whole⦄ four_days)
        (windows (pos 2) (pos 3))
    × Follows ⦃fl = whole⦄
        (threshold_schema ⦃fl = whole⦄)
        (threshold_signal ⦃fl = whole⦄ four_days)
        (windows (pos 2) (pos 3))
    × Follows ⦃fl = whole⦄
        (rsi_schema ⦃fl = whole⦄)
        (reversion_signal ⦃fl = whole⦄ four_days)
        (windows (pos 2) (pos 3))
signals-Follow_example = signals-Follow ⦃fl = whole⦄ four_days (windows (pos 2) (pos 3))

-- Every built-in strategy is registered.
built_in_registry-is_ok : is_ok (built_in_registry ⦃fl = whole⦄) ≡ true
unfolding built_in_registry register_all register
built_in_registry-is_ok = refl

-- The EMA crossover takes windows in the wrong order for a signal, but not for its history.
ema_signal-reversed : ema_signal ⦃fl = whole⦄ [] (windows (pos 6) (pos 3)) ≡ ok SignalAction.hold
unfolding ema_signal two_windows validate check_names validate_all validate_one validate_scalar
    normalized within ema_decision ◌+ℤ◌
ema_signal-reversed = refl

ema_required_history-reversed :
    is_ok (ema_required_history ⦃fl = whole⦄ (windows (pos 6) (pos 3))) ≡ false
unfolding ema_required_history validate check_names validate_all validate_one validate_scalar
    normalized within validate_windows validate_order
ema_required_history-reversed = refl
