-- ===== src/Strategies/BuiltIn.antt =====
-- The strategies that src/algo_manus/strategies/registry.py registers, as objects with their
-- metadata and methods.
use algo_manus.Prelude.{String, List, [], ◌∷◌}
use algo_manus.Prelude.Int.{ℤ}
use algo_manus.Prelude.Result.{Result}
use algo_manus.Prelude.Floats.{Floats}
use algo_manus.Prelude.Json.{Json}
use algo_manus.Market.{Candle}
use algo_manus.Backtest.Engine.{SignalAction}
use algo_manus.Strategies.Schema.{ParameterSchema}
use algo_manus.Strategies.Registry.{RegisteredStrategy, Registry, register_all}
use algo_manus.Strategies.Signals.Schemas.{
  sma_schema, ema_schema, macd_schema, triple_schema, threshold_schema, rsi_schema,
  bollinger_schema,
}
use algo_manus.Strategies.Signals.Averages.{
  sma_signal, sma_required_history, ema_signal, ema_required_history, macd_signal,
  macd_required_history, triple_signal, triple_required_history,
}
use algo_manus.Strategies.Signals.Levels.{
  threshold_signal, threshold_required_history, reversion_signal, reversion_required_history,
  bollinger_signal, bollinger_required_history,
}

module _ {F : Type 0} where
  -- A strategy of the repository: the version, the author and what it supports are the same for all.
  abbrev built_in :
      String
      → String
      → String
      → String
      → ParameterSchema F
      → (List (String × Json F) → Result ℤ)
      → (List (Candle F) → List (String × Json F) → Result SignalAction)
      → RegisteredStrategy F
  built_in strategy_id display_name description risk_notes schema required_history signal = record {
    strategy_id = strategy_id;
    metadata = record {
      strategy_id = strategy_id;
      display_name = display_name;
      version = "1.0.0";
      author = "Algo Manus";
      description = description;
      risk_notes = risk_notes;
      supported_instrument_types = "EQUITY" ∷ [];
      supported_intervals = "1d" ∷ [];
      parameter_schema = schema;
    };
    required_history = required_history;
    signal = signal;
  }

module _ {F : Type 0} ⦃fl : Floats F⦄ where
  abbrev pub bollinger_breakout : RegisteredStrategy F
  bollinger_breakout =
      built_in "bollinger_breakout" "Bollinger breakout"
        "Long-only close breakout from a rolling Bollinger band."
        "Research reference only; band breaks are not recommendations." bollinger_schema
        bollinger_required_history bollinger_signal

  abbrev pub ema_crossover : RegisteredStrategy F
  ema_crossover =
      built_in "ema_crossover" "EMA crossover"
        "Long-only exponential-moving-average crossover research strategy."
        "Research reference only; signal output has no order or broker authority." ema_schema
        ema_required_history ema_signal

  abbrev pub macd_crossover : RegisteredStrategy F
  macd_crossover =
      built_in "macd_signal" "MACD signal"
        "Long-only MACD and signal-line crossover research strategy."
        "Research reference only; indicator output has no execution authority." macd_schema
        macd_required_history macd_signal

  abbrev pub rsi_mean_reversion : RegisteredStrategy F
  rsi_mean_reversion =
      built_in "rsi_mean_reversion" "RSI mean reversion"
        "Long-only RSI oversold/overbought research strategy."
        "Research reference only; thresholds are not investment advice." rsi_schema
        reversion_required_history reversion_signal

  abbrev pub rsi_threshold_reversion : RegisteredStrategy F
  rsi_threshold_reversion =
      built_in "rsi_threshold_reversion" "RSI threshold reversion"
        "Long-only RSI threshold-crossing mean-reversion research strategy."
        "Research reference only. Signals use closed local bars and have no broker, paper-order or live-execution authority."
        threshold_schema threshold_required_history threshold_signal

  abbrev pub sma_crossover : RegisteredStrategy F
  sma_crossover =
      built_in "sma_crossover" "SMA crossover"
        "Long-only moving-average crossover reference strategy."
        "Research reference only; signal output has no order or broker authority." sma_schema
        sma_required_history sma_signal

  abbrev pub triple_ema_crossover : RegisteredStrategy F
  triple_ema_crossover =
      built_in "triple_ema_crossover" "Triple EMA crossover"
        "Long-only ordered three-EMA trend research strategy."
        "Research reference only; trend state has no order authority." triple_schema
        triple_required_history triple_signal

  -- `built_in_strategies`
  abbrev pub built_in_strategies : List (RegisteredStrategy F)
  built_in_strategies =
      bollinger_breakout ∷ ema_crossover ∷ macd_crossover ∷ rsi_mean_reversion
      ∷ rsi_threshold_reversion ∷ sma_crossover ∷ triple_ema_crossover ∷ []

  -- `built_in_registry`
  unfoldable pub built_in_registry : Result (Registry F)
  built_in_registry = register_all [] built_in_strategies
