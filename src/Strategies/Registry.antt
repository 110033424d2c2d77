-- ===== src/Strategies/Registry.antt =====
-- src/algo_manus/strategies/registry.py: `StrategyRegistry`.
use algo_manus.Prelude.{
  String, none, some, List, [], ◌∷◌, map, contains, str_eq, not, is_some, sorted_items, ◌+++◌,
}
use algo_manus.Prelude.Int.{ℤ}
use algo_manus.Prelude.Result.{Result, ok, err, value_error, key_error, raise_if, ◌>>=◌, ◌>>◌}
use algo_manus.Prelude.Floats.{Floats}
use algo_manus.Prelude.Json.{Json}
use algo_manus.Market.{Candle}
use algo_manus.Backtest.Engine.{SignalAction}
use algo_manus.PaperProjection.State.{find, assign}
use algo_manus.Strategies.Schema.{Values, validate}
use algo_manus.Strategies.Metadata.{StrategyMetadata}

-- An object that keeps the `Strategy` protocol; its methods may raise.
pub record RegisteredStrategy (F : Type 0) : Type 0 where
  pub strategy_id : String
  pub metadata : StrategyMetadata F
  pub required_history : List (String × Json F) → Result ℤ
  pub signal : List (Candle F) → List (String × Json F) → Result SignalAction

-- The dict `_strategies`.
abbrev pub Registry : Type 0 → Type 0
Registry F = List (String × RegisteredStrategy F)

module _ {F : Type 0} where
  -- `register`
  unfoldable pub register : Registry F → RegisteredStrategy F → Result (Registry F)
  register registry strategy = do
    raise_if (not (str_eq strategy.strategy_id strategy.metadata.strategy_id))
        (value_error "strategy ID must match its metadata ID")
    raise_if (is_some (find strategy.strategy_id registry))
        (value_error ("strategy already registered: " +++ strategy.strategy_id))
    ok (assign strategy.strategy_id strategy registry)

  -- `__init__`
  unfoldable pub register_all : Registry F → List (RegisteredStrategy F) → Result (Registry F)
  register_all registry [] = ok registry
  register_all registry (strategy ∷ strategies) = do
    next ← register registry strategy
    register_all next strategies

  -- `get`
  unfoldable pub get : Registry F → String → Result (RegisteredStrategy F)
  get registry strategy_id = elim (find strategy_id registry) [
    | none ↦ err (key_error ("strategy is not registered: " +++ strategy_id))
    | some strategy ↦ ok strategy
  ]

  -- `metadata`
  unfoldable pub metadata : Registry F → List (StrategyMetadata F)
  metadata registry =
      map (λ (item : String × RegisteredStrategy F). item.1.metadata) (sorted_items registry)

  -- `validate_compatibility`
  unfoldable pub validate_compatibility : Registry F → String → String → String → Result (Unit {0})
  validate_compatibility registry strategy_id instrument_type interval = do
    strategy ← get registry strategy_id
    raise_if (not (contains instrument_type strategy.metadata.supported_instrument_types))
        (value_error (strategy_id +++ " does not support instrument type " +++ instrument_type))
    raise_if (not (contains interval strategy.metadata.supported_intervals))
        (value_error (strategy_id +++ " does not support interval " +++ interval))
    ok tt

module _ {F : Type 0} ⦃fl : Floats F⦄ where
  -- `validate_parameters`
  unfoldable pub validate_parameters :
      Registry F → String → List (String × Json F) → Result (Values F)
  validate_parameters registry strategy_id parameters = do
    strategy ← get registry strategy_id
    validate strategy.metadata.parameter_schema parameters
