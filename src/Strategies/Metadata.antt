-- ===== src/Strategies/Metadata.antt =====
-- src/algo_manus/domain/strategy.py: the facts of a strategy, the context of an evaluation, and the
-- revision of its parameters.
use algo_manus.Prelude.{String, List, [], ◌∷◌, any, not, is_blank, ◌||◌, ◌+++◌}
use algo_manus.Prelude.Result.{Result, ok, value_error, raise_if, ◌>>◌}
use algo_manus.Prelude.Time.{Datetime}
use algo_manus.Prelude.Json.{Dict, Codec, object, empty, put}
use algo_manus.Vocabulary.{is_nil}
use algo_manus.Market.{Candle}
use algo_manus.Strategies.Schema.{ParameterSchema, Values, as_value}

-- `StrategyMetadata`
pub record StrategyMetadata (F : Type 0) : Type 0 where
  pub strategy_id : String
  pub display_name : String
  pub version : String
  pub author : String
  pub description : String
  pub risk_notes : String
  pub supported_instrument_types : List String
  pub supported_intervals : List String
  pub parameter_schema : ParameterSchema F

module _ {F : Type 0} where
  -- The constructor of `StrategyMetadata` with its `__post_init__`.
  unfoldable pub strategy_metadata : StrategyMetadata F → Result (StrategyMetadata F)
  strategy_metadata m = do
    raise_if
        (any is_blank (
          m.strategy_id ∷ m.display_name ∷ m.version ∷ m.author ∷ m.description ∷ m.risk_notes
          ∷ []))
        (value_error "strategy metadata text fields are required")
    raise_if (is_nil m.supported_instrument_types || is_nil m.supported_intervals)
        (value_error "strategy metadata needs supported instruments and intervals")
    ok m

-- `StrategyContext`
pub record StrategyContext (F : Type 0) : Type 0 where
  pub instrument_id : String
  pub instrument_type : String
  pub interval : String
  pub candles : List (Candle F)
  pub portfolio_state : Values F
  pub as_of : Datetime

module _ {F : Type 0} where
  unfoldable pub strategy_context : StrategyContext F → Result (StrategyContext F)
  strategy_context c = do
    raise_if (is_blank c.instrument_id || is_blank c.instrument_type || is_blank c.interval)
        (value_error "strategy context needs instrument identity, type and interval")
    raise_if (not c.as_of.aware) (value_error "strategy context timestamp must be timezone-aware")
    ok c

-- `StrategyParameterRevision`
pub record ParameterRevision (F : Type 0) : Type 0 where
  pub strategy_id : String
  pub revision_id : String
  pub parameters : Values F

module _ {F : Type 0} where
  -- The dict of the parameters as a JSON object.
  abbrev as_object : Values F → Dict F
  as_object [] = empty
  as_object ((name, value) ∷ values) = put name (as_value value) (as_object values)

module _ {F T : Type 0} (codec : Codec F T) (prefixed : String → T → T) where
  -- `StrategyParameterRevision.create`; `prefixed` sets the strategy ID before the JSON text.
  unfoldable pub create_revision : String → Values F → Result (ParameterRevision F)
  create_revision strategy_id parameters = do
    raise_if (is_blank strategy_id || is_nil parameters)
        (value_error "strategy_id and at least one parameter are required")
    let canonical = codec.dumps (object (as_object parameters))
    ok (record {
      strategy_id = strategy_id;
      revision_id = "PARAM-" +++ codec.digest (prefixed strategy_id canonical);
      parameters = parameters;
    })
