-- ===== src/Strategies/Signals/Schemas.antt =====
-- The parameter schemas of the built-in strategies, and how their values are read.
use algo_manus.Prelude.{String, Bool, none, some, List, [], ◌∷◌, map, not, ◌&&◌, ◌+++◌}
use algo_manus.Prelude.Int.{ℤ, pos, leb_ℤ}
use algo_manus.Prelude.Result.{
  Result, ok, err, value_error, parameter_error, key_error, raise_if, ◌>>=◌,
}
use algo_manus.Prelude.Floats.{Floats, float, ◌⊘◌, ◌≼◌}
use algo_manus.Prelude.Json.{Json}
use algo_manus.PaperProjection.State.{find}
use algo_manus.Strategies.Schema.{
  ParameterKind, Scalar, whole_number, real_number, Values, ParameterDefinition, ParameterSchema,
  float_of, int_of, less, validate,
}

-- `except ParameterValidationError as exc: raise ValueError(...) from exc`
abbrev pub relabelled : {A : Type 0} → String → Result A → Result A
relabelled message (err (parameter_error reason)) = err (value_error (message +++ reason))
relabelled message ended = ended

module _ {F : Type 0} where
  -- `values[name]`
  abbrev pub value_of : String → Values F → Result (Scalar F)
  value_of name values = elim (find name values) [
    | none ↦ err (key_error name)
    | some value ↦ ok value
  ]

  abbrev pub integer_definition : String → ℤ → String → ℤ → ℤ → ParameterDefinition F
  integer_definition name default description minimum maximum = record {
    name = name;
    kind = ParameterKind.integer;
    default = whole_number default;
    description = description;
    minimum = some (whole_number minimum);
    maximum = some (whole_number maximum);
  }

  abbrev number_definition : String → F → String → F → F → ParameterDefinition F
  number_definition name default description minimum maximum = record {
    name = name;
    kind = ParameterKind.number;
    default = real_number default;
    description = description;
    minimum = some (real_number minimum);
    maximum = some (real_number maximum);
  }

module _ {F : Type 0} ⦃fl : Floats F⦄ where
  -- `a >= b`
  abbrev pub at_least : Scalar F → Scalar F → Bool
  at_least (whole_number a) (whole_number b) = leb_ℤ b a
  at_least a b = float_of b ≼ float_of a

  -- `int(values[name])` and `float(values[name])`
  abbrev pub int_at : String → Values F → Result ℤ
  int_at name values = value_of name values >>= λ value. ok (int_of value)

  abbrev pub float_at : String → Values F → Result F
  float_at name values = value_of name values >>= λ value. ok (float_of value)

  -- The validators of two fields: `if parameters[low] >= parameters[high]: raise ...`.
  unfoldable pub validate_order : String → String → Values F → Result (Unit {0})
  validate_order low high values = do
    a ← value_of low values
    b ← value_of high values
    raise_if (at_least a b) (parameter_error (low +++ " must be smaller than " +++ high))

  unfoldable pub validate_windows : Values F → Result (Unit {0})
  validate_windows values = validate_order "fast_window" "slow_window" values

  -- `_validate_three_windows`; the last value is read where the first two are in order.
  unfoldable pub validate_three_windows : Values F → Result (Unit {0})
  validate_three_windows values = do
    fast ← value_of "fast_window" values
    middle ← value_of "middle_window" values
    slow ← value_of "slow_window" values
    raise_if (not (less fast middle && less middle slow))
        (parameter_error "windows must be ordered fast < middle < slow")

  abbrev window_schema : String → String → ParameterSchema F
  window_schema fast_description slow_description = record {
    definitions =
        integer_definition "fast_window" (pos 3) fast_description (pos 2) (pos 250)
        ∷ integer_definition "slow_window" (pos 6) slow_description (pos 3) (pos 500)
        ∷ [];
    cross_field_validator = some validate_windows;
  }

  abbrev pub sma_schema : ParameterSchema F
  sma_schema =
      window_schema "Fast simple-moving-average lookback in bars."
        "Slow simple-moving-average lookback in bars."

  abbrev pub ema_schema : ParameterSchema F
  ema_schema = window_schema "Fast EMA lookback." "Slow EMA lookback."

  -- The schema that `_windows` of high_value.py makes for each call.
  abbrev pub any_windows_schema : List String → ParameterSchema F
  any_windows_schema names = record {
    definitions = map (λ name. integer_definition name (pos 2) name (pos 2) (pos 500)) names;
    cross_field_validator = none;
  }

  -- `_windows` of high_value.py, for the two names that it is called with.
  unfoldable pub two_windows : String → List (String × Json F) → Result (ℤ × ℤ)
  two_windows strategy_id parameters = do
    values ←
        relabelled (strategy_id +++ " requires valid integer windows: ")
          (validate (any_windows_schema ("fast_window" ∷ "slow_window" ∷ [])) parameters)
    fast ← int_at "fast_window" values
    slow ← int_at "slow_window" values
    ok (fast, slow)

  abbrev pub macd_schema : ParameterSchema F
  macd_schema = record {
    definitions =
        integer_definition "fast_window" (pos 3) "MACD fast EMA." (pos 2) (pos 100)
        ∷ integer_definition "slow_window" (pos 6) "MACD slow EMA." (pos 3) (pos 250)
        ∷ integer_definition "signal_window" (pos 2) "MACD signal EMA." (pos 2) (pos 100)
        ∷ [];
    cross_field_validator = some validate_windows;
  }

  abbrev pub triple_schema : ParameterSchema F
  triple_schema = record {
    definitions =
        integer_definition "fast_window" (pos 3) "Fast EMA." (pos 2) (pos 100)
        ∷ integer_definition "middle_window" (pos 5) "Middle EMA." (pos 3) (pos 200)
        ∷ integer_definition "slow_window" (pos 8) "Slow EMA." (pos 4) (pos 500)
        ∷ [];
    cross_field_validator = some validate_three_windows;
  }

  -- A threshold between 0.0 and 100.0.
  abbrev threshold : String → ℤ → String → ParameterDefinition F
  threshold name default description =
      number_definition name (float default) description (float (pos 0)) (float (pos 100))

  abbrev pub threshold_schema : ParameterSchema F
  threshold_schema = record {
    definitions =
        integer_definition "rsi_window" (pos 5) "RSI lookback." (pos 2) (pos 250)
        ∷ threshold "entry_threshold" (pos 30) "Enter after RSI crosses below this threshold."
        ∷ threshold "exit_threshold" (pos 70) "Exit after RSI crosses above this threshold."
        ∷ [];
    cross_field_validator = some (validate_order "entry_threshold" "exit_threshold");
  }

  abbrev pub rsi_schema : ParameterSchema F
  rsi_schema = record {
    definitions =
        integer_definition "rsi_window" (pos 5) "RSI lookback." (pos 2) (pos 250)
        ∷ threshold "oversold" (pos 30) "Oversold threshold."
        ∷ threshold "overbought" (pos 70) "Overbought threshold."
        ∷ [];
    cross_field_validator = some (validate_order "oversold" "overbought");
  }

  -- The literal 0.1 is the quotient of 1.0 and 10.0.
  abbrev pub bollinger_schema : ParameterSchema F
  bollinger_schema = record {
    definitions =
        integer_definition "window" (pos 5) "Bollinger lookback." (pos 2) (pos 250)
        ∷ number_definition "deviation" (float (pos 2)) "Standard-deviation multiplier."
            (float (pos 1) ⊘ float (pos 10)) (float (pos 10))
        ∷ [];
    cross_field_validator = none;
  }
