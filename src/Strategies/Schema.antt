-- ===== src/Strategies/Schema.antt =====
-- src/algo_manus/domain/strategy.py: the declared parameters of a strategy and their validation.
-- The untrusted values are JSON values. A message leaves out the bound that the source prints in it.
use algo_manus.Prelude.{
  String, Bool, true, false, Option, none, some, List, [], ◌∷◌, map, keep, contains, is_blank, not,
  ◌+++◌, str_le, if◌then◌else◌,
}
use algo_manus.Prelude.Int.{ℤ, ltb_ℤ}
use algo_manus.Prelude.Result.{
  Result, ok, err, value_error, parameter_error, key_error, raise_if, ◌>>=◌, ◌>>◌,
}
use algo_manus.Prelude.Floats.{Floats, float, ◌≺◌}
use algo_manus.Prelude.Json.{Json}
use algo_manus.Vocabulary.{is_nil}
use algo_manus.PaperProjection.State.{find}

-- `ParameterKind`
pub data ParameterKind : Type 0 where
  integer number : ParameterKind

unfoldable pub kind_value : ParameterKind → String
kind_value ParameterKind.integer = "integer"
kind_value ParameterKind.number = "number"

-- `int | float`
pub data Scalar (F : Type 0) : Type 0 where
  whole_number : ℤ → Scalar F
  real_number : F → Scalar F

-- A dict of normalised parameters, as its items.
abbrev pub Values : Type 0 → Type 0
Values F = List (String × Scalar F)

-- `StrategyParameterDefinition`
pub record ParameterDefinition (F : Type 0) : Type 0 where
  pub name : String
  pub kind : ParameterKind
  pub default : Scalar F
  pub description : String
  pub minimum : Option (Scalar F)
  pub maximum : Option (Scalar F)

module _ {F : Type 0} where
  -- A scalar as an untrusted value again.
  abbrev pub as_value : Scalar F → Json F
  as_value (whole_number n) = Json.integer n
  as_value (real_number x) = Json.number x

module _ {F : Type 0} ⦃fl : Floats F⦄ where
  -- `float(value)`
  abbrev pub float_of : Scalar F → F
  float_of (whole_number n) = float n
  float_of (real_number x) = x

  -- `int(value)`
  abbrev pub int_of : Scalar F → ℤ
  int_of (whole_number n) = n
  int_of (real_number x) = fl.int x

  -- `a < b`, through floats where the two are of different types.
  abbrev pub less : Scalar F → Scalar F → Bool
  less (whole_number a) (whole_number b) = ltb_ℤ a b
  less a b = float_of a ≺ float_of b

  -- `minimum is not None and value < minimum`
  abbrev below : Option (Scalar F) → Scalar F → Bool
  below none value = false
  below (some minimum) value = less value minimum

  abbrev above : Option (Scalar F) → Scalar F → Bool
  above none value = false
  above (some maximum) value = less maximum value

  -- The tests of the type in `_validate_scalar`, and `normalized`.
  unfoldable pub normalized : String → ParameterKind → Json F → Result (Scalar F)
  normalized name kind (Json.boolean b) =
      err (parameter_error (name +++ " must be a " +++ kind_value kind))
  normalized name ParameterKind.integer (Json.integer n) = ok (whole_number n)
  normalized name ParameterKind.integer value =
      err (parameter_error (name +++ " must be an integer"))
  normalized name ParameterKind.number (Json.integer n) = ok (real_number (float n))
  normalized name ParameterKind.number (Json.number x) = ok (real_number x)
  normalized name ParameterKind.number value = err (parameter_error (name +++ " must be a number"))

  -- The tests of the bounds in `_validate_scalar`.
  unfoldable pub within : ParameterDefinition F → Scalar F → Result (Scalar F)
  within d scalar = do
    raise_if (below d.minimum scalar) (parameter_error (d.name +++ " must be at least the minimum"))
    raise_if (above d.maximum scalar) (parameter_error (d.name +++ " must be at most the maximum"))
    ok scalar

  -- `StrategyParameterDefinition.validate`, which is `_validate_scalar`.
  unfoldable pub validate_scalar : ParameterDefinition F → Json F → Result (Scalar F)
  validate_scalar d value = normalized d.name d.kind value >>= within d

  abbrev is_reversed : Option (Scalar F) → Option (Scalar F) → Bool
  is_reversed (some minimum) (some maximum) = less maximum minimum
  is_reversed _ _ = false

  -- The constructor of `StrategyParameterDefinition` with its `__post_init__`.
  unfoldable pub parameter_definition : ParameterDefinition F → Result (ParameterDefinition F)
  parameter_definition d = do
    raise_if (is_blank d.name) (value_error "strategy parameter name is required")
    raise_if (is_blank d.description) (value_error "strategy parameter description is required")
    raise_if (is_reversed d.minimum d.maximum)
        (value_error "strategy parameter minimum cannot exceed maximum")
    _ ← validate_scalar d (as_value d.default)
    ok d

-- `StrategyParameterSchema`
pub record ParameterSchema (F : Type 0) : Type 0 where
  pub definitions : List (ParameterDefinition F)
  pub cross_field_validator : Option (Values F → Result (Unit {0}))

module _ {F : Type 0} where
  abbrev pub names_of : List (ParameterDefinition F) → List String
  names_of definitions = map (λ (d : ParameterDefinition F). d.name) definitions

-- `len(names) != len(set(names))`
abbrev pub has_twice : List String → Bool
has_twice [] = false
has_twice (name ∷ names) = if contains name names then true else has_twice names

-- `', '.join(sorted(names))`
abbrev place_text : String → List String → List String
place_text s [] = s ∷ []
place_text s (t ∷ ts) = if str_le s t then s ∷ t ∷ ts else t ∷ place_text s ts

abbrev sorted_texts : List String → List String
sorted_texts [] = []
sorted_texts (s ∷ ss) = place_text s (sorted_texts ss)

abbrev joined : List String → String
joined [] = ""
joined (s ∷ []) = s
joined (s ∷ t ∷ ts) = s +++ ", " +++ joined (t ∷ ts)

module _ {V : Type 0} where
  abbrev pub keys : List (String × V) → List String
  keys items = map (λ (item : String × V). item.0) items

-- The names of a list that another list lacks.
abbrev pub lacking : List String → List String → List String
lacking names known = keep (λ (name : String). not (contains name known)) names

module _ {F : Type 0} where
  -- The constructor of `StrategyParameterSchema` with its `__post_init__`.
  unfoldable pub parameter_schema : ParameterSchema F → Result (ParameterSchema F)
  parameter_schema schema = do
    raise_if (is_nil (names_of schema.definitions))
        (value_error "strategy parameter schema requires at least one definition")
    raise_if (has_twice (names_of schema.definitions))
        (value_error "strategy parameter schema contains duplicate names")
    ok schema

  -- `StrategyParameterSchema.defaults`
  unfoldable pub defaults : ParameterSchema F → Values F
  defaults schema = map (λ (d : ParameterDefinition F). (d.name, d.default)) schema.definitions

  -- `self.cross_field_validator(normalized)`, where there is one.
  abbrev pub cross_check : Option (Values F → Result (Unit {0})) → Values F → Result (Unit {0})
  cross_check none values = ok tt
  cross_check (some validator) values = validator values

module _ {F : Type 0} ⦃fl : Floats F⦄ where
  -- `definition.validate(parameters[definition.name])`
  unfoldable pub validate_one : ParameterDefinition F → List (String × Json F) → Result (Scalar F)
  validate_one d parameters = elim (find d.name parameters) [
    | none ↦ err (key_error d.name)
    | some value ↦ validate_scalar d value
  ]

  -- The comprehension that makes `normalized`.
  unfoldable pub validate_all :
      List (ParameterDefinition F) → List (String × Json F) → Result (Values F)
  validate_all [] parameters = ok []
  validate_all (d ∷ definitions) parameters = do
    value ← validate_one d parameters
    rest ← validate_all definitions parameters
    ok ((d.name, value) ∷ rest)

  -- The tests of the names in `StrategyParameterSchema.validate`.
  unfoldable pub check_names :
      List (ParameterDefinition F) → List (String × Json F) → Result (Unit {0})
  check_names definitions parameters = do
    let expected = names_of definitions
    let missing = lacking expected (keys parameters)
    let unknown = lacking (keys parameters) expected
    raise_if (not (is_nil missing))
        (parameter_error ("missing strategy parameters: " +++ joined (sorted_texts missing)))
    raise_if (not (is_nil unknown))
        (parameter_error ("unknown strategy parameters: " +++ joined (sorted_texts unknown)))

  -- `StrategyParameterSchema.validate`
  unfoldable pub validate : ParameterSchema F → List (String × Json F) → Result (Values F)
  validate schema parameters = do
    check_names schema.definitions parameters
    values ← validate_all schema.definitions parameters
    cross_check schema.cross_field_validator values
    ok values
