-- ===== src/Strategies/Averages.antt =====
-- The EMA crossover reads its windows without its schema, and still takes what the schema accepts.
use algo_manus.Prelude.{
  ℕ, ◌≤◌, String, true, List, [], ◌∷◌, ◌≡◌, refl, ap, ◌∙◌, subst, arith, Option-cases, inl, inr,
}
use algo_manus.Prelude.Int.{ℤ, pos}
use algo_manus.Prelude.Result.{ok, >>=-eq-ok, >>-eq-ok}
use algo_manus.Prelude.Floats.{Floats}
use algo_manus.Prelude.Json.{Json}
use algo_manus.Market.{Candle}
use algo_manus.PaperProjection.State.{find}
use algo_manus.Strategies.Schema.{
  ParameterKind, Scalar, whole_number, Values, ParameterSchema, normalized, within, validate_scalar,
  validate_one, validate_all, check_names, validate,
}
use algo_manus.Strategies.Signals.Schemas.{
  integer_definition, any_windows_schema, ema_schema, two_windows, validate_windows,
}
use algo_manus.Strategies.Signals.Averages.{closes, ema_signal}
use algo_manus.Strategies.RoundTrips.{within-same, validate-parts}
use algo_manus.Strategies.Fields.{settles, integer-IsWindow, validate_all-first}
use algo_manus.Strategies.Accepted.{order-windows}
use algo_manus.Strategies.Readiness.{ema_decision-settles}

module _ {F : Type 0} ⦃fl : Floats F⦄ where
  within-wide :
      (name text : String) (default : ℤ) (n : ℕ) (s : Scalar F)
      → s ≡ whole_number (pos n)
      → 2 ≤ n
      → n ≤ 500
      → within (integer_definition name default text (pos 2) (pos 500)) s ≡ ok s
  unfolding within
  within-wide name text default n s is_n least most = rw is_n (ground arith)

  -- A value within narrower bounds is accepted within the wide ones.
  validate_one-wide :
      (name text wide_text : String) (default wide_default : ℤ) (least most : ℕ)
      (parameters : List (String × Json F)) {s : Scalar F}
      → 2 ≤ least
      → most ≤ 500
      → validate_one (integer_definition name default text (pos least) (pos most)) parameters ≡ ok s
      → validate_one (integer_definition name wide_default wide_text (pos 2) (pos 500)) parameters
        ≡ ok s
  unfolding validate_one validate_scalar
  validate_one-wide name text wide_text default wide_default least most parameters {s} low high h =
      elim (Option-cases (find name parameters)) [
        | inl missing ↦ cc
        | inr (value, e) ↦
            let narrow = integer_definition name default text (pos least) (pos most) in
            let (x, read, bounded) =
              >>=-eq-ok (normalized name ParameterKind.integer value) (within narrow)
                (rw (validate_one, e) at h) in
            let (n, is_n, above, below) =
              integer-IsWindow name default text least most parameters h in
            let read_as : normalized name ParameterKind.integer value ≡ ok s =
              read ∙ ap ok (within-same narrow x bounded) in
            rw (validate_one, e, validate_scalar, read_as)
              (within-wide name wide_text wide_default n s is_n (omega (arith, low, above))
                (omega (arith, high, below)))
      ]

  names-checked :
      (schema : ParameterSchema F) (parameters : List (String × Json F)) {values : Values F}
      → validate schema parameters ≡ ok values
      → check_names schema.definitions parameters ≡ ok tt
  unfolding validate
  names-checked schema parameters h = (>>-eq-ok (check_names schema.definitions parameters) _ h).0

  any_windows-accepted :
      (parameters : List (String × Json F)) {fast slow : Scalar F}
      → check_names
          (any_windows_schema {F = F} ("fast_window" ∷ "slow_window" ∷ [])).definitions
          parameters
        ≡ ok tt
      → validate_one
          (integer_definition "fast_window" (pos 2) "fast_window" (pos 2) (pos 500))
          parameters
        ≡ ok fast
      → validate_one
          (integer_definition "slow_window" (pos 2) "slow_window" (pos 2) (pos 500))
          parameters
        ≡ ok slow
      → validate (any_windows_schema ("fast_window" ∷ "slow_window" ∷ [])) parameters
        ≡ ok (("fast_window", fast) ∷ ("slow_window", slow) ∷ [])
  unfolding validate validate_all
  any_windows-accepted parameters named f s = rw (validate, named, validate_all, f, s) refl

  -- The signal of the EMA crossover returns, or raises an exception of the float arithmetic, for all
  -- parameters that the schema accepts.
  pub ema_signal-accepted :
      (candles : List (Candle F)) (parameters : List (String × Json F)) {values : Values F}
      → validate ema_schema parameters ≡ ok values
      → settles (ema_signal candles parameters) ≡ true
  unfolding ema_signal two_windows check_names
  ema_signal-accepted candles parameters {values} h =
      let (all_valid, checked) = validate-parts ema_schema parameters h in
      let (f, r1, fast_valid, v1, e1) = validate_all-first _ _ parameters all_valid in
      let (s, r2, slow_valid, v2, e2) = validate_all-first _ _ parameters v1 in
      let (fast, is_fast, least, _) = integer-IsWindow _ _ _ _ _ parameters fast_valid in
      let (slow, is_slow, _, _) = integer-IsWindow _ _ _ _ _ parameters slow_valid in
      let any_valid =
        any_windows-accepted parameters {fast = f} {slow = s}
          (names-checked ema_schema parameters h)
          (validate_one-wide _ _ _ _ _ _ _ parameters (omega arith) (omega arith) fast_valid)
          (validate_one-wide _ _ _ _ _ _ _ parameters (omega arith) (omega arith) slow_valid) in
      let made : values
          ≡ ("fast_window", whole_number (pos fast))
            ∷ ("slow_window", whole_number (pos slow))
            ∷ r2 =
        e1
        ∙ ap (λ x. ("fast_window", x) ∷ r1) is_fast
        ∙ ap (λ r. ("fast_window", whole_number (pos fast)) ∷ r)
            (e2 ∙ ap (λ x. ("slow_window", x) ∷ r2) is_slow) in
      let order =
        order-windows fast slow r2 (subst (λ v. validate_windows v ≡ ok tt) made checked) in
      rw (ema_signal, two_windows, any_valid, is_fast, is_slow)
        (ema_decision-settles (closes candles) fast slow (omega (arith, least)) order)
