-- ===== src/Strategies/Accepted.antt =====
-- What the values are that the schemas of the strategies accept.
use algo_manus.Prelude.{ℕ, ◌≤◌, String, List, [], ◌∷◌, ◌≡◌, ap, ◌∙◌, arith}
use algo_manus.Prelude.Int.{ℤ, pos}
use algo_manus.Prelude.Result.{ok}
use algo_manus.Prelude.Floats.{Floats}
use algo_manus.Prelude.Json.{Json}
use algo_manus.Strategies.Schema.{Scalar, whole_number, Values, ParameterDefinition, validate_all}
use algo_manus.Strategies.Signals.Schemas.{
  validate_order, validate_windows, validate_three_windows, integer_definition,
}
use algo_manus.Strategies.Fields.{integer-IsWindow, validate_all-first}

module _ {F : Type 0} ⦃fl : Floats F⦄ where
  -- The first parameter of a schema that starts with an integer.
  abbrev First :
      String → ℕ → ℕ → List (ParameterDefinition F) → List (String × Json F) → Values F → Type 0
  First name least most ds parameters values =
      (n : ℕ) × (rest : Values F) × (least ≤ n)
      × (validate_all ds parameters ≡ ok rest)
      × (values ≡ (name, whole_number (pos n)) ∷ rest)

  pub validate_all-First :
      (name : String) (default : ℤ) (description : String) (least most : ℕ)
      (ds : List (ParameterDefinition F)) (parameters : List (String × Json F)) {values : Values F}
      → validate_all
          (integer_definition name default description (pos least) (pos most) ∷ ds)
          parameters
        ≡ ok values
      → First name least most ds parameters values
  validate_all-First name default description least most ds parameters h =
      let (s, rest, e, others, made) =
        validate_all-first (integer_definition name default description (pos least) (pos most)) ds
          parameters h in
      let (n, is_n, at_least_so, _) =
        integer-IsWindow name default description least most parameters e in
      (n, rest, at_least_so, others, made ∙ ap (λ x. (name, x) ∷ rest) is_n)

  pub ends-empty :
      (parameters : List (String × Json F)) {values : Values F}
      → validate_all [] parameters ≡ ok values
      → values ≡ []
  unfolding validate_all
  ends-empty parameters h = ground arith

  -- Two windows in order.
  pub order-windows :
      (fast slow : ℕ) (rest : Values F)
      → validate_windows (
          ("fast_window", whole_number (pos fast))
          ∷ ("slow_window", whole_number (pos slow))
          ∷ rest)
        ≡ ok tt
      → fast ≤ slow
  unfolding validate_windows validate_order
  order-windows fast slow rest h = ground arith

  pub order-three :
      (fast middle slow : ℕ) (rest : Values F)
      → validate_three_windows (
          ("fast_window", whole_number (pos fast))
          ∷ ("middle_window", whole_number (pos middle))
          ∷ ("slow_window", whole_number (pos slow))
          ∷ rest)
        ≡ ok tt
      → (fast ≤ slow) × (middle ≤ slow)
  unfolding validate_three_windows
  order-three fast middle slow rest h = (ground arith, ground arith)

  -- What a schema of three integers accepts.
  pub three-windows :
      (n1 n2 n3 t1 t2 t3 : String) (d1 d2 d3 : ℤ) (l1 l2 l3 m1 m2 m3 : ℕ)
      (parameters : List (String × Json F)) {values : Values F}
      → validate_all
          (integer_definition n1 d1 t1 (pos l1) (pos m1)
            ∷ integer_definition n2 d2 t2 (pos l2) (pos m2)
            ∷ integer_definition n3 d3 t3 (pos l3) (pos m3)
            ∷ [])
          parameters
        ≡ ok values
      → (a : ℕ) × (b : ℕ) × (c : ℕ) × (l1 ≤ a)
        × (l2 ≤ b)
        × (l3 ≤ c)
        × (values
            ≡ (n1, whole_number (pos a))
              ∷ (n2, whole_number (pos b))
              ∷ (n3, whole_number (pos c))
              ∷ [])
  three-windows n1 n2 n3 t1 t2 t3 d1 d2 d3 l1 l2 l3 m1 m2 m3 parameters h =
      let (a, r1, least_a, v1, e1) = validate_all-First n1 d1 t1 l1 m1 _ parameters h in
      let (b, r2, least_b, v2, e2) = validate_all-First n2 d2 t2 l2 m2 _ parameters v1 in
      let (c, r3, least, v3, e3) = validate_all-First n3 d3 t3 l3 m3 _ parameters v2 in
      (
        a,
        b,
        c,
        least_a,
        least_b,
        least,
        e1
            ∙ ap (λ r. (n1, whole_number (pos a)) ∷ r)
                (e2
                  ∙ ap (λ r. (n2, whole_number (pos b)) ∷ r)
                      (e3 ∙ ap (λ r. (n3, whole_number (pos c)) ∷ r) (ends-empty parameters v3))),
      )

  -- What a schema of one integer and two other parameters accepts.
  pub window-and-two :
      (name text : String) (default : ℤ) (least most : ℕ) (x y : ParameterDefinition F)
      (parameters : List (String × Json F)) {values : Values F}
      → validate_all
          (integer_definition name default text (pos least) (pos most) ∷ x ∷ y ∷ [])
          parameters
        ≡ ok values
      → (n : ℕ) × (s : Scalar F) × (t : Scalar F) × (least ≤ n)
        × (values ≡ (name, whole_number (pos n)) ∷ (x.name, s) ∷ (y.name, t) ∷ [])
  window-and-two name text default least most x y parameters h =
      let (n, r1, least_n, v1, e1) =
        validate_all-First name default text least most _ parameters h in
      let (s, r2, _, v2, e2) = validate_all-first x _ parameters v1 in
      let (t, r3, _, v3, e3) = validate_all-first y _ parameters v2 in
      (
        n,
        s,
        t,
        least_n,
        e1
            ∙ ap (λ r. (name, whole_number (pos n)) ∷ r)
                (e2
                  ∙ ap (λ r. (x.name, s) ∷ r)
                      (e3 ∙ ap (λ r. (y.name, t) ∷ r) (ends-empty parameters v3))),
      )
