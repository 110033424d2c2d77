-- ===== src/Strategies/RoundTrips.antt =====
-- Validated parameters are accepted again as they are, and a registered strategy is found again.
use algo_manus.Prelude.{
  String, true, false, some, List, [], ◌∷◌, keep, contains, str_eq, ◌≡◌, All, refl, sym, ap, ◌∙◌,
  subst, arith, eq_iff, Bool-cases, Option-cases, inl, inr,
}
use text.Mathlib.TextPositions.{eq_refl}
use algo_manus.Prelude.Result.{ok, is_ok, ok-injective, >>=-eq-ok, >>-eq-ok}
use algo_manus.Prelude.Floats.{Floats}
use algo_manus.Prelude.Json.{Json}
use algo_manus.PaperProjection.State.{find, assign}
use algo_manus.PaperProjection.Dicts.{find-assign}
use algo_manus.Strategies.Schema.{
  ParameterKind, Scalar, Values, ParameterDefinition, ParameterSchema, as_value, normalized, within,
  validate_scalar, names_of, has_twice, keys, lacking, cross_check, validate_one, validate_all,
  check_names, validate,
}
use algo_manus.Strategies.Registry.{RegisteredStrategy, Registry, register, get}

module _ {F : Type 0} where
  -- Normalised values as untrusted ones.
  abbrev pub untrusted : Values F → List (String × Json F)
  untrusted [] = []
  untrusted ((name, value) ∷ values) = (name, as_value value) ∷ untrusted values

  keys-untrusted : (values : Values F) → keys (untrusted values) ≡ keys values
  keys-untrusted [] = refl
  keys-untrusted ((name, value) ∷ values) = ap (λ rest. name ∷ rest) (keys-untrusted values)

module _ {F : Type 0} ⦃fl : Floats F⦄ where
  normalized-again :
      (name : String) (kind : ParameterKind) (value : Json F) {s : Scalar F}
      → normalized name kind value ≡ ok s
      → normalized name kind (as_value s) ≡ ok s
  unfolding normalized
  normalized-again name ParameterKind.integer value h = ground arith
  normalized-again name ParameterKind.number value h = ground arith

  pub within-same :
      (d : ParameterDefinition F) (x : Scalar F) {s : Scalar F} → within d x ≡ ok s → x ≡ s
  unfolding within
  within-same d x h = ok-injective (>>-eq-ok _ _ (>>-eq-ok _ _ h).1).1

  validate_scalar-again :
      (d : ParameterDefinition F) (value : Json F) {s : Scalar F}
      → validate_scalar d value ≡ ok s
      → validate_scalar d (as_value s) ≡ ok s
  unfolding validate_scalar
  validate_scalar-again d value {s} h =
      let (found, e, rest) = >>=-eq-ok (normalized d.name d.kind value) (within d) h in
      let same : found ≡ s = within-same d found rest in
      rw (normalized-again d.name d.kind value {s = s} (e ∙ ap ok same))
        (subst (λ x. within d x ≡ ok s) same rest)

  validate_one-again :
      (d : ParameterDefinition F) (p q : List (String × Json F)) {s : Scalar F}
      → validate_one d p ≡ ok s
      → find d.name q ≡ some (as_value s)
      → validate_one d q ≡ ok s
  unfolding validate_one
  validate_one-again d p q {s} h found = elim (Option-cases (find d.name p)) [
    | inl missing ↦ cc
    | inr (value, e) ↦
        rw (validate_one, found) (validate_scalar-again d value (rw (validate_one, e) at h))
  ]

  -- The items of a result are found in another dict.
  abbrev FoundIn : List (String × Json F) → Values F → Type 0
  FoundIn q = All (λ (item : String × Scalar F). find item.0 q ≡ some (as_value item.1))

  validate_all-again :
      (ds : List (ParameterDefinition F)) (p q : List (String × Json F)) {v : Values F}
      → validate_all ds p ≡ ok v
      → (keys v ≡ names_of ds) × (FoundIn q v → validate_all ds q ≡ ok v)
  unfolding validate_all
  validate_all-again [] p q {v} h =
      subst (λ (w : Values F). (keys w ≡ []) × (FoundIn q w → ok [] ≡ ok w)) (ok-injective h)
        (refl, λ _. refl)
  validate_all-again (d ∷ ds) p q {v} h =
      let (x, e, rest) = >>=-eq-ok (validate_one d p) _ h in
      let (vs, more, made) = >>=-eq-ok (validate_all ds p) _ rest in
      let (named, again) = validate_all-again ds p q more in
      subst
        (λ (w : Values F).
          (keys w ≡ d.name ∷ names_of ds) × (FoundIn q w → validate_all (d ∷ ds) q ≡ ok w))
        (ok-injective made)
        (
          ap (λ names. d.name ∷ names) named,
          λ found. rw (validate_one-again d p q e found.0, again found.1) refl,
        )

module _ {F : Type 0} where
  -- No name stands twice, so each item is the one that its name finds.
  differs :
      (k : String) (values : Values F)
      → contains k (keys values) ≡ false
      → All (λ (item : String × Scalar F). str_eq k item.0 ≡ false) values
  differs k [] h = tt
  differs k ((j, x) ∷ values) h =
      (ground (arith, eq_iff j k, eq_iff k j), differs k values (ground arith))

  past :
      (k : String) (y : Json F) (m : List (String × Json F)) (values : Values F)
      → All (λ (item : String × Scalar F). str_eq k item.0 ≡ false) values
      → All (λ (item : String × Scalar F). find item.0 m ≡ some (as_value item.1)) values
      → All (λ (item : String × Scalar F). find item.0 ((k, y) ∷ m) ≡ some (as_value item.1)) values
  past k y m [] d f = tt
  past k y m (item ∷ values) (d, ds) (f, fs) = (rw d f, past k y m values ds fs)

  found-untrusted :
      (values : Values F)
      → has_twice (keys values) ≡ false
      → All
          (λ (item : String × Scalar F). find item.0 (untrusted values) ≡ some (as_value item.1))
          values
  found-untrusted [] h = tt
  found-untrusted ((k, x) ∷ values) h = elim (Bool-cases (contains k (keys values))) [
    | inl twice ↦ ground arith
    | inr once ↦ (
      rw (eq_refl k) refl,
      past k (as_value x) (untrusted values) values (differs k values once)
          (found-untrusted values (rw once at h)),
    )
  ]

-- No name is lacking among the names themselves.
contains-more :
    (xs ys : List String) (y : String)
    → All (λ x. contains x ys ≡ true) xs
    → All (λ x. contains x (y ∷ ys) ≡ true) xs
contains-more [] ys y a = tt
contains-more (x ∷ xs) ys y (a, rest) = (ground arith, contains-more xs ys y rest)

contains_self : (xs : List String) → All (λ x. contains x xs ≡ true) xs
contains_self [] = tt
contains_self (x ∷ xs) = (rw (eq_refl x) refl, contains-more xs xs x (contains_self xs))

lacking-none : (xs ys : List String) → All (λ x. contains x ys ≡ true) xs → lacking xs ys ≡ []
lacking-none [] ys a = refl
lacking-none (x ∷ xs) ys (a, rest) = rw (lacking, keep, a) (lacking-none xs ys rest)

module _ {F : Type 0} ⦃fl : Floats F⦄ where
  check_names-same :
      (ds : List (ParameterDefinition F)) (q : List (String × Json F))
      → keys q ≡ names_of ds
      → check_names ds q ≡ ok tt
  unfolding check_names
  check_names-same ds q named =
      rw (named, lacking-none (names_of ds) (names_of ds) (contains_self (names_of ds))) refl

  -- What a schema has tested when it returns.
  pub validate-parts :
      (schema : ParameterSchema F) (parameters : List (String × Json F)) {values : Values F}
      → validate schema parameters ≡ ok values
      → (validate_all schema.definitions parameters ≡ ok values)
        × (cross_check schema.cross_field_validator values ≡ ok tt)
  unfolding validate
  validate-parts schema parameters {values} h =
      let known = >>-eq-ok (check_names schema.definitions parameters) _ h in
      let (v, e, rest) = >>=-eq-ok (validate_all schema.definitions parameters) _ known.1 in
      let checked = >>-eq-ok (cross_check schema.cross_field_validator v) (ok v) rest in
      subst
        (λ (w : Values F).
          (validate_all schema.definitions parameters ≡ ok w)
          × (cross_check schema.cross_field_validator w ≡ ok tt))
        (ok-injective checked.1) (e, checked.0)

  -- The parameters that a schema returns are accepted by it again, and come back as they are; the
  -- names of its definitions must differ, which its constructor requires.
  pub validate-again :
      (schema : ParameterSchema F) (parameters : List (String × Json F)) {values : Values F}
      → has_twice (names_of schema.definitions) ≡ false
      → validate schema parameters ≡ ok values
      → validate schema (untrusted values) ≡ ok values
  unfolding validate
  validate-again schema parameters {values} distinct h =
      let (all_valid, checked) = validate-parts schema parameters h in
      let (named, again) =
        validate_all-again schema.definitions parameters (untrusted values) all_valid in
      rw
        (
          check_names-same schema.definitions (untrusted values) (keys-untrusted values ∙ named),
          again (found-untrusted values (ap has_twice named ∙ distinct)),
          checked,
        )
        refl

module _ {F : Type 0} where
  register-made :
      (registry : Registry F) (strategy : RegisteredStrategy F) {next : Registry F}
      → register registry strategy ≡ ok next
      → assign strategy.strategy_id strategy registry ≡ next
  unfolding register
  register-made registry strategy h = ground arith

  -- After a registration the registry returns that strategy under its ID, and every other strategy
  -- as before; and a second registration under the same ID is refused.
  pub register-get :
      (registry : Registry F) (strategy : RegisteredStrategy F) {next : Registry F}
      → register registry strategy ≡ ok next
      → (get next strategy.strategy_id ≡ ok strategy)
        × ((id : String) → str_eq strategy.strategy_id id ≡ false → get next id ≡ get registry id)
        × ((other : RegisteredStrategy F)
            → str_eq strategy.strategy_id other.strategy_id ≡ true
            → is_ok (register next other) ≡ false)
  unfolding register get
  register-get registry strategy {next} h =
      let id = strategy.strategy_id in
      let seen : (k : String)
          → find k next ≡ (elim (str_eq id k) [ true ↦ some strategy | false ↦ find k registry ]) =
        λ k.
          ap (find k) (sym (register-made registry strategy h))
          ∙ find-assign k id strategy registry in
      (
        rw (get, seen id, eq_refl id) refl,
        λ k differs. rw (get, seen k, differs) refl,
        λ other same.
            let taken : find other.strategy_id next ≡ some strategy =
              seen other.strategy_id ∙ rw same refl in
            ground arith,
      )
