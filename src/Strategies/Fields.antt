-- ===== src/Strategies/Fields.antt =====
-- What an accepted integer parameter is, and the calls on the closing prices that need no more.
use algo_manus.Prelude.{
  ℕ, zero, suc, ◌-◌, ◌≤◌, ◌<◌, String, Bool, true, false, List, [], ◌∷◌, map, length, take, drop,
  ltb, ◌≡◌, refl, sym, ap, ◌∙◌, subst, arith, Option-cases, inl, inr,
}
use algo_manus.Prelude.Int.{ℤ, pos, negsuc, ltb_ℤ}
use algo_manus.Prelude.Result.{
  Result, Failure, ok, err, float_error, ok-injective, ◌>>=◌, >>=-eq-ok,
}
use algo_manus.Prelude.Floats.{Floats, max_f, zero_f}
use algo_manus.Prelude.Json.{Json}
use algo_manus.PaperProjection.State.{find}
use algo_manus.Strategies.Schema.{
  ParameterKind, Scalar, whole_number, Values, ParameterDefinition, normalized, within,
  validate_scalar, validate_one, validate_all,
}
use algo_manus.Strategies.Signals.Schemas.{integer_definition}
use algo_manus.Strategies.Indicators.{
  size, head_slice, last_slice, but_last, from_end, changes, mean, power, ema, rsi,
}
use algo_manus.Strategies.RoundTrips.{within-same}

module _ {F : Type 0} ⦃fl : Floats F⦄ where
  -- A value that an integer definition with bounds on its side accepts is a number within them.
  abbrev pub IsWindow : ℕ → ℕ → Scalar F → Type 0
  IsWindow least most s = (n : ℕ) × (s ≡ whole_number (pos n)) × (least ≤ n) × (n ≤ most)

  normalized-integer :
      (name : String) (value : Json F) {s : Scalar F}
      → normalized name ParameterKind.integer value ≡ ok s
      → (n : ℤ) × (s ≡ whole_number n)
  unfolding normalized
  normalized-integer name (Json.integer n) h = (n, sym (ok-injective h))
  normalized-integer name _ h = cc

  within-IsWindow :
      (name : String) (default : ℤ) (description : String) (least most : ℕ) (n : ℤ) {s : Scalar F}
      → within (integer_definition name default description (pos least) (pos most)) (whole_number n)
        ≡ ok s
      → IsWindow least most (whole_number n)
  unfolding within
  within-IsWindow name default description least most (pos n) h =
      (n, refl, ground arith, ground arith)
  within-IsWindow name default description least most (negsuc n) h = ground arith

  pub integer-IsWindow :
      (name : String) (default : ℤ) (description : String) (least most : ℕ)
      (parameters : List (String × Json F)) {s : Scalar F}
      → validate_one (integer_definition name default description (pos least) (pos most)) parameters
        ≡ ok s
      → IsWindow least most s
  unfolding validate_one validate_scalar
  integer-IsWindow name default description least most parameters {s} h =
      elim (Option-cases (find name parameters)) [
        | inl missing ↦ cc
        | inr (value, e) ↦
            let d = integer_definition name default description (pos least) (pos most) in
            let (x, read, bounded) =
              >>=-eq-ok (normalized name ParameterKind.integer value) (within d)
                (rw (validate_one, e) at h) in
            let (n, is_n) = normalized-integer name value read in
            subst (IsWindow least most) (sym is_n ∙ within-same d x bounded) (
              within-IsWindow name default description least most n
                (subst (λ y. within d y ≡ ok s) is_n bounded))
      ]

  -- The first definition of an accepted list.
  pub validate_all-first :
      (d : ParameterDefinition F) (ds : List (ParameterDefinition F))
      (parameters : List (String × Json F)) {values : Values F}
      → validate_all (d ∷ ds) parameters ≡ ok values
      → (s : Scalar F) × (rest : Values F) × (validate_one d parameters ≡ ok s)
        × (validate_all ds parameters ≡ ok rest)
        × (values ≡ (d.name, s) ∷ rest)
  unfolding validate_all
  validate_all-first d ds parameters h =
      let (s, e, more) = >>=-eq-ok (validate_one d parameters) _ h in
      let (rest, others, made) = >>=-eq-ok (validate_all ds parameters) _ more in
      (s, rest, e, others, sym (ok-injective made))

module _ {A : Type 0} where
  pub length-take : (n : ℕ) (xs : List A) → n ≤ length xs → length (take n xs) ≡ n
  length-take zero xs h = refl
  length-take (suc n) [] h = ground arith
  length-take (suc n) (x ∷ xs) h = ap suc (length-take n xs (omega (arith, h)))

  pub length-but_last : (xs : List A) → length (but_last xs) ≡ length xs - 1
  length-but_last xs = length-take (length xs - 1) xs (omega arith)

  drop-some :
      (n : ℕ) (xs : List A) → n < length xs → (x : A) × (rest : List A) × (drop n xs ≡ x ∷ rest)
  drop-some n [] h = ground arith
  drop-some zero (x ∷ xs) h = (x, xs, refl)
  drop-some (suc n) (x ∷ xs) h = drop-some n xs (omega (arith, h))

  -- An index from the end that the list has.
  pub from_end-ok : (n : ℕ) (xs : List A) → n < length xs → (x : A) × (from_end n xs ≡ ok x)
  from_end-ok n xs h =
      let (x, rest, e) = drop-some (length xs - suc n) xs (omega (arith, h)) in
      let inside : ltb n (length xs) ≡ true = ground arith in (x, rw (inside, e) refl)

pub length-map : {A B : Type 0} (f : A → B) (xs : List A) → length (map f xs) ≡ length xs
length-map f [] = refl
length-map f (x ∷ xs) = ap suc (length-map f xs)

pub length-drop : {A : Type 0} (n : ℕ) (xs : List A) → length (drop n xs) ≡ length xs - n
length-drop zero xs = omega arith
length-drop (suc n) [] = omega arith
length-drop (suc n) (x ∷ xs) = omega (arith, length-drop n xs)

-- The last items of a list that is not empty.
pub length-last_slice :
    {A : Type 0} (n : ℕ) (xs : List A) → 1 ≤ n → 1 ≤ length xs → 1 ≤ length (last_slice (pos n) xs)
length-last_slice zero xs positive some_items = ground arith
length-last_slice (suc n) xs positive some_items =
    omega (arith, some_items, length-drop (length xs - suc n) xs)

-- The call returns, or raises an exception of the float arithmetic.
abbrev is_float_error : Failure → Bool
is_float_error (float_error _) = true
is_float_error _ = false

abbrev pub settles : {A : Type 0} → Result A → Bool
settles (ok _) = true
settles (err failure) = is_float_error failure

-- A chain of calls settles where each of them does.
pub >>=-settles :
    {A B : Type 0} (first : Result A) (next : A → Result B)
    → settles first ≡ true
    → ((a : A) → settles (next a) ≡ true)
    → settles (first >>= next) ≡ true
>>=-settles (err failure) next h then = h
>>=-settles (ok a) next h then = then a

-- The same, where a call settles for what the call before it returns.
pub >>=-settles_with :
    {A B : Type 0} (first : Result A) (next : A → Result B)
    → settles first ≡ true
    → ((a : A) → first ≡ ok a → settles (next a) ≡ true)
    → settles (first >>= next) ≡ true
>>=-settles_with (err failure) next h then = h
>>=-settles_with (ok a) next h then = then a refl

module _ {F : Type 0} ⦃fl : Floats F⦄ where
  -- A mean of some numbers.
  pub mean-settles : (values : List F) → 1 ≤ length values → settles (mean values) ≡ true
  unfolding mean
  mean-settles [] some_values = ground arith
  mean-settles (x ∷ values) some_values = ground arith

  pub power-settles : (value exponent : F) → settles (power value exponent) ≡ true
  unfolding power
  power-settles value exponent = ground arith

  -- An EMA over no more than the values there are settles.
  pub ema-settles :
      (values : List F) (window : ℕ)
      → 1 ≤ window
      → window ≤ length values
      → settles (ema values (pos window)) ≡ true
  unfolding ema
  ema-settles values window positive h =
      let enough : ltb_ℤ (size values) (pos window) ≡ false = ground arith in
      rw (ema, enough)
        (>>=-settles (mean (head_slice (pos window) values)) _
          (mean-settles (head_slice (pos window) values)
            (omega (arith, positive, length-take window values h)))
          (λ _. refl))

  length-changes : (values : List F) → length (changes values) ≡ length values - 1
  length-changes [] = refl
  length-changes (x ∷ []) = refl
  length-changes (x ∷ y ∷ ys) = omega (arith, length-changes (y ∷ ys))

  pub rsi-settles :
      (values : List F) (window : ℕ)
      → 1 ≤ window
      → window < length values
      → settles (rsi values (pos window)) ≡ true
  unfolding rsi
  rsi-settles values window positive h =
      let enough : ltb_ℤ (size (changes values)) (pos window) ≡ false =
        ground (arith, length-changes values) in
      let recent = last_slice (pos window) (changes values) in
      let kept : 1 ≤ length recent =
        length-last_slice window (changes values) positive
          (omega (arith, h, length-changes values)) in
      rw (rsi, enough)
        (>>=-settles (mean _) _
          (mean-settles _ (omega (arith, kept, length-map (λ x. max_f x zero_f) recent)))
          λ gain.
            >>=-settles (mean _) _
              (mean-settles _
                (omega (arith, kept, length-map (λ x. max_f (fl.neg x) zero_f) recent)))
              λ loss. refl)
