-- ===== src/Prelude/Result.antt =====
-- Python's exceptions as values.
use algo_manus.Prelude.{◌⊎◌, inl, inr, ◌≡◌, refl, Bool, true, false, String}

-- The exceptions that the modelled code raises, with their messages. `float_error` stands for what
-- the float arithmetic of Python raises (an OverflowError, mostly).
pub data Failure : Type 0 where
  value_error invalid_transition integrity_error parameter_error key_error index_error type_error
        attribute_error float_error :
      String → Failure

-- How a call ended: with an exception, or with a value.
pub data Result {ℓ} (A : Type ℓ) : Type ℓ where
  err : Failure → Result A
  ok : A → Result A

abbrev pub is_ok {ℓ} : {A : Type ℓ} → Result A → Bool
is_ok (err _) = false
is_ok (ok _) = true

-- `if bad: raise failure`
abbrev pub raise_if : Bool → Failure → Result (Unit {0})
raise_if false failure = ok tt
raise_if true failure = err failure

module _ {ℓ κ} {A : Type ℓ} {B : Type κ} where
  infixl 5 ◌>>=◌
  abbrev pub ◌>>=◌ : Result A → (A → Result B) → Result B
  ◌>>=◌ (err failure) next = err failure
  ◌>>=◌ (ok value) next = next value

  -- A chain of calls that returns has returned from its first call.
  pub >>=-eq-ok :
      (first : Result A) (next : A → Result B) {b : B}
      → (first >>= next) ≡ ok b
      → (a : A) × (first ≡ ok a) × (next a ≡ ok b)
  >>=-eq-ok (err failure) next returned = cc
  >>=-eq-ok (ok value) next returned = (value, refl, returned)

-- A call whose value is not used.
infixl 5 ◌>>◌
abbrev pub ◌>>◌ {ℓ} : {B : Type ℓ} → Result (Unit {0}) → Result B → Result B
◌>>◌ (err failure) next = err failure
◌>>◌ (ok _) next = next

-- What a call that returns nothing leaves to the rest.
pub >>-eq-ok :
    {A : Type 0} (first : Result (Unit {0})) (next : Result A) {a : A}
    → (first >> next) ≡ ok a
    → (first ≡ ok tt) × (next ≡ ok a)
>>-eq-ok (err e) next h = cc
>>-eq-ok (ok tt) next h = (refl, h)

-- To split on a computed result and keep the equation.
pub Result-cases {ℓ} :
    {A : Type ℓ} (r : Result A) → ((a : A) × (r ≡ ok a)) ⊎ ((e : Failure) × (r ≡ err e))
Result-cases (err failure) = inr (failure, refl)
Result-cases (ok value) = inl (value, refl)

pub ok-injective {ℓ} : {A : Type ℓ} {a b : A} → ok a ≡ ok b → a ≡ b
ok-injective h = cc

-- A last step that always returns.
pub is_ok-bind {ℓ κ} :
    {A : Type ℓ} {B : Type κ} (r : Result A) (f : A → B) → is_ok (r >>= λ a. ok (f a)) ≡ is_ok r
is_ok-bind (err e) f = refl
is_ok-bind (ok a) f = refl
