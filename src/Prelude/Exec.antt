-- ===== src/Prelude/Exec.antt =====
-- Methods that change an object and may raise. What was written before a raise stays written, so
-- the state comes back beside the exception too.
use algo_manus.Prelude.{Bool, true, false, ◌≡◌, refl, arith}
use algo_manus.Prelude.Result.{Failure, Result, ok, err}

abbrev pub Exec : Type 0 → Type 0 → Type 0
Exec S A = S → Result A × S

-- What follows a call, given how the call ended.
abbrev after : {S A B : Type 0} → (A → Exec S B) → Result A → Exec S B
after next (err failure) s = (err failure, s)
after next (ok value) s = next value s

module _ {S A B : Type 0} where
  infixl 5 ◌>>=◌ ◌>>◌
  abbrev pub ◌>>=◌ : Exec S A → (A → Exec S B) → Exec S B
  ◌>>=◌ call next s = let (ended, left) = call s in after next ended left

  abbrev pub ◌>>◌ : Exec S A → Exec S B → Exec S B
  call >> rest = call >>= λ _. rest

module _ {S A : Type 0} where
  -- `return value`
  abbrev pub pure : A → Exec S A
  pure value s = (ok value, s)

  -- A part of the object, read.
  abbrev pub gets : (S → A) → Exec S A
  gets part s = (ok (part s), s)

  -- A call of code that does not change the object.
  abbrev pub lift : Result A → Exec S A
  lift ended s = (ended, s)

-- `if bad: raise e`
abbrev pub raise_if : {S : Type 0} → Bool → Failure → Exec S (Unit {0})
raise_if true e s = (err e, s)
raise_if false e s = (ok tt, s)

module _ {S A B : Type 0} where
  -- A block that returns has returned from its first step.
  pub bind-ok :
      (m : Exec S A) (f : A → Exec S B) (s : S) {b : B} {s' : S}
      → (m >>= f) s ≡ (ok b, s')
      → (a : A) × (s1 : S) × (m s ≡ (ok a, s1)) × (f a s1 ≡ (ok b, s'))
  bind-ok m f s {b} {s'} h = first (m s) refl h
    where
      first :
          (o : Result A × S)
          → m s ≡ o
          → after f o.0 o.1 ≡ (ok b, s')
          → (a : A) × (s1 : S) × (m s ≡ (ok a, s1)) × (f a s1 ≡ (ok b, s'))
      first (ok a, s1) e h = (a, s1, e, h)
      first (err x, s1) e h = cc

module _ {S A : Type 0} where
  -- A block that ends by returning a value has returned that one.
  pub pure-ok : {x y : A} (s s' : S) → pure x s ≡ (ok y, s') → (x ≡ y) × (s ≡ s')
  pure-ok s s' h = (ground arith, ground arith)
