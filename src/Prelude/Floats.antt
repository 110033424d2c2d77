-- ===== src/Prelude/Floats.antt =====
-- Python's floating-point numbers, which antt does not have: a type with the operations that the
-- source uses, taken as an instance. No law is assumed of it here.
use algo_manus.Prelude.{ℕ, zero, suc, ◌+◌, ◌*◌, ◌/◌, Bool, true, List, [], ◌∷◌, if◌then◌else◌}
use algo_manus.Prelude.Int
use algo_manus.Prelude.Int.{
  ℤ, pos, negsuc, ◌+ℤ◌, ◌-ℤ◌, ◌*ℤ◌, neg_ℤ, abs_ℤ, ltb_ℤ, leb_ℤ, eqb_ℤ, pos_part, neg_part,
}

pub record Floats (F : Type 0) : Type 0 where
  pub of_int : ℤ → F
  pub add : F → F → F
  pub sub : F → F → F
  pub mul : F → F → F
  pub div : F → F → F
  pub neg : F → F
  pub abs : F → F
  pub lt : F → F → Bool
  pub le : F → F → Bool
  pub eq : F → F → Bool
  -- `round(x, digits)`, `math.sqrt`, `x ** y`, `int(x)`, and `sum`, `statistics.fmean` and
  -- `statistics.pstdev`, which round in their own way.
  pub round : F → ℕ → F
  pub sqrt : F → F
  pub pow : F → F → F
  pub int : F → ℤ
  pub sum : List F → F
  pub fmean : List F → F
  pub pstdev : List F → F
  -- Whether `fmean` and `x ** y` return: they raise where a result is too large for a float.
  pub fmean_fits : List F → Bool
  pub pow_fits : F → F → Bool

module _ {F : Type 0} ⦃fl : Floats F⦄ where
  infixl 65 ◌⊕◌ ◌⊖◌
  infixl 70 ◌⊗◌ ◌⊘◌
  abbrev pub ◌⊕◌ : F → F → F
  a ⊕ b = fl.add a b

  abbrev pub ◌⊖◌ : F → F → F
  a ⊖ b = fl.sub a b

  abbrev pub ◌⊗◌ : F → F → F
  a ⊗ b = fl.mul a b

  abbrev pub ◌⊘◌ : F → F → F
  a ⊘ b = fl.div a b

  infix 50 ◌≺◌ ◌≼◌
  abbrev pub ◌≺◌ : F → F → Bool
  a ≺ b = fl.lt a b

  abbrev pub ◌≼◌ : F → F → Bool
  a ≼ b = fl.le a b

  abbrev pub float : ℤ → F
  float n = fl.of_int n

  -- The literal 0.0.
  abbrev pub zero_f : F
  zero_f = fl.of_int (pos 0)

  -- Python's two-argument `max` and `min` return the first of two that compare equal.
  abbrev pub max_f : F → F → F
  max_f a b = if fl.lt a b then b else a

  abbrev pub min_f : F → F → F
  min_f a b = if fl.lt b a then b else a

-- Whole numbers in the place of floats, for tests. Division rounds towards zero.
abbrev div_ℤ : ℤ → ℤ → ℤ
div_ℤ a b =
    let q = (pos_part a + neg_part a) / (pos_part b + neg_part b) in
    if eqb_ℤ (abs_ℤ a *ℤ abs_ℤ b) (a *ℤ b) then pos q else neg_ℤ (pos q)

abbrev root : ℕ → ℕ → ℕ
root zero n = 0
root (suc f) n =
    let r = root f n in if Int.leb_ℤ (pos ((r + 1) * (r + 1))) (pos n) then r + 1 else r

abbrev sum_ℤ : List ℤ → ℤ
sum_ℤ [] = pos 0
sum_ℤ (x ∷ xs) = x +ℤ sum_ℤ xs

abbrev count_ℤ : List ℤ → ℕ
count_ℤ [] = 0
count_ℤ (x ∷ xs) = suc (count_ℤ xs)

-- The mean, and the squares of the distances from it.
abbrev mean_ℤ : List ℤ → ℤ
mean_ℤ xs = div_ℤ (sum_ℤ xs) (pos (count_ℤ xs))

abbrev squares : ℤ → List ℤ → List ℤ
squares m [] = []
squares m (x ∷ xs) = (x -ℤ m) *ℤ (x -ℤ m) ∷ squares m xs

abbrev deviation : List ℤ → ℤ
deviation xs =
    let variance = mean_ℤ (squares (mean_ℤ xs) xs) in
    pos (root (pos_part variance) (pos_part variance))

unfoldable pub whole : Floats ℤ
unfolding ◌+ℤ◌ ◌-ℤ◌ ◌*ℤ◌ neg_ℤ abs_ℤ
whole = record {
  of_int = λ n. n;
  add = ◌+ℤ◌;
  sub = ◌-ℤ◌;
  mul = ◌*ℤ◌;
  div = div_ℤ;
  neg = neg_ℤ;
  abs = abs_ℤ;
  lt = ltb_ℤ;
  le = leb_ℤ;
  eq = eqb_ℤ;
  round = λ x _. x;
  sqrt = λ x. pos (root (pos_part x) (pos_part x));
  pow = λ x _. x;
  int = λ x. x;
  sum = sum_ℤ;
  fmean = mean_ℤ;
  pstdev = deviation;
  fmean_fits = λ _. true;
  pow_fits = λ _ _. true;
}
