-- ===== src/PaperProjection/Dicts.antt =====
-- Sums over the items of a dict, and how an assignment changes them.
use mathlib.Core.Option.{some-injective}
use text.Mathlib.TextPositions.{eq_refl}
use algo_manus.Prelude.{
  String, true, false, none, All, Bool-cases, inl, inr, refl, subst, ap, ◌∙◌, sorted_items, place,
  str_le, some, List, [], ◌∷◌, ◌≡◌, arith, str_eq, eq_iff,
}
use algo_manus.Prelude.Int.{ℤ, pos, ◌+ℤ◌, int_laws}
use algo_manus.PaperProjection.State.{find, assign}

module _ {ℓ κ λ'} {A : Type ℓ} where
  pub All-weaken :
      (P : A → Type κ) (Q : A → Type λ') (xs : List A) → All P xs → ((x : A) → P x → Q x) → All Q xs
  All-weaken P Q [] a h = tt
  All-weaken P Q (x ∷ xs) (a, rest) h = (h x a, All-weaken P Q xs rest h)

module _ {V : Type 0} where
  -- The sum of `f` over the items of a dict.
  abbrev pub sum_of : (V → ℤ) → List (String × V) → ℤ
  sum_of f [] = pos 0
  sum_of f ((_, v) ∷ m) = f v +ℤ sum_of f m

  -- An assignment to a key that was there replaces its summand.
  pub sum_of-assign :
      (f : V → ℤ) (k : String) (v w : V) (m : List (String × V))
      → find k m ≡ some w
      → sum_of f (assign k v m) +ℤ f w ≡ sum_of f m +ℤ f v
  sum_of-assign f k v w [] h = cc
  sum_of-assign f k v w ((j, u) ∷ m) h = grind (int_laws, sum_of-assign f k v w m)

  -- An assignment to a new key adds a summand.
  pub sum_of-assign_new :
      (f : V → ℤ) (k : String) (v : V) (m : List (String × V))
      → find k m ≡ none
      → sum_of f (assign k v m) ≡ sum_of f m +ℤ f v
  sum_of-assign_new f k v [] h = omega int_laws
  sum_of-assign_new f k v ((j, u) ∷ m) h = grind (int_laws, sum_of-assign_new f k v m)

  -- What is found after an assignment.
  pub find-assign :
      (i k : String) (v : V) (m : List (String × V))
      → find i (assign k v m) ≡ (elim (str_eq k i) [ true ↦ some v | false ↦ find i m ])
  find-assign i k v [] = ground arith
  find-assign i k v ((j, u) ∷ m) =
      ground (arith, eq_iff k i, eq_iff j k, eq_iff j i, find-assign i k v m)

  -- No key stands twice.
  abbrev pub Distinct : List (String × V) → Type 0
  Distinct [] = Unit
  Distinct ((k, _) ∷ m) = (find k m ≡ none) × Distinct m

  pub assign-Distinct :
      (k : String) (v : V) (m : List (String × V)) → Distinct m → Distinct (assign k v m)
  assign-Distinct k v [] d = (refl, tt)
  assign-Distinct k v ((j, u) ∷ m) d =
      ground (arith, assign-Distinct k v m d.1, find-assign j k v m, eq_iff j k, eq_iff k j)

  -- An assignment keeps a predicate of the values.
  pub assign-All {κ} :
      (P : V → Type κ) (k : String) (v : V) (m : List (String × V))
      → All (λ (item : String × V). P item.1) m
      → P v
      → All (λ (item : String × V). P item.1) (assign k v m)
  assign-All P k v [] a h = (h, tt)
  assign-All P k v ((j, u) ∷ m) (a, rest) h = elim (Bool-cases (str_eq j k)) [
    | inl e ↦ rw e (h, rest)
    | inr e ↦ rw e (a, assign-All P k v m rest h)
  ]

  pub find-All {κ} :
      (P : V → Type κ) (k : String) (m : List (String × V)) {v : V}
      → All (λ (item : String × V). P item.1) m
      → find k m ≡ some v
      → P v
  find-All P k [] a h = cc
  find-All P k ((j, u) ∷ m) (a, rest) h = elim (Bool-cases (str_eq j k)) [
    | inl e ↦ subst P (some-injective _ _ (rw e at h)) a
    | inr e ↦ find-All P k m rest (rw e at h)
  ]

  -- In a dict without double keys every item is the one that its key finds.
  pub find-item :
      (m : List (String × V))
      → Distinct m
      → All (λ (item : String × V). find item.0 m ≡ some item.1) m
  find-item [] d = tt
  find-item ((k, v) ∷ m) (new, d) = (
    rw (eq_refl k) refl,
    All-weaken _ _ m (find-item m d)
        (λ (item : String × V) (e : find item.0 m ≡ some item.1). ground (arith, eq_iff k item.0)),
  )

  -- Sorting keeps a predicate of the items, and every sum over the values.
  pub sorted-All {κ} :
      (P : String × V → Type κ) (m : List (String × V)) → All P m → All P (sorted_items m)
  sorted-All P [] a = tt
  sorted-All P (item ∷ m) (a, rest) = placed (sorted_items m) (sorted-All P m rest)
    where
      placed : (items : List (String × V)) → All P items → All P (place item items)
      placed [] b = (a, tt)
      placed (other ∷ items) (b, bs) = elim (Bool-cases (str_le item.0 other.0)) [
        | inl e ↦ rw e (a, (b, bs))
        | inr e ↦ rw e (b, placed items bs)
      ]

  pub sum_of-sorted : (f : V → ℤ) (m : List (String × V)) → sum_of f (sorted_items m) ≡ sum_of f m
  sum_of-sorted f [] = refl
  sum_of-sorted f ((k, v) ∷ m) = placed (sorted_items m) ∙ ap (λ s. f v +ℤ s) (sum_of-sorted f m)
    where
      placed : (items : List (String × V)) → sum_of f (place (k, v) items) ≡ f v +ℤ sum_of f items
      placed [] = refl
      placed ((j, u) ∷ items) = elim (Bool-cases (str_le k j)) [
        | inl e ↦ rw e refl
        | inr e ↦ rw e (rw (placed items) (omega int_laws))
      ]
