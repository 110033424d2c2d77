-- ===== src/Prelude/Text.antt =====
-- Texts: Python's `str.strip`, truth value and concatenation over the native `String`.
use Prim.Native.Nat.{ℕ, zero, suc, ◌/◌, ◌%◌, compare, Ordering}
use Prim.Native.Char.{Char, code}
use Prim.Native.String.{String, compare as compare_text}
use text.Mathlib.Text.{◌==◌}
use mathlib.Core.Bool.{Bool, true, false, ◌&&◌, ◌||◌}
use mathlib.Core.List.{List, [], ◌∷◌}
use algo_manus.Prelude.Tests.{if◌then◌else◌, ltb}

abbrev pub str_eq : String → String → Bool
str_eq a b = a == b

abbrev in_range : ℕ → ℕ → ℕ → Bool
in_range lo hi n = elim (compare n lo) [
  | Ordering.lt ↦ false
  | _ ↦ elim (compare n hi) [ Ordering.gt ↦ false | _ ↦ true ]
]

-- `str.isspace` of one character, as `str.strip` uses it.
unfoldable pub is_space : Char → Bool
is_space c =
    let n = code c in
    in_range 9 13 n
    || in_range 28 32 n
    || in_range 0x85 0x85 n
    || in_range 0xa0 0xa0 n
    || in_range 0x1680 0x1680 n
    || in_range 0x2000 0x200a n
    || in_range 0x2028 0x2029 n
    || in_range 0x202f 0x202f n
    || in_range 0x205f 0x205f n
    || in_range 0x3000 0x3000 n

-- `not value.strip()`
unfoldable pub is_blank : String → Bool
unfolding is_space
is_blank String.[] = true
is_blank (String.◌∷◌ c s) = is_space c && is_blank s

unfoldable pub lstrip : String → String
unfolding is_space
lstrip String.[] = String.[]
lstrip (String.◌∷◌ c s) =
    let rest = lstrip s in elim (is_space c) [ true ↦ rest | false ↦ String.◌∷◌ c s ]

unfoldable pub rstrip : String → String
unfolding is_blank
rstrip String.[] = String.[]
rstrip (String.◌∷◌ c s) =
    let rest = rstrip s in
    elim (is_space c && is_blank s) [ true ↦ String.[] | false ↦ String.◌∷◌ c rest ]

unfoldable pub strip : String → String
unfolding lstrip rstrip
strip s = rstrip (lstrip s)

-- `not value`
abbrev pub is_empty : String → Bool
is_empty String.[] = true
is_empty (String.◌∷◌ c s) = false

-- `a + b`
infixr 65 ◌+++◌
abbrev pub ◌+++◌ : String → String → String
String.[] +++ t = t
(String.◌∷◌ c s) +++ t = String.◌∷◌ c (s +++ t)

-- `str(n)` of a number that is not negative.
abbrev digit : ℕ → String
digit n =
    if ltb n 1
    then "0"
    else if ltb n 2
    then "1"
    else if ltb n 3
    then "2"
    else if ltb n 4
    then "3"
    else if ltb n 5
    then "4"
    else if ltb n 6
    then "5"
    else if ltb n 7
    then "6"
    else if ltb n 8
    then "7"
    else if ltb n 9
    then "8"
    else "9"

-- The last `fuel` digits of a number; a number has no more digits than its successor counts.
abbrev digits : ℕ → ℕ → String
digits zero n = ""
digits (suc fuel) n = elim (ltb n 10) [
  | true ↦ digit n
  | false ↦ digits fuel (n / 10) +++ digit (n % 10)
]

abbrev pub decimal : ℕ → String
decimal n = digits (suc n) n

-- `x in xs`
abbrev pub contains : String → List String → Bool
contains x [] = false
contains x (y ∷ ys) = str_eq y x || contains x ys

-- `a <= b` on texts, by code points.
abbrev pub str_le : String → String → Bool
str_le a b = elim (compare_text a b) [ Ordering.gt ↦ false | _ ↦ true ]

-- `sorted(items)` on the items of a dict, whose keys differ.
module _ {V : Type 0} where
  abbrev pub place : String × V → List (String × V) → List (String × V)
  place item [] = item ∷ []
  place item (other ∷ items) =
      if str_le item.0 other.0 then item ∷ other ∷ items else other ∷ place item items

  abbrev pub sorted_items : List (String × V) → List (String × V)
  sorted_items [] = []
  sorted_items (item ∷ items) = place item (sorted_items items)
