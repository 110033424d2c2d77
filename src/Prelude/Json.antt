-- ===== src/Prelude/Json.antt =====
-- JSON values, as `json.loads` returns them, and the text codec of the standard library.
use algo_manus.Prelude.{
  ℕ, zero, suc, String, Bool, true, false, Option, none, some, ◌≡◌, refl, str_eq, ◌+++◌,
  if◌then◌else◌,
}
use algo_manus.Prelude.Int.{ℤ, pos}
use algo_manus.Prelude.Time.{Datetime}
use algo_manus.Prelude.Floats.{Floats}

-- A dict is the function from its keys to their values; `absent` stands for a key that it lacks.
pub data Json (F : Type 0) : Type 0 where
  absent null : Json F
  boolean : Bool → Json F
  integer : ℤ → Json F
  number : F → Json F
  text : String → Json F
  array : ℕ → (ℕ → Json F) → Json F
  object : (String → Json F) → Json F

abbrev pub Dict : Type 0 → Type 0
Dict F = String → Json F

module _ {F : Type 0} where
  abbrev pub empty : Dict F
  empty k = absent

  -- `{key: value, ...}` and `d.update({key: value})`
  abbrev pub put : String → Json F → Dict F → Dict F
  put k v d j = if str_eq k j then v else d j

  -- `d.get(key)`
  abbrev pub get : Dict F → String → Json F
  get d k = elim (d k) [ absent ↦ null | v ↦ v ]

  -- `isinstance(value, bool)`
  abbrev pub as_bool : Json F → Option Bool
  as_bool (boolean b) = some b
  as_bool _ = none

  -- `isinstance(value, int)`, which a `bool` passes too
  abbrev pub as_int : Json F → Option ℤ
  as_int (integer n) = some n
  as_int (boolean true) = some (pos 1)
  as_int (boolean false) = some (pos 0)
  as_int _ = none

  abbrev pub as_text : Json F → Option String
  as_text (text s) = some s
  as_text _ = none

  abbrev pub as_object : Json F → Option (Dict F)
  as_object (object d) = some d
  as_object _ = none

  abbrev pub is_null : Json F → Bool
  is_null null = true
  is_null _ = false

  abbrev pub optional_text : Option String → Json F
  optional_text none = null
  optional_text (some s) = text s

module _ {F : Type 0} ⦃fl : Floats F⦄ where
  -- `float(value)` where `isinstance(value, (int, float))`
  abbrev pub as_float : Json F → Option F
  as_float (number x) = some x
  as_float (integer n) = some (fl.of_int n)
  as_float (boolean true) = some (fl.of_int (pos 1))
  as_float (boolean false) = some (fl.of_int (pos 0))
  as_float _ = none

-- `json.dumps(..., sort_keys=True, separators=(",", ":"))`, `json.loads` (`none` for a
-- `JSONDecodeError`), `sha256(text.encode()).hexdigest()[:20]` and `datetime.isoformat`.
pub record Codec (F T : Type 0) : Type 0 where
  pub dumps : Json F → T
  pub loads : T → Option (Json F)
  pub digest : T → String
  pub isoformat : Datetime → String

-- A dumped value is loaded again as it was.
pub record RoundTrips {F T : Type 0} (c : Codec F T) : Type 0 where
  pub loads_dumps : (j : Json F) → c.loads (c.dumps j) ≡ some j

-- A codec for tests: the text is the value, an identity is made of the texts under a few keys,
-- and an instant is written in unary.
abbrev strokes : ℕ → String
strokes zero = "|"
strokes (suc n) = "." +++ strokes n

module _ {F : Type 0} where
  abbrev written : Json F → String
  written (text s) = s
  written _ = "-"

  abbrev under : String → Json F → String
  under k (object d) = written (d k)
  under k _ = "-"

  abbrev nested : String → Json F → String
  nested k (object d) = under k (d "attributes")
  nested k _ = "-"

  abbrev pub plain : Codec F (Json F)
  plain = record {
    dumps = λ j. j;
    loads = λ j. some j;
    digest = λ j.
        under "type" j
        +++ under "order" j
        +++ under "time" j
        +++ nested "paper_event_type" j
        +++ nested "source_evidence_id" j;
    isoformat = λ t. strokes t.instant;
  }

  pub plain-RoundTrips : RoundTrips plain
  plain-RoundTrips = record { loads_dumps = λ j. refl }
