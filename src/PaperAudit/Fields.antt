-- ===== src/PaperAudit/Fields.antt =====
-- How `PaperOperationAuditTimelineReadService` reads the payload of an event, and its fields.
use algo_manus.Prelude.{String, Bool, true, false, Option, none, some, is_empty, if◌then◌else◌}
use algo_manus.Prelude.Int.{ℤ, pos, ltb_ℤ, leb_ℤ}
use algo_manus.Prelude.Floats.{Floats, float, zero_f, ◌≺◌, ◌≼◌}
use algo_manus.Prelude.Json.{
  Json, Dict, Codec, empty, get, as_text, as_object, as_bool, integer, number,
}
use algo_manus.Paper.{PaperEvent}

module _ {F : Type 0} where
  -- `(payload, True) if isinstance(payload, dict) else ({}, False)`
  abbrev or_empty : Option (Dict F) → Dict F × Bool
  or_empty none = (empty, false)
  or_empty (some payload) = (payload, true)

  -- `canonical.get("payload") if isinstance(canonical, dict) else None`
  abbrev payload_in : Option (Json F) → Option (Dict F)
  payload_in none = none
  payload_in (some canonical) = elim (as_object canonical) [
    | none ↦ none
    | some d ↦ as_object (get d "payload")
  ]

module _ {F T : Type 0} where
  -- `_payload`; a text that is no JSON ends as an empty payload too.
  unfoldable pub payload_read : Codec F T → PaperEvent T → Dict F × Bool
  payload_read codec event = or_empty (payload_in (codec.loads event.payload))

module _ {F : Type 0} where
  -- `_string`
  unfoldable pub string_field : Dict F → String → Option String
  string_field payload field = elim (as_text (get payload field)) [
    | none ↦ none
    | some value ↦ if is_empty value then none else some value
  ]

  -- `isinstance(value, int) and not isinstance(value, bool)`
  abbrev plain_int : Json F → Option ℤ
  plain_int (integer n) = some n
  plain_int _ = none

  -- `_positive_int`
  unfoldable pub positive_int : Dict F → String → Option ℤ
  positive_int payload field = elim (plain_int (get payload field)) [
    | none ↦ none
    | some value ↦ if ltb_ℤ (pos 0) value then some value else none
  ]

  -- `_nested`
  unfoldable pub nested : Dict F → String → Dict F
  nested payload section = elim (as_object (get payload section)) [
    | none ↦ empty
    | some value ↦ value
  ]

  unfoldable pub nested_string : Dict F → String → String → Option String
  unfolding string_field nested
  nested_string payload section field = string_field (nested payload section) field

  unfoldable pub nested_nonnegative_int : Dict F → String → String → Option ℤ
  nested_nonnegative_int payload section field =
      elim (plain_int (get (nested payload section) field)) [
        | none ↦ none
        | some value ↦ if leb_ℤ (pos 0) value then some value else none
      ]

  -- `_boolean`
  unfoldable pub boolean_field : Dict F → String → Option Bool
  boolean_field payload field = as_bool (get payload field)

  unfoldable pub nested_boolean : Dict F → String → String → Option Bool
  nested_boolean payload section field = boolean_field (nested payload section) field

module _ {F : Type 0} ⦃fl : Floats F⦄ where
  -- A number that is no `bool`, as a float.
  abbrev plain_number : Json F → Option F
  plain_number (number x) = some x
  plain_number (integer n) = some (float n)
  plain_number _ = none

  -- `_positive_number`
  unfoldable pub positive_number : Dict F → String → Option F
  positive_number payload field = elim (plain_number (get payload field)) [
    | none ↦ none
    | some value ↦ if zero_f ≺ value then some value else none
  ]

  unfoldable pub nested_positive_number : Dict F → String → String → Option F
  nested_positive_number payload section field = positive_number (nested payload section) field

  unfoldable pub nested_nonnegative_number : Dict F → String → String → Option F
  nested_nonnegative_number payload section field =
      elim (plain_number (get (nested payload section) field)) [
        | none ↦ none
        | some value ↦ if zero_f ≼ value then some value else none
      ]
