-- ===== src/Risk/Controls/Store.antt =====
-- src/algo_manus/infrastructure/risk/sqlite_repository.py: the two tables of
-- `SqliteRiskControlRepository`, as their rows. A raise rolls the transaction back, so a method
-- returns the tables or leaves them as they were.
use algo_manus.Prelude.{
  String, Bool, true, false, Option, none, some, List, [], ◌∷◌, ◌++◌, take, str_eq, str_le, not,
  ◌&&◌, ◌==◌, if◌then◌else◌,
}
use algo_manus.Prelude.Int.{ℤ, pos, pos_part, leb_ℤ, eqb_ℤ}
use algo_manus.Prelude.Result.{Result, ok, err, value_error, raise_if, ◌>>=◌, ◌>>◌}
use algo_manus.Prelude.Floats.{Floats}
use algo_manus.Prelude.Time.{Datetime}
use algo_manus.Risk.Engine.{CentralRiskPolicy, central_risk_policy}
use algo_manus.Risk.Controls.{KillSwitchChange, kill_switch_change}

-- `datetime.isoformat`, `datetime.fromisoformat` and `sha256(text.encode()).hexdigest()[:20]`.
pub record ControlCodec : Type 0 where
  pub isoformat : Datetime → String
  pub fromisoformat : String → Result Datetime
  pub digest : String → String

-- A row of `central_risk_policies`, and one of `kill_switch_changes`.
pub record PolicyRow (F : Type 0) : Type 0 where
  pub policy : CentralRiskPolicy F
  pub persisted_at : String

pub record ChangeRow : Type 0 where
  pub change_id : String
  pub active : ℤ
  pub reason : String
  pub occurred_at : String

pub record ControlStore (F : Type 0) : Type 0 where
  pub policies : List (PolicyRow F)
  pub changes : List ChangeRow

-- `SELECT ... WHERE change_id = ?` on the primary key.
abbrev pub change_row : String → List ChangeRow → Option ChangeRow
change_row change_id [] = none
change_row change_id (row ∷ rows) =
    if str_eq row.change_id change_id then some row else change_row change_id rows

-- `ORDER BY occurred_at DESC, change_id DESC`; SQLite compares texts by their bytes.
abbrev pub comes_first : ChangeRow → ChangeRow → Bool
comes_first a b =
    if str_eq a.occurred_at b.occurred_at
    then str_le b.change_id a.change_id
    else str_le b.occurred_at a.occurred_at

abbrev pub place_row : ChangeRow → List ChangeRow → List ChangeRow
place_row row [] = row ∷ []
place_row row (other ∷ rows) =
    if comes_first row other then row ∷ other ∷ rows else other ∷ place_row row rows

unfoldable pub ordered : List ChangeRow → List ChangeRow
ordered [] = []
ordered (row ∷ rows) = place_row row (ordered rows)

-- `restored == change`
abbrev pub same_change : KillSwitchChange → KillSwitchChange → Bool
same_change a b =
    str_eq a.change_id b.change_id
    && (if a.active then b.active else not b.active)
    && str_eq a.reason b.reason
    && (a.occurred_at.instant == b.occurred_at.instant)

module _ {F : Type 0} where
  abbrev pub policy_row : String → List (PolicyRow F) → Option (PolicyRow F)
  policy_row version [] = none
  policy_row version (row ∷ rows) =
      if str_eq row.policy.policy_version version then some row else policy_row version rows

module _ {F : Type 0} ⦃fl : Floats F⦄ where
  abbrev same_limit : Option F → Option F → Bool
  same_limit none none = true
  same_limit (some a) (some b) = fl.eq a b
  same_limit _ _ = false

  -- `a == b` of two policies
  abbrev pub same_policy : CentralRiskPolicy F → CentralRiskPolicy F → Bool
  same_policy a b =
      str_eq a.policy_version b.policy_version
      && eqb_ℤ a.max_quantity_per_order b.max_quantity_per_order
      && fl.eq a.max_notional_per_order b.max_notional_per_order
      && eqb_ℤ a.max_open_positions b.max_open_positions
      && same_limit a.max_gross_notional b.max_gross_notional
      && same_limit a.max_notional_per_instrument b.max_notional_per_instrument
      && same_limit a.max_realized_loss b.max_realized_loss
      && same_limit a.max_concentration_pct b.max_concentration_pct

module _ (codec : ControlCodec) where
  -- `_change_from_row`
  unfoldable pub change_from_row : ChangeRow → Result KillSwitchChange
  change_from_row row = do
    at ← codec.fromisoformat row.occurred_at
    kill_switch_change (record {
      change_id = row.change_id;
      active = not (eqb_ℤ row.active (pos 0));
      reason = row.reason;
      occurred_at = at;
    })

  abbrev pub row_of_change : KillSwitchChange → ChangeRow
  row_of_change change = record {
    change_id = change.change_id;
    active = if change.active then pos 1 else pos 0;
    reason = change.reason;
    occurred_at = codec.isoformat change.occurred_at;
  }

  abbrev changes_from_rows : List ChangeRow → Result (List KillSwitchChange)
  changes_from_rows [] = ok []
  changes_from_rows (row ∷ rows) = do
    change ← change_from_row row
    rest ← changes_from_rows rows
    ok (change ∷ rest)

  abbrev first_change : List ChangeRow → Result (Option KillSwitchChange)
  first_change [] = ok none
  first_change (row ∷ rows) = change_from_row row >>= λ change. ok (some change)

  -- `append_kill_switch_change`, on the table of the changes.
  unfoldable pub append_change : List ChangeRow → KillSwitchChange → Result (List ChangeRow)
  append_change rows change = elim (change_row change.change_id rows) [
    | none ↦ ok (rows ++ row_of_change change ∷ [])
    | some existing ↦
        (change_from_row existing >>= λ restored.
        if same_change restored change
        then ok rows
        else err (value_error "immutable kill-switch change conflicts with existing record"))
  ]

module _ {F : Type 0} (codec : ControlCodec) where
  unfoldable pub append_kill_switch_change :
      ControlStore F → KillSwitchChange → Result (ControlStore F)
  append_kill_switch_change store change =
      append_change codec store.changes change >>= λ rows. ok (record store { changes = rows })

  unfoldable pub current_kill_switch_change : ControlStore F → Result (Option KillSwitchChange)
  current_kill_switch_change store = first_change codec (ordered store.changes)

  unfoldable pub list_kill_switch_changes : ControlStore F → ℤ → Result (List KillSwitchChange)
  list_kill_switch_changes store limit = do
    raise_if (leb_ℤ limit (pos 0)) (value_error "limit must be positive")
    changes_from_rows codec (take (pos_part limit) (ordered store.changes))

module _ {F : Type 0} ⦃fl : Floats F⦄ (codec : ControlCodec) where
  -- `save_policy`, on the table of the policies.
  unfoldable pub save_policy_row :
      List (PolicyRow F) → CentralRiskPolicy F → Datetime → Result (List (PolicyRow F))
  save_policy_row rows policy persisted_at = elim (policy_row policy.policy_version rows) [
    | none ↦
        ok (rows ++ record { policy = policy; persisted_at = codec.isoformat persisted_at } ∷ [])
    | some existing ↦
        (central_risk_policy existing.policy >>= λ stored.
        if same_policy stored policy
        then ok rows
        else err (value_error "immutable central risk policy conflicts with existing version"))
  ]

  unfoldable pub save_policy :
      ControlStore F → CentralRiskPolicy F → Datetime → Result (ControlStore F)
  save_policy store policy persisted_at = do
    raise_if (not persisted_at.aware)
        (value_error "risk policy persistence timestamp must be timezone-aware")
    rows ← save_policy_row store.policies policy persisted_at
    ok (record store { policies = rows })

  unfoldable pub get_policy :
      ControlStore F → String → Result (Option (CentralRiskPolicy F × Datetime))
  get_policy store policy_version = elim (policy_row policy_version store.policies) [
    | none ↦ ok none
    | some row ↦
        (central_risk_policy row.policy >>= λ policy.
        codec.fromisoformat row.persisted_at >>= λ persisted_at. ok (some (policy, persisted_at)))
  ]
