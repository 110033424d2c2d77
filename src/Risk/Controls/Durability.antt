-- ===== src/Risk/Controls/Durability.antt =====
-- What the control tables keep.
use algo_manus.Prelude.{
  String, Bool, true, false, some, List, [], ◌∷◌, ◌++◌, subst, ◌⊎◌, if◌then◌else◌, ◌≡◌, arith,
  Option-cases, inl, inr,
}
use algo_manus.Prelude.Result.{ok, err, value_error, ok-injective, >>=-eq-ok, >>-eq-ok}
use algo_manus.Prelude.Floats.{Floats}
use algo_manus.Prelude.Time.{Datetime}
use algo_manus.Risk.Engine.{CentralRiskPolicy, central_risk_policy}
use algo_manus.Risk.Controls.{KillSwitchChange}
use algo_manus.Risk.Controls.Store
use algo_manus.Risk.Controls.Store.{
  ControlCodec, PolicyRow, ChangeRow, ControlStore, change_row, policy_row, ordered, place_row,
  comes_first, change_from_row, row_of_change, append_change, append_kill_switch_change,
  current_kill_switch_change, save_policy_row, same_change, same_policy,
}

-- A row stays where it is found when rows are appended.
change_row-append :
    (k : String) (rows more : List ChangeRow) (row : ChangeRow)
    → change_row k rows ≡ some row
    → change_row k (rows ++ more) ≡ some row
change_row-append k [] more row h = cc
change_row-append k (r ∷ rows) more row h = ground (arith, change_row-append k rows more row)

module _ {F : Type 0} where
  policy_row-append :
      (k : String) (rows more : List (PolicyRow F)) (row : PolicyRow F)
      → policy_row k rows ≡ some row
      → policy_row k (rows ++ more) ≡ some row
  policy_row-append k [] more row h = cc
  policy_row-append k (r ∷ rows) more row h = ground (arith, policy_row-append k rows more row)

-- A write of a change leaves the rows, or appends one.
append_change-rows :
    (codec : ControlCodec) (rows : List ChangeRow) (change : KillSwitchChange)
    {result : List ChangeRow}
    → append_change codec rows change ≡ ok result
    → (rows ≡ result) ⊎ (rows ++ row_of_change codec change ∷ [] ≡ result)
unfolding append_change
append_change-rows codec rows change {result} h =
    elim (Option-cases (change_row change.change_id rows)) [
      | inl fresh ↦ inr (ok-injective (rw (append_change, fresh) at h))
      | inr (existing, e) ↦
          let (restored, _, rest) =
            >>=-eq-ok (change_from_row codec existing) _ (rw (append_change, e) at h) in
          inl (unchanged (same_change restored change) rest)
    ]
  where
    unchanged :
        (same : Bool)
        → (if same
            then ok rows
            else err (value_error "immutable kill-switch change conflicts with existing record"))
          ≡ ok result
        → rows ≡ result
    unchanged true h = ok-injective h
    unchanged false h = cc

module _ {F : Type 0} ⦃fl : Floats F⦄ where
  save_policy_row-rows :
      (codec : ControlCodec) (rows : List (PolicyRow F)) (policy : CentralRiskPolicy F)
      (at : Datetime) {result : List (PolicyRow F)}
      → save_policy_row codec rows policy at ≡ ok result
      → (rows ≡ result)
        ⊎ (rows ++ record { policy = policy; persisted_at = codec.isoformat at } ∷ [] ≡ result)
  unfolding save_policy_row
  save_policy_row-rows codec rows policy at {result} h =
      elim (Option-cases (policy_row policy.policy_version rows)) [
        | inl fresh ↦ inr (ok-injective (rw (save_policy_row, fresh) at h))
        | inr (existing, e) ↦
            let (stored, _, rest) =
              >>=-eq-ok (central_risk_policy existing.policy) _ (rw (save_policy_row, e) at h) in
            inl (unchanged (same_policy stored policy) rest)
      ]
    where
      unchanged :
          (same : Bool)
          → (if same
              then ok rows
              else err
                  (value_error "immutable central risk policy conflicts with existing version"))
            ≡ ok result
          → rows ≡ result
      unchanged true h = ok-injective h
      unchanged false h = cc

module _ {F : Type 0} ⦃fl : Floats F⦄ (codec : ControlCodec) where
  -- A run of writes on the tables.
  pub data Written : ControlStore F → ControlStore F → Type 0 where
    stays : {s : ControlStore F} → Written s s
    saved :
        {s t u : ControlStore F} (policy : CentralRiskPolicy F) (at : Datetime)
        → Written s t
        → Store.save_policy codec t policy at ≡ ok u
        → Written s u
    appended :
        {s t u : ControlStore F} (change : KillSwitchChange)
        → Written s t
        → append_kill_switch_change codec t change ≡ ok u
        → Written s u

  -- The rows of one table of states are found in the other too.
  abbrev pub Keeps : ControlStore F → ControlStore F → Type 0
  Keeps s t =
      ((version : String) (row : PolicyRow F)
        → policy_row version s.policies ≡ some row
        → policy_row version t.policies ≡ some row)
      × ((change_id : String) (row : ChangeRow)
          → change_row change_id s.changes ≡ some row
          → change_row change_id t.changes ≡ some row)

  saved-Keeps :
      (s : ControlStore F) (policy : CentralRiskPolicy F) (at : Datetime) {t : ControlStore F}
      → Store.save_policy codec s policy at ≡ ok t
      → Keeps s t
  unfolding Store.save_policy
  saved-Keeps s policy at {t} h =
      let (rows, e, made) =
        >>=-eq-ok (save_policy_row codec s.policies policy at) _ (>>-eq-ok _ _ h).1 in
      let found : (version : String) (row : PolicyRow F)
          → policy_row version s.policies ≡ some row
          → policy_row version rows ≡ some row =
        λ version row h. elim (save_policy_row-rows codec s.policies policy at e) [
          | inl same ↦ subst (λ l. policy_row version l ≡ some row) same h
          | inr more ↦
              subst (λ l. policy_row version l ≡ some row) more
                (policy_row-append version s.policies _ row h)
        ] in
      subst (λ u. Keeps s u) (ok-injective made) (found, λ id row h. h)

  appended-Keeps :
      (s : ControlStore F) (change : KillSwitchChange) {t : ControlStore F}
      → append_kill_switch_change codec s change ≡ ok t
      → Keeps s t
  unfolding append_kill_switch_change
  appended-Keeps s change {t} h =
      let (rows, e, made) = >>=-eq-ok (append_change codec s.changes change) _ h in
      let found : (id : String) (row : ChangeRow)
          → change_row id s.changes ≡ some row
          → change_row id rows ≡ some row =
        λ id row h. elim (append_change-rows codec s.changes change e) [
          | inl same ↦ subst (λ l. change_row id l ≡ some row) same h
          | inr more ↦
              subst (λ l. change_row id l ≡ some row) more (change_row-append id s.changes _ row h)
        ] in
      subst (λ u. Keeps s u) (ok-injective made) (λ version row h. h, found)

  -- Whatever policies are saved and changes appended: a policy version and a kill-switch change
  -- that are stored once are never changed or lost.
  pub Written-Keeps : {s t : ControlStore F} → Written s t → Keeps s t
  Written-Keeps Written.stays = (λ version row h. h, λ id row h. h)
  Written-Keeps (Written.saved policy at before h) =
      let earlier = Written-Keeps before in
      let last = saved-Keeps _ policy at h in
      (
        λ version row e. last.0 version row (earlier.0 version row e),
        λ id row e. last.1 id row (earlier.1 id row e),
      )
  Written-Keeps (Written.appended change before h) =
      let earlier = Written-Keeps before in
      let last = appended-Keeps _ change h in
      (
        λ version row e. last.0 version row (earlier.0 version row e),
        λ id row e. last.1 id row (earlier.1 id row e),
      )
