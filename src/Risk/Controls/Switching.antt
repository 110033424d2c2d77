-- ===== src/Risk/Controls/Switching.antt =====
-- What a snapshot shows after the kill switch was set.
use algo_manus.Prelude.{
  String, Bool, true, false, none, some, List, [], ◌∷◌, ◌++◌, All, str_le, ◌≡◌, refl, sym, ap, ◌∙◌,
  subst, arith, eq_iff, Bool, inl, inr,
}
use algo_manus.Prelude.Result.{ok, ok-injective, >>-eq-ok, Result-cases}
use algo_manus.Prelude.Exec.{pure-ok}
use algo_manus.Prelude.Floats.{Floats}
use algo_manus.Prelude.Time.{Datetime}
use algo_manus.Risk.Engine.{CentralRiskPolicy}
use algo_manus.Risk.Controls.{KillSwitchChange, kill_switch_change, risk_control_snapshot}
use algo_manus.Risk.Controls.Store
use algo_manus.Risk.Controls.Store.{
  ControlCodec, ChangeRow, ControlStore, change_row, ordered, place_row, comes_first,
  change_from_row, row_of_change, append_change, append_kill_switch_change,
  current_kill_switch_change,
}
use algo_manus.Risk.Controls.Service.{proposed_change, set_kill_switch, snapshot_of, snapshot}

-- The newest row stands first, wherever it was inserted.
ordered-first :
    (row : ChangeRow) (rows : List ChangeRow)
    → All (λ (r : ChangeRow). str_le row.occurred_at r.occurred_at ≡ false) rows
    → (rest : List ChangeRow) × (ordered (rows ++ row ∷ []) ≡ row ∷ rest)
unfolding ordered
ordered-first row [] earlier = ([], refl)
ordered-first row (r ∷ rows) (older, earlier) =
    let (rest, e) = ordered-first row rows earlier in
    let later : comes_first r row ≡ false = ground (arith, eq_iff r.occurred_at row.occurred_at) in
    (place_row r rest, rw (e, later) refl)

-- The change that a switch ended with was accepted by its constructor.
change-IsAccepted :
    (change : KillSwitchChange) {c : KillSwitchChange}
    → kill_switch_change change ≡ ok c
    → change ≡ c
unfolding kill_switch_change
change-IsAccepted change h = ok-injective (>>-eq-ok _ _ (>>-eq-ok _ _ h).1).1

module _ (codec : ControlCodec) where
  -- A stored change is read back, where an instant is read back from its text.
  change_from_row-row :
      (change : KillSwitchChange)
      → codec.fromisoformat (codec.isoformat change.occurred_at) ≡ ok change.occurred_at
      → kill_switch_change change ≡ ok change
      → change_from_row codec (row_of_change codec change) ≡ ok change
  unfolding change_from_row
  change_from_row-row change reads valid = rw (change_from_row, reads) (ground (arith, valid))

module _ {F : Type 0} (codec : ControlCodec) where
  -- The tables with one more change.
  abbrev with_change : ControlStore F → KillSwitchChange → ControlStore F
  with_change s change = record s { changes = s.changes ++ row_of_change codec change ∷ [] }

  set_kill_switch-writes :
      (active : Bool) (reason : String) (at clock : Datetime) (s : ControlStore F)
      → kill_switch_change (proposed_change codec active reason at)
        ≡ ok (proposed_change codec active reason at)
      → change_row (proposed_change codec active reason at).change_id s.changes ≡ none
      → set_kill_switch codec active reason (some at) clock s ≡ (
        ok (proposed_change codec active reason at),
        with_change s (proposed_change codec active reason at),
      )
  unfolding set_kill_switch append_kill_switch_change append_change
  set_kill_switch-writes active reason at clock s valid fresh =
      rw (set_kill_switch, valid, append_kill_switch_change, append_change, fresh) refl

  set_kill_switch-valid :
      (active : Bool) (reason : String) (at clock : Datetime) (s : ControlStore F)
      {t : ControlStore F} {change : KillSwitchChange}
      → set_kill_switch codec active reason (some at) clock s ≡ (ok change, t)
      → kill_switch_change (proposed_change codec active reason at)
        ≡ ok (proposed_change codec active reason at)
  unfolding set_kill_switch
  set_kill_switch-valid active reason at clock s h =
      elim (Result-cases (kill_switch_change (proposed_change codec active reason at))) [
        | inl (c, e) ↦ e ∙ ap ok (sym (change-IsAccepted _ e))
        | inr (failed, e) ↦ let gone = rw (set_kill_switch, e) at h in cc
      ]

  current-newest :
      (s : ControlStore F) (change : KillSwitchChange)
      → codec.fromisoformat (codec.isoformat change.occurred_at) ≡ ok change.occurred_at
      → kill_switch_change change ≡ ok change
      → All
          (λ (row : ChangeRow). str_le (codec.isoformat change.occurred_at) row.occurred_at ≡ false)
          s.changes
      → current_kill_switch_change codec (with_change s change) ≡ ok (some change)
  unfolding current_kill_switch_change
  current-newest s change reads valid earlier =
      let (rest, e) = ordered-first (row_of_change codec change) s.changes earlier in
      rw (current_kill_switch_change, e, change_from_row-row codec change reads valid) refl

module _ {F : Type 0} ⦃fl : Floats F⦄ (codec : ControlCodec) where
  snapshot-shows :
      (version : String) (policy : CentralRiskPolicy F) (saved_at : Datetime) (s : ControlStore F)
      (change : KillSwitchChange)
      → Store.get_policy codec s version ≡ ok (some (policy, saved_at))
      → saved_at.aware ≡ true
      → current_kill_switch_change codec s ≡ ok (some change)
      → snapshot codec version s ≡ (
        ok (record {
          policy = policy;
          policy_persisted_at = saved_at;
          kill_switch_change = change;
        }),
        s,
      )
  unfolding snapshot snapshot_of risk_control_snapshot
  snapshot-shows version policy saved_at s change found aware current =
      rw (snapshot, found, current, snapshot_of, risk_control_snapshot, aware) refl

  get_policy-same :
      (s : ControlStore F) (version : String) (rows : List ChangeRow)
      → Store.get_policy codec (record s { changes = rows }) version
        ≡ Store.get_policy codec s version
  unfolding Store.get_policy
  get_policy-same s version rows = refl

  -- Setting the kill switch at an instant whose text comes after those of all stored changes, with
  -- an ID that no stored change has, makes a snapshot that is taken of the tables right after the
  -- write, of a policy that was readable before it, show that change. An instant must be read back
  -- from its text.
  pub set_kill_switch-snapshot :
      (active : Bool) (reason : String) (at clock : Datetime) (version : String)
      (policy : CentralRiskPolicy F) (saved_at : Datetime) (s : ControlStore F) {t : ControlStore F}
      {change : KillSwitchChange}
      → ((u : Datetime) → codec.fromisoformat (codec.isoformat u) ≡ ok u)
      → All (λ (row : ChangeRow). str_le (codec.isoformat at) row.occurred_at ≡ false) s.changes
      → change_row (proposed_change codec active reason at).change_id s.changes ≡ none
      → Store.get_policy codec s version ≡ ok (some (policy, saved_at))
      → saved_at.aware ≡ true
      → set_kill_switch codec active reason (some at) clock s ≡ (ok change, t)
      → (change.active ≡ active)
        × (snapshot codec version t ≡ (
          ok (record {
            policy = policy;
            policy_persisted_at = saved_at;
            kill_switch_change = change;
          }),
          t,
        ))
  set_kill_switch-snapshot active reason at clock version policy saved_at s {t} {change} reads
        earlier fresh found aware h =
      let p = proposed_change codec active reason at in
      let valid = set_kill_switch-valid codec active reason at clock s h in
      let ended =
        pure-ok (with_change codec s p) t
          (sym (set_kill_switch-writes codec active reason at clock s valid fresh) ∙ h) in
      subst
        (λ (c : KillSwitchChange).
          (c.active ≡ active)
          × (snapshot codec version t ≡ (
            ok (record { policy = policy; policy_persisted_at = saved_at; kill_switch_change = c }),
            t,
          )))
        ended.0
        (subst
          (λ (u : ControlStore F).
            (p.active ≡ active)
            × (snapshot codec version u ≡ (
              ok (record {
                policy = policy;
                policy_persisted_at = saved_at;
                kill_switch_change = p;
              }),
              u,
            )))
          ended.1
          (
            refl,
            snapshot-shows version policy saved_at (with_change codec s p) p
                (get_policy-same s version _ ∙ found) aware
                (current-newest codec s p (reads at) valid earlier),
          ))
