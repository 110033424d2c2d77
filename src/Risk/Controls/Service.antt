-- ===== src/Risk/Controls/Service.antt =====
-- src/algo_manus/application/risk_controls.py: `LocalRiskControlService`, as actions on the tables.
use algo_manus.Prelude.{String, Bool, Option, none, some, List, ◌+++◌, if◌then◌else◌}
use algo_manus.Prelude.Int.{ℤ}
use algo_manus.Prelude.Result.{Result, ok, err, value_error}
use algo_manus.Prelude.Exec.{Exec, ◌>>=◌, ◌>>◌, pure, lift}
use algo_manus.Prelude.Floats.{Floats}
use algo_manus.Prelude.Time.{Datetime, or_now}
use algo_manus.Risk.Engine.{CentralRiskPolicy}
use algo_manus.Risk.Controls.{
  KillSwitchChange, kill_switch_change, RiskControlSnapshot, risk_control_snapshot,
}
use algo_manus.Risk.Controls.Store.{
  ControlCodec, ControlStore, append_kill_switch_change, current_kill_switch_change,
  list_kill_switch_changes,
}
use algo_manus.Risk.Controls.Store

module _ {S A : Type 0} where
  -- A read of the repository, and a write that is rolled back where it raises.
  abbrev reads : (S → Result A) → Exec S A
  reads query s = (query s, s)

abbrev after_write : {S : Type 0} → Result S → S → Result (Unit {0}) × S
after_write (err e) s = (err e, s)
after_write (ok t) s = (ok tt, t)

abbrev writes : {S : Type 0} → (S → Result S) → Exec S (Unit {0})
writes change s = after_write (change s) s

-- `f"{active}|{reason}|{occurred_at.isoformat()}"`
abbrev canonical : ControlCodec → Bool → String → Datetime → String
canonical codec active reason at =
    (if active then "True" else "False") +++ "|" +++ reason +++ "|" +++ codec.isoformat at

-- The change that `set_kill_switch` proposes.
abbrev pub proposed_change : ControlCodec → Bool → String → Datetime → KillSwitchChange
proposed_change codec active reason at = record {
  change_id = "KILL-" +++ codec.digest (canonical codec active reason at);
  active = active;
  reason = reason;
  occurred_at = at;
}

module _ {F : Type 0} (codec : ControlCodec) where
  -- `set_kill_switch`; `clock` is the reading of the clock.
  unfoldable pub set_kill_switch :
      Bool → String → Option Datetime → Datetime → Exec (ControlStore F) KillSwitchChange
  set_kill_switch active reason now clock = do
    change ← lift (kill_switch_change (proposed_change codec active reason (or_now now clock)))
    writes (λ s. append_kill_switch_change codec s change)
    pure change

  unfoldable pub kill_switch_history : ℤ → Exec (ControlStore F) (List KillSwitchChange)
  kill_switch_history limit = reads (λ s. list_kill_switch_changes codec s limit)

module _ {F : Type 0} where
  -- The end of `snapshot`.
  unfoldable pub snapshot_of :
      Option (CentralRiskPolicy F × Datetime)
      → Option KillSwitchChange
      → Result (RiskControlSnapshot F)
  snapshot_of none change =
      err (value_error "requested central risk policy is not persisted locally")
  snapshot_of (some record_) none = err (value_error "durable kill-switch state is not initialized")
  snapshot_of (some (policy, persisted_at)) (some change) =
      risk_control_snapshot (record {
        policy = policy;
        policy_persisted_at = persisted_at;
        kill_switch_change = change;
      })

module _ {F : Type 0} ⦃fl : Floats F⦄ (codec : ControlCodec) where
  unfoldable pub save_policy :
      CentralRiskPolicy F → Option Datetime → Datetime → Exec (ControlStore F) (Unit {0})
  save_policy policy now clock = writes (λ s. Store.save_policy codec s policy (or_now now clock))

  -- `snapshot`; a missing policy is reported before the changes are read.
  unfoldable pub snapshot : String → Exec (ControlStore F) (RiskControlSnapshot F)
  snapshot policy_version = do
    policy_record ← reads (λ s. Store.get_policy codec s policy_version)
    kill_change ← elim policy_record [
      | none ↦ pure none
      | some found ↦ reads (λ s. current_kill_switch_change codec s)
    ]
    lift (snapshot_of policy_record kill_change)

  -- `if self._repository.get_policy(...) is None: self._repository.save_policy(...)`
  abbrev ensure_policy : CentralRiskPolicy F → Datetime → Exec (ControlStore F) (Unit {0})
  ensure_policy policy at = reads (λ s. Store.get_policy codec s policy.policy_version) >>= λ found.
      elim found [ none ↦ writes (λ s. Store.save_policy codec s policy at) | some _ ↦ pure tt ]

  abbrev ensure_change : String → Datetime → Exec (ControlStore F) (Unit {0})
  ensure_change reason at = reads (λ s. current_kill_switch_change codec s) >>= λ found.
      elim found [
        | none ↦ set_kill_switch codec Bool.false reason (some at) at >> pure tt
        | some _ ↦ pure tt
      ]

  unfoldable pub ensure_snapshot :
      CentralRiskPolicy F
      → String
      → Option Datetime
      → Datetime
      → Exec (ControlStore F) (RiskControlSnapshot F)
  ensure_snapshot policy initial_kill_reason now clock = do
    ensure_policy policy (or_now now clock)
    ensure_change initial_kill_reason (or_now now clock)
    snapshot policy.policy_version
