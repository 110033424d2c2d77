-- ===== src/Risk/Controls.antt =====
-- src/algo_manus/domain/risk_controls.py: the durable kill switch and policy.
pub mod Store
pub mod Service
pub mod Durability
pub mod Switching
use algo_manus.Prelude.{String, Bool, is_blank, ◌||◌, not}
use algo_manus.Prelude.Result.{Result, ok, value_error, raise_if, ◌>>◌}
use algo_manus.Prelude.Time.{Datetime}
use algo_manus.Risk.Engine.{CentralRiskPolicy}

pub record KillSwitchChange : Type 0 where
  pub change_id : String
  pub active : Bool
  pub reason : String
  pub occurred_at : Datetime

pub record RiskControlSnapshot (F : Type 0) : Type 0 where
  pub policy : CentralRiskPolicy F
  pub policy_persisted_at : Datetime
  pub kill_switch_change : KillSwitchChange

-- The constructor of `KillSwitchChange` with its `__post_init__`.
unfoldable pub kill_switch_change : KillSwitchChange → Result KillSwitchChange
kill_switch_change c = do
  raise_if (is_blank c.change_id || is_blank c.reason)
      (value_error "kill-switch change ID and reason are required")
  raise_if (not c.occurred_at.aware)
      (value_error "kill-switch change timestamp must be timezone-aware")
  ok c

-- The constructor of `RiskControlSnapshot` with its `__post_init__`.
module _ {F : Type 0} where
  unfoldable pub risk_control_snapshot : RiskControlSnapshot F → Result (RiskControlSnapshot F)
  risk_control_snapshot s = do
    raise_if (not s.policy_persisted_at.aware)
        (value_error "policy persistence timestamp must be timezone-aware")
    ok s
