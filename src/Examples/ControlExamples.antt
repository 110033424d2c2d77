-- ===== src/Examples/ControlExamples.antt =====
-- The theorems on the control tables at one policy, saved before the kill switch is set; an instant
-- is written in unary.
use Prim.Native.String as Texts
use algo_manus.Prelude.{
  ℕ, zero, suc, String, Bool, true, false, [], ◌∷◌, ◌+++◌, str_eq, ◌≡◌, refl, ap, if◌then◌else◌,
}
use algo_manus.Prelude.Text.{is_blank, is_space}
use algo_manus.Prelude.Int.{ℤ}
use algo_manus.Prelude.Result.{Result, ok, err, value_error}
use algo_manus.Prelude.Floats.{whole}
use algo_manus.Prelude.Time.{Datetime, at}
use algo_manus.Risk.Engine.{central_risk_policy}
use algo_manus.Risk.Controls.{KillSwitchChange, kill_switch_change}
use algo_manus.Risk.Controls.Store
use algo_manus.Risk.Controls.Store.{
  ControlCodec, ControlStore, append_kill_switch_change, append_change, save_policy_row,
}
use algo_manus.Risk.Controls.Service.{proposed_change, set_kill_switch, snapshot}
use algo_manus.Risk.Controls.Durability.{Written, Keeps, Written-Keeps}
use algo_manus.Risk.Controls.Switching.{set_kill_switch-snapshot}
use algo_manus.Examples.{policy}

abbrev dots : ℕ → String
dots zero = ""
dots (suc n) = "." +++ dots n

abbrev text_length : String → ℕ
text_length Texts.[] = zero
text_length (Texts.◌∷◌ c s) = suc (text_length s)

abbrev parse : String → Result Datetime
parse Texts.[] = err (value_error "Invalid isoformat string")
parse (Texts.◌∷◌ c s) = ok (record { instant = text_length s; aware = str_eq (Texts.◌∷◌ c "") "Z" })

abbrev unary : ControlCodec
unary = record {
  isoformat = λ t. (if t.aware then "Z" else "L") +++ dots t.instant;
  fromisoformat = parse;
  digest = λ s. s;
}

text_length-dots : (n : ℕ) → text_length (dots n) ≡ n
text_length-dots zero = refl
text_length-dots (suc n) = ap suc (text_length-dots n)

marked :
    (n : ℕ) (aware : Bool)
    → parse ((if aware then "Z" else "L") +++ dots n) ≡ ok (record { instant = n; aware = aware })
marked n true = ap (λ m. ok (record { instant = m; aware = true })) (text_length-dots n)
marked n false = ap (λ m. ok (record { instant = m; aware = false })) (text_length-dots n)

reads_back : (u : Datetime) → unary.fromisoformat (unary.isoformat u) ≡ ok u
reads_back u = marked u.instant u.aware

abbrev empty_store : ControlStore ℤ
empty_store = record { policies = []; changes = [] }

abbrev saved : ControlStore ℤ
saved = record {
  policies = record { policy = policy; persisted_at = unary.isoformat (at 1) } ∷ [];
  changes = [];
}

abbrev halted : KillSwitchChange
halted = proposed_change unary true "drill" (at 2)

abbrev switched : ControlStore ℤ
switched = record saved { changes = Store.row_of_change unary halted ∷ [] }

Written-Keeps_example : Keeps ⦃fl = whole⦄ unary empty_store switched
unfolding Store.save_policy save_policy_row append_kill_switch_change append_change
Written-Keeps_example = Written-Keeps ⦃fl = whole⦄ unary (
    Written.appended halted
      (Written.saved {t = empty_store} {u = saved} policy (at 1) Written.stays refl) refl)

set_kill_switch-snapshot_example :
    (halted.active ≡ true)
    × (snapshot ⦃fl = whole⦄ unary "v1" switched ≡ (
      ok (record { policy = policy; policy_persisted_at = at 1; kill_switch_change = halted }),
      switched,
    ))
unfolding Store.get_policy central_risk_policy set_kill_switch kill_switch_change
    append_kill_switch_change append_change whole is_blank is_space
set_kill_switch-snapshot_example =
    set_kill_switch-snapshot ⦃fl = whole⦄ unary true "drill" (at 2) (at 2) "v1" policy (at 1) saved
      {t = switched} {change = halted} reads_back tt refl refl refl refl
