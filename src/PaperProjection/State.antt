-- ===== src/PaperProjection/State.antt =====
-- The state of `PaperPortfolioProjector.replay`, and what it returns, from
-- src/algo_manus/application/paper_projection.py and src/algo_manus/domain/paper.py.
use algo_manus.Prelude.{
  String, Bool, false, Option, none, some, List, [], ◌∷◌, ◌++◌, str_eq, contains, if◌then◌else◌,
}
use algo_manus.Prelude.Int.{ℤ, pos}
use algo_manus.Prelude.Floats.{Floats, zero_f}
use algo_manus.Prelude.Time.{Datetime}
use algo_manus.Vocabulary.{ReconciliationDisposition}
use algo_manus.Risk.Intent.{OrderSide}
use algo_manus.Paper.{PaperOrderStatus}

-- `_MutablePosition`
pub record Position (F : Type 0) : Type 0 where
  pub quantity : ℤ
  pub average_entry_price : F

-- `_MutableOrder`
pub record ProjectedOrder (F : Type 0) : Type 0 where
  pub instrument_id : String
  pub side : Option OrderSide
  pub quantity : Option ℤ
  pub status : PaperOrderStatus
  pub submitted_at : Option Datetime
  pub filled_at : Option Datetime
  pub fill_price : Option F
  pub filled_quantity : ℤ
  pub risk_seen : Bool
  pub reconciliation_disposition : Option ReconciliationDisposition

-- A dict as the list of its items, in the order of insertion.
module _ {V : Type 0} where
  abbrev pub find : String → List (String × V) → Option V
  find k [] = none
  find k ((j, v) ∷ m) = if str_eq j k then some v else find k m

  -- `d[k] = v`, or a change of the object at `k`.
  abbrev pub assign : String → V → List (String × V) → List (String × V)
  assign k v [] = (k, v) ∷ []
  assign k v ((j, w) ∷ m) = if str_eq j k then (j, v) ∷ m else (j, w) ∷ assign k v m

  -- The value that `d.setdefault(k, v)` returns.
  abbrev pub found_or : V → Option V → V
  found_or v none = v
  found_or v (some w) = w

module _ {F : Type 0} where
  -- `_MutableOrder(instrument_id=...)`
  abbrev pub new_order : String → ProjectedOrder F
  new_order instrument_id = record {
    instrument_id = instrument_id;
    side = none;
    quantity = none;
    status = PaperOrderStatus.pending_risk;
    submitted_at = none;
    filled_at = none;
    fill_price = none;
    filled_quantity = pos 0;
    risk_seen = false;
    reconciliation_disposition = none;
  }

module _ {F : Type 0} ⦃fl : Floats F⦄ where
  -- `_MutablePosition()`
  abbrev pub new_position : Position F
  new_position = record { quantity = pos 0; average_entry_price = zero_f }

-- The variables of the loop.
pub record Portfolio (F : Type 0) : Type 0 where
  pub cash : F
  pub realized_pnl : F
  pub positions : List (String × Position F)
  pub orders : List (String × ProjectedOrder F)
  pub unprojectable : List String

-- `_invalid`
abbrev pub invalid : String → List String → List String
invalid event_id unprojectable =
    if contains event_id unprojectable then unprojectable else unprojectable ++ event_id ∷ []

pub record PositionProjection (F : Type 0) : Type 0 where
  pub instrument_id : String
  pub quantity : ℤ
  pub average_entry_price : F

pub record OrderProjection (F : Type 0) : Type 0 where
  pub order_id : String
  pub instrument_id : String
  pub side : Option OrderSide
  pub quantity : Option ℤ
  pub status : PaperOrderStatus
  pub submitted_at : Option Datetime
  pub filled_at : Option Datetime
  pub fill_price : Option F
  pub filled_quantity : ℤ
  pub remaining_quantity : Option ℤ
  pub reconciliation_disposition : Option ReconciliationDisposition

pub record PortfolioProjection (F : Type 0) : Type 0 where
  pub starting_cash : F
  pub cash : F
  pub realized_pnl : F
  pub positions : List (PositionProjection F)
  pub orders : List (OrderProjection F)
  pub session_order_count : ℤ
  pub unprojectable_event_ids : List String
