-- ===== src/Risk/Intent.antt =====
-- src/algo_manus/domain/risk.py: order intents, portfolio snapshots, and the long-only paper policy.
use algo_manus.Prelude.{
  String, Bool, true, false, List, [], ◌∷◌, map, not, ◌&&◌, ◌||◌, is_empty, str_eq, if◌then◌else◌,
}
use algo_manus.Prelude.Result.{Result, ok, value_error, raise_if, ◌>>◌}
use algo_manus.Prelude.Int.{ℤ, pos, ltb_ℤ, leb_ℤ, abs_ℤ}
use algo_manus.Prelude.Floats.{Floats, float, zero_f, min_f, ◌⊕◌, ◌⊗◌, ◌≺◌, ◌≼◌}

pub data OrderSide : Type 0 where
  buy sell : OrderSide

-- `OrderSide.value`, and `side is OrderSide.BUY`.
unfoldable pub side_value : OrderSide → String
side_value OrderSide.buy = "BUY"
side_value OrderSide.sell = "SELL"

abbrev pub is_buy : OrderSide → Bool
is_buy OrderSide.buy = true
is_buy OrderSide.sell = false

abbrev pub same_side : OrderSide → OrderSide → Bool
same_side OrderSide.buy side = is_buy side
same_side OrderSide.sell side = not (is_buy side)

pub record OrderIntent (F : Type 0) : Type 0 where
  pub order_id : String
  pub instrument_id : String
  pub side : OrderSide
  pub quantity : ℤ
  pub reference_price : F
  pub strategy_revision_id : String

pub record PaperPortfolioSnapshot (F : Type 0) : Type 0 where
  pub cash : F
  pub positions : List (String × ℤ)
  pub realized_pnl : F
  pub session_order_count : ℤ

pub record RiskLimits (F : Type 0) : Type 0 where
  pub max_gross_notional : F
  pub max_notional_per_instrument : F
  pub max_session_orders : ℤ
  pub max_daily_loss : F

pub record RiskDecision : Type 0 where
  pub allowed : Bool
  pub code : String
  pub reason : String

-- `mapping.get(key, default)`; the keys of a Python dict are distinct.
abbrev pub get_or {ℓ} : {V : Type ℓ} → String → V → List (String × V) → V
get_or k d [] = d
get_or k d ((j, v) ∷ m) = if str_eq j k then v else get_or k d m

module _ {F : Type 0} ⦃fl : Floats F⦄ where
  -- The constructor of `OrderIntent` with its `__post_init__`.
  unfoldable pub order_intent : OrderIntent F → Result (OrderIntent F)
  order_intent i = do
    raise_if (is_empty i.order_id || is_empty i.instrument_id || is_empty i.strategy_revision_id)
        (value_error "order, instrument and strategy revision identifiers are required")
    raise_if (leb_ℤ i.quantity (pos 0) || (i.reference_price ≼ zero_f))
        (value_error "quantity and reference_price must be positive")
    ok i

  unfoldable pub notional : OrderIntent F → F
  notional i = float i.quantity ⊗ i.reference_price

  unfoldable pub position_quantity : PaperPortfolioSnapshot F → String → ℤ
  position_quantity p instrument_id = get_or instrument_id (pos 0) p.positions

  unfoldable pub gross_notional : PaperPortfolioSnapshot F → List (String × F) → F
  gross_notional p marks = fl.sum (
      map (λ (entry : String × ℤ). float (abs_ℤ entry.1) ⊗ get_or entry.0 zero_f marks) p.positions)

  -- The constructor of `RiskLimits`: `min(...) <= 0` over the four limits, from the left.
  unfoldable pub risk_limits : RiskLimits F → Result (RiskLimits F)
  risk_limits l = do
    raise_if
        (min_f
            (min_f (min_f l.max_gross_notional l.max_notional_per_instrument)
              (float l.max_session_orders))
            l.max_daily_loss
          ≼ zero_f)
        (value_error "all risk limits must be positive")
    ok l

  -- `notional if side is BUY else -notional`
  unfoldable pub signed_notional : OrderIntent F → F
  unfolding notional
  signed_notional i = if is_buy i.side then notional i else fl.neg (notional i)

abbrev pub refuse : String → String → RiskDecision
refuse code reason = record { allowed = false; code = code; reason = reason }

module _ {F : Type 0} ⦃fl : Floats F⦄ where
  -- `DeterministicRiskPolicy.evaluate`
  unfoldable pub evaluate :
      OrderIntent F
      → PaperPortfolioSnapshot F
      → List (String × F)
      → RiskLimits F
      → Bool
      → RiskDecision
  evaluate intent portfolio marks limits kill_switch_active =
      let held = position_quantity portfolio intent.instrument_id in
      let existing = float held ⊗ get_or intent.instrument_id intent.reference_price marks in
      let proposed = existing ⊕ signed_notional intent in
      let proposed_gross = gross_notional portfolio marks ⊕ signed_notional intent in
      if kill_switch_active
      then refuse "KILL_SWITCH" "paper trading is disabled by the local safety switch"
      else if leb_ℤ limits.max_session_orders portfolio.session_order_count
      then refuse "SESSION_ORDER_LIMIT" "session order limit has been reached"
      else if portfolio.realized_pnl ≼ fl.neg limits.max_daily_loss
      then refuse "DAILY_LOSS_LIMIT" "daily realized loss limit has been reached"
      else if not (is_buy intent.side) && ltb_ℤ held intent.quantity
      then refuse "SHORTING_BLOCKED" "paper MVP does not permit short selling"
      else if limits.max_notional_per_instrument ≺ fl.abs proposed
      then refuse "INSTRUMENT_NOTIONAL_LIMIT" "per-instrument notional limit exceeded"
      else if limits.max_gross_notional ≺ proposed_gross
      then refuse "GROSS_NOTIONAL_LIMIT" "gross notional limit exceeded"
      else if is_buy intent.side && (portfolio.cash ≺ notional intent)
      then refuse "INSUFFICIENT_PAPER_CASH" "paper cash is insufficient for the order"
      else record {
        allowed = true;
        code = "APPROVED";
        reason = "paper order is within deterministic risk limits";
      }
