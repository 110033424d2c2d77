-- ===== src/PaperProjection/Conservation.antt =====
-- The portfolio of a replay is that of the fills of its orders.
mod Fills
mod Keeping
mod Branches
mod Rounds
pub mod Streams
use algo_manus.Prelude.{
  All, String, Bool, true, false, Option, none, some, List, [], ◌∷◌, ◌≡◌, refl, arith, str_eq,
  eq_iff, if◌then◌else◌,
}
use algo_manus.Prelude.Int.{ℤ, pos, neg_ℤ, ◌+ℤ◌, ◌≤ℤ◌}
use algo_manus.Risk.Intent.{OrderSide}
use algo_manus.Paper.{PaperOrderStatus}
use algo_manus.PaperExecution.Consistency.{precedes_fills}
use algo_manus.PaperProjection.State.{Position, ProjectedOrder, Portfolio, find, assign}
use algo_manus.PaperProjection.Dicts.{Distinct, sum_of, find-assign}

-- The quantity that a filled quantity adds to the position.
abbrev pub contribution : Option OrderSide → ℤ → ℤ
contribution none filled = pos 0
contribution (some OrderSide.buy) filled = filled
contribution (some OrderSide.sell) filled = neg_ℤ filled

module _ {F : Type 0} where
  -- What the fills of an order have added to the position in instrument `j`.
  abbrev pub signed_fills : String → ProjectedOrder F → ℤ
  signed_fills j o =
      if str_eq o.instrument_id j then contribution o.side o.filled_quantity else pos 0

  abbrev quantity_or : Option (Position F) → ℤ
  quantity_or none = pos 0
  quantity_or (some p) = p.quantity

  -- The quantity of the position in instrument `j`.
  abbrev pub held : String → List (String × Position F) → ℤ
  held j positions = quantity_or (find j positions)

  -- The fills of a projected order fit its terms and its status.
  pub record IsConsistent (o : ProjectedOrder F) : Type 0 where
    pub lower : pos 0 ≤ℤ o.filled_quantity
    pub upper : (q : ℤ) → o.quantity ≡ some q → o.filled_quantity ≤ℤ q
    pub no_side : o.side ≡ none → o.filled_quantity ≡ pos 0
    pub no_quantity : o.quantity ≡ none → o.filled_quantity ≡ pos 0
    pub unfilled : precedes_fills o.status ≡ true → o.filled_quantity ≡ pos 0
    pub complete : o.status ≡ PaperOrderStatus.filled → o.quantity ≡ some o.filled_quantity

  -- No position is short, each is the sum of the signed fills of its orders, and the fills of
  -- every order fit its terms and its status.
  pub record IsBalanced (s : Portfolio F) : Type 0 where
    pub orders : All (λ (item : String × ProjectedOrder F). IsConsistent item.1) s.orders
    pub distinct : Distinct s.positions
    pub long_only : (j : String) → pos 0 ≤ℤ held j s.positions
    pub conserved : (j : String) → held j s.positions ≡ sum_of (signed_fills j) s.orders

  pub held-assign :
      (i k : String) (p : Position F) (m : List (String × Position F))
      → held i (assign k p m) ≡ (if str_eq k i then p.quantity else held i m)
  held-assign i k p m = ground (arith, find-assign i k p m)
