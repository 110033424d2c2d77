-- ===== src/PaperLedger.antt =====
-- src/algo_manus/infrastructure/paper/sqlite_ledger.py: the append-only ledger of paper events, as
-- its rows in the order of `event_sequence`. The column `event_id` is UNIQUE.
use algo_manus.Prelude.{String, List, [], ◌∷◌, ◌++◌, any, keep, map, take, str_eq, if◌then◌else◌}
use algo_manus.Prelude.Int.{ℤ, pos, pos_part, leb_ℤ}
use algo_manus.Prelude.Result.{Result, ok, err, value_error, integrity_error, raise_if, ◌>>◌}
use algo_manus.Paper.{PaperEvent}

abbrev pub PaperLedger : Type 0 → Type 0
PaperLedger T = List (PaperEvent T)

module _ {T : Type 0} where
  -- `SqlitePaperLedger.append`: SQLite refuses a second row with the same event ID.
  unfoldable pub append : PaperLedger T → PaperEvent T → Result (PaperLedger T)
  append ledger event =
      if any (λ (row : PaperEvent T). str_eq row.event_id event.event_id) ledger
      then err (integrity_error "UNIQUE constraint failed: paper_events.event_id")
      else ok (ledger ++ event ∷ [])

  -- `SqlitePaperLedger.order_ids`, as the list that the set is made of.
  unfoldable pub order_ids : PaperLedger T → List String
  order_ids ledger = map (λ (row : PaperEvent T). row.order_id) ledger

  -- `SqlitePaperLedger.events_for`
  unfoldable pub events_for : PaperLedger T → String → List (PaperEvent T)
  events_for ledger order_id = keep (λ (row : PaperEvent T). str_eq row.order_id order_id) ledger

  -- `SqlitePaperLedger.events`
  unfoldable pub events : PaperLedger T → ℤ → Result (List (PaperEvent T))
  events ledger limit = do
    raise_if (leb_ℤ limit (pos 0)) (value_error "limit must be positive")
    ok (take (pos_part limit) ledger)
