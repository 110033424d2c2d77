-- ===== src/Lib.antt =====
-- Verification library of the local paper-trading and research workbench in src/algo_manus.
--
-- The program proposes paper orders, decides on them by two risk policies, keeps an append-only
-- ledger of immutable paper events, and derives from that ledger everything that it shows. No part
-- of it reaches a broker. The parts modelled here, and the files that model them:
--
--   Vocabulary        enumerations and evidence that the parts share: domain/instruments.py,
--                     domain/research.py, domain/execution.py
--   Risk              domain/risk.py (Risk/Intent: `OrderIntent`, `DeterministicRiskPolicy`),
--                     domain/risk_engine.py (Risk/Engine: `CentralRiskEngine`), and
--                     domain/risk_controls.py (Risk/Controls), with the tables of
--                     infrastructure/risk/sqlite_repository.py (Risk/Controls/Store) and
--                     `LocalRiskControlService` of application/risk_controls.py
--                     (Risk/Controls/Service)
--   Orders            domain/execution.py: `ExecutionOrder`, its transitions and fills
--   Paper             domain/paper.py: paper orders, their events, `PaperOrderLifecycle`
--   EventBus          application/local_event_bus.py: the bounded in-process bus
--   PaperLedger       infrastructure/paper/sqlite_ledger.py: the rows of the ledger, in order
--   PaperExecution    application/paper_execution.py: `PaperExecutionService`. Its state is the
--                     ledger and the bus; each method is an action on that state that may raise
--                     (Prelude/Exec), so what was written before a raise stays written
--   PaperProjection   application/paper_projection.py: `PaperPortfolioProjector`, the replay of the
--                     whole ledger into cash, positions and orders. One pass of its loop is
--                     `round`, made of `project` (an event in sequence), `by_type` (its branch) and
--                     `apply_fill`; the dicts are lists of items in the order of insertion
--   PaperAudit        application/paper_audit.py: the rows that show the retained events. Its loop
--                     is `timeline` (PaperAudit/Timeline), which reads fields by PaperAudit/Fields
--                     and selects rows by PaperAudit/Scopes; the queries are PaperAudit/Service.
--                     `str.upper` is an argument
--   Market            domain/market_data.py: candles, their provenance and datasets
--   Backtest          domain/backtest.py (Backtest/Contracts) and application/backtesting.py:
--                     `BarBacktestService`, whose loop is Backtest/Engine (`loop` makes one `step`
--                     for each candle after the history that the strategy asks for) and whose
--                     measures are Backtest/Measures. A strategy is an argument
--   Strategies        domain/strategy.py (Strategies/Schema, Strategies/Metadata) and strategies/:
--                     the registry, the indicators, and the seven built-in strategies. A strategy
--                     here takes untrusted parameters and may raise; its part after the parameters
--                     are read is its `decision`
--   Prelude           shared helpers: results, actions, signed integers, texts, JSON, floats
--   Examples          concrete inputs, tests, and one instance of each theorem below
--
-- Each function carries the name of the function that it models, in lower case and without the
-- leading underscore; constructors of a class with a `__post_init__` are functions that return the
-- value or the exception. The paths above stand under src/algo_manus.
--
-- Floating-point numbers are a type with the operations that the code calls (Prelude/Floats), and
-- no law is assumed of them unless a theorem names it; the tests take whole numbers in their
-- place. `json.dumps`, `json.loads`, `sha256` and `isoformat` are a codec (Prelude/Json), of which
-- the theorems that read a ledger back assume that a dumped value is loaded as it was. A clock
-- reading is an argument. In the backtest a strategy is a function of the candles that it is shown,
-- and one that raises is outside the model; so is a division that overflows. Python's integers are
-- unbounded, so there is no overflow; an instant is a number of microseconds, without the offset
-- that it was written in. All loops run over lists or a count, so none needs fuel.
--
-- Not modelled: the stored copies of bus events, dataset validation and review, experiments and
-- robustness sweeps, the reports on retained evidence, eligibility and promotion gates, the web
-- user interface, the SQLite schemas beside the paper ledger and the risk controls, the migration
-- of a database file, and the download of instruments and candles. What a subscriber of the event
-- bus does outside the bus, and SQLite's own faults, are outside the model too. A message of a
-- parameter error leaves out the bound that the source prints in it. Of the float arithmetic, what
-- `fmean` and `**` raise in the strategies is modelled (as `float_error`), and what they raise in
-- the measures of the backtest is not; a float made from an integer that is too large, where Python
-- raises an OverflowError (`float(value)`, a quantity times a price), is not a failure here, nor is
-- a JSON text that is nested too deeply to load.
pub mod Prelude
pub mod Vocabulary
pub mod Risk
pub mod Orders
pub mod Paper
pub mod EventBus
pub mod PaperLedger
pub mod PaperExecution
pub mod PaperProjection
pub mod PaperAudit
pub mod Market
pub mod Strategies
pub mod Backtest
pub mod Examples
