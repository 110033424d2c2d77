-- ===== src/Prelude/Time.antt =====
-- `datetime`: an instant in microseconds, and whether it carries a time zone. The source compares
-- only instants that it has required to be aware.
use algo_manus.Prelude.{ℕ, Bool, true, Option, none, some, ltb}

pub record Datetime : Type 0 where
  pub instant : ℕ
  pub aware : Bool

-- `a < b`
abbrev pub before : Datetime → Datetime → Bool
before a b = ltb a.instant b.instant

-- `now or datetime.now(timezone.utc)`, where `clock` is the reading of the clock.
abbrev pub or_now : Option Datetime → Datetime → Datetime
or_now none clock = clock
or_now (some t) clock = t

-- An aware datetime at the given instant.
abbrev pub at : ℕ → Datetime
at n = record { instant = n; aware = true }
