-- ===== src/PaperAudit/Isolation.antt =====
-- What the rows of one order depend on.
use algo_manus.Prelude.{
  ℕ, ◌≤◌, zero, suc, String, Bool, true, false, Option, none, some, List, [], ◌∷◌, keep, length,
  take, str_eq, strip, contains, is_empty, subst, ◌≡◌, refl, sym, ap, ◌∙◌, arith, eq_iff,
  Bool-cases, inl, inr,
}
use algo_manus.Prelude.Int.{ℤ, pos, pos_part, leb_ℤ}
use algo_manus.Prelude.Result.{Result, ok, err, raise_if, ◌>>=◌, ◌>>◌, ok-injective, value_error}
use algo_manus.Prelude.Floats.{Floats}
use algo_manus.Prelude.Json.{Codec}
use algo_manus.Paper.{PaperOrderStatus, PaperEvent}
use algo_manus.PaperLedger
use algo_manus.PaperLedger.{PaperLedger}
use algo_manus.PaperProjection.State.{find}
use algo_manus.PaperProjection.Dicts.{find-assign}
use algo_manus.PaperAudit.Scopes.{
  integrity_scope, event_type_scope, lifecycle_state_scope, instrument_scope, side_scope,
  time_window, matches_integrity_scope, matches_scope, matches_side_scope, matches_time_window,
}
use algo_manus.PaperAudit.Fields.{payload_read}
use algo_manus.PaperAudit.Timeline.{
  AuditRow, States, with_state, current_state, next_state, row_of, timeline,
}
use algo_manus.PaperAudit.Service.{Scopes, unfiltered, events_in, matches, rows}

-- A change of the state of one order does not show at another, and shows alike in two dicts.
with_state-other :
    (k j : String) (next : Option PaperOrderStatus) (s : States)
    → str_eq j k ≡ false
    → find k (with_state j next s) ≡ find k s
with_state-other k j none s differs = refl
with_state-other k j (some status) s differs = find-assign k j status s ∙ rw differs refl

with_state-alike :
    (k : String) (next : Option PaperOrderStatus) (s t : States)
    → find k s ≡ find k t
    → find k (with_state k next s) ≡ find k (with_state k next t)
with_state-alike k none s t alike = alike
with_state-alike k (some status) s t alike =
    ground (arith, find-assign k k status s, find-assign k k status t, eq_iff k k)

module _ {F T : Type 0} ⦃fl : Floats F⦄ (codec : Codec F T) (k : String) where
  abbrev is_of : PaperEvent T → Bool
  is_of event = str_eq event.order_id k

  abbrev shows : AuditRow F → Bool
  shows row = str_eq row.order_id k

  timeline-keep :
      (s t : States) (events : List (PaperEvent T))
      → find k s ≡ find k t
      → keep shows (timeline codec s events).0 ≡ (timeline codec t (keep is_of events)).0
  unfolding timeline row_of
  timeline-keep s t [] alike = refl
  timeline-keep s t (event ∷ events) alike = elim (Bool-cases (str_eq event.order_id k)) [
    | inl same ↦
        let id : event.order_id ≡ k = (eq_iff event.order_id k).0 same in
        let seen : find event.order_id s ≡ find event.order_id t =
          ap (λ j. find j s) id ∙ alike ∙ sym (ap (λ j. find j t) id) in
        let next = next_state codec (current_state event.order_id t) event in
        rw (keep, same, seen)
          (ap (λ rest. row_of event (payload_read codec event) next ∷ rest)
            (timeline-keep (with_state event.order_id next s) (with_state event.order_id next t)
              events
              (subst (λ j. find k (with_state j next s) ≡ find k (with_state j next t)) (sym id)
                (with_state-alike k next s t alike))))
    | inr differs ↦
        rw (keep, differs)
          (timeline-keep
            (with_state event.order_id (next_state codec (current_state event.order_id s) event) s)
            t events
            (with_state-other k event.order_id
                (next_state codec (current_state event.order_id s) event) s differs
              ∙ alike))
  ]

module _ {A : Type 0} where
  take-all : (n : ℕ) (xs : List A) → length xs ≤ n → take n xs ≡ xs
  take-all zero [] h = refl
  take-all zero (x ∷ xs) h = ground arith
  take-all (suc n) [] h = refl
  take-all (suc n) (x ∷ xs) h = ap (λ rest. x ∷ rest) (take-all n xs (omega (arith, h)))

  length-keep : (p : A → Bool) (xs : List A) → length (keep p xs) ≤ length xs
  length-keep p [] = omega arith
  length-keep p (x ∷ xs) = ground (arith, length-keep p xs)

  keep-all : (p : A → Bool) (xs : List A) → ((x : A) → p x ≡ true) → keep p xs ≡ xs
  keep-all p [] h = refl
  keep-all p (x ∷ xs) h = rw (keep, h x) (ap (λ rest. x ∷ rest) (keep-all p xs h))

-- The scopes of a query without filters, which every row matches.
abbrev every_scope : Scopes
every_scope = record {
  integrity_scope = "ALL";
  event_type_scope = "ALL";
  lifecycle_state_scope = "ALL";
  instrument_scope = "ALL";
  side_scope = "ALL";
  time_window = (none, none);
}

matches-every : {F : Type 0} (row : AuditRow F) → matches every_scope row ≡ true
unfolding matches matches_integrity_scope matches_scope matches_side_scope matches_time_window
matches-every row = refl

module _ {T : Type 0} where
  -- A limit that does not cut the ledger off.
  events_in-whole :
      (ledger : PaperLedger T) (limit : ℤ)
      → length ledger ≤ pos_part limit
      → leb_ℤ limit (pos 0) ≡ false
      → events_in ledger limit none ≡ ok ledger
  unfolding events_in PaperLedger.events
  events_in-whole ledger limit covered good = rw (good, take-all _ ledger covered) refl

  events_in-order :
      (ledger : PaperLedger T) (limit : ℤ) (order_id : String)
      → length ledger ≤ pos_part limit
      → is_empty (strip order_id) ≡ false
      → contains (strip order_id) (PaperLedger.order_ids ledger) ≡ true
      → events_in ledger limit (some order_id)
        ≡ ok (keep (λ (row : PaperEvent T). str_eq row.order_id (strip order_id)) ledger)
  unfolding events_in PaperLedger.events_for
  events_in-order ledger limit order_id covered named known =
      let few : length (keep (λ (row : PaperEvent T). str_eq row.order_id (strip order_id)) ledger)
          ≤ pos_part limit =
        omega (
          arith,
          covered,
          length-keep (λ (row : PaperEvent T). str_eq row.order_id (strip order_id)) ledger,
        ) in
      rw (named, known, take-all _ _ few) refl

module _ {F T : Type 0} ⦃fl : Floats F⦄ (upper : String → String) (codec : Codec F T) where
  -- Without filters every row is shown.
  pub rows-unfiltered :
      (ledger : PaperLedger T) (limit : ℤ) (order_id : Option String)
      → rows upper codec ledger (unfiltered limit order_id) ≡ (
          raise_if (leb_ℤ limit (pos 0)) (value_error "limit must be positive")
          >> (events_in ledger limit order_id >>= λ events. ok (timeline codec [] events).0))
  unfolding rows integrity_scope event_type_scope lifecycle_state_scope instrument_scope side_scope
      time_window
  rows-unfiltered ledger limit order_id = elim (Bool-cases (leb_ℤ limit (pos 0))) [
    | inl bad ↦ rw bad refl
    | inr good ↦ rw good (shown (events_in ledger limit order_id))
  ]
    where
      shown :
          (read : Result (List (PaperEvent T)))
          → (read >>= λ events. ok (keep (matches every_scope) (timeline codec [] events).0))
            ≡ (read >>= λ events. ok (timeline codec [] events).0)
      shown (err failure) = refl
      shown (ok events) = ap ok (keep-all (matches every_scope) _ matches-every)

  -- The rows of one order, asked for by its ID, are the rows of that order in the timeline of the
  -- whole ledger: the events of other orders do not change what is shown of it. The limit must not
  -- cut the ledger off, and the ID must be one that the ledger has.
  pub rows-Isolated :
      (ledger : PaperLedger T) (order_id : String) (limit : ℤ) {shown : List (AuditRow F)}
      → length ledger ≤ pos_part limit
      → is_empty (strip order_id) ≡ false
      → contains (strip order_id) (PaperLedger.order_ids ledger) ≡ true
      → rows upper codec ledger (unfiltered limit none) ≡ ok shown
      → rows upper codec ledger (unfiltered limit (some order_id))
        ≡ ok (keep (λ (row : AuditRow F). str_eq row.order_id (strip order_id)) shown)
  rows-Isolated ledger order_id limit {shown} covered named known listed =
      elim (Bool-cases (leb_ℤ limit (pos 0))) [
        | inl bad ↦ absurd (refused bad (sym (rows-unfiltered ledger limit none) ∙ listed))
        | inr good ↦
            rows-unfiltered ledger limit (some order_id)
            ∙ rw (good, events_in-order ledger limit order_id covered named known)
                (ap ok (
                  sym (timeline-keep codec (strip order_id) [] [] ledger refl)
                  ∙ ap (keep (shows codec (strip order_id))) (whole good)))
      ]
    where
      refused :
          leb_ℤ limit (pos 0) ≡ true
          → (raise_if (leb_ℤ limit (pos 0)) (value_error "limit must be positive")
              >> (events_in ledger limit none >>= λ events. ok (timeline codec [] events).0))
            ≡ ok shown
          → ⊥
      refused bad h = cc

      whole : leb_ℤ limit (pos 0) ≡ false → (timeline codec [] ledger).0 ≡ shown
      whole good = ok-injective (
          rw (good, events_in-whole ledger limit covered good) at
            (sym (rows-unfiltered ledger limit none) ∙ listed))
