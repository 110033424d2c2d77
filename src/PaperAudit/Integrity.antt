-- ===== src/PaperAudit/Integrity.antt =====
-- The counts of the integrity summary, and what the filters keep of the rows.
use algo_manus.Prelude.{
  ℕ, ◌+◌, String, Bool, true, false, Option, none, some, is_some, List, [], ◌∷◌, keep, length,
  str_eq, not, All, ◌≡◌, subst, refl, ap, arith, Bool-cases, inl, inr,
}
use algo_manus.Prelude.Int.{pos, leb_ℤ}
use algo_manus.Prelude.Result.{Result, ok, err, ok-injective, ◌>>=◌, ◌>>◌, raise_if}
use algo_manus.Prelude.Floats.{Floats}
use algo_manus.Prelude.Json.{Dict, Codec}
use algo_manus.Paper.{PaperOrderStatus, PaperEvent, status_value}
use algo_manus.PaperLedger.{PaperLedger}
use algo_manus.PaperAudit.Scopes.{
  integrity_scope, event_type_scope, lifecycle_state_scope, instrument_scope, side_scope,
  time_window,
}
use algo_manus.PaperAudit.Fields.{payload_read}
use algo_manus.PaperAudit.Timeline.{
  AuditRow, States, integrity_of, shown_state, with_state, current_state, next_state, row_of,
  timeline,
}
use algo_manus.PaperAudit.Service.{
  Query, events_in, rows, IntegritySummary, integrity_summary, integrity,
}

-- A row's integrity status is the one of its two flags.
module _ {F : Type 0} where
  abbrev pub IsLabelled : AuditRow F → Type 0
  IsLabelled row =
      row.integrity_status
      ≡ integrity_of row.payload_valid (not (str_eq row.lifecycle_state "UNPROJECTABLE"))

  -- Both the payload is malformed and the event is out of sequence.
  abbrev pub is_doubly_invalid : AuditRow F → Bool
  is_doubly_invalid row = str_eq row.integrity_status "MALFORMED_PAYLOAD_AND_INVALID_LIFECYCLE"

shown_state-some :
    (next : Option PaperOrderStatus)
    → is_some next ≡ not (str_eq (shown_state next) "UNPROJECTABLE")
unfolding shown_state status_value
shown_state-some none = refl
shown_state-some (some PaperOrderStatus.pending_risk) = refl
shown_state-some (some _) = refl

module _ {F T : Type 0} ⦃fl : Floats F⦄ where
  row_of-IsLabelled :
      (event : PaperEvent T) (read : Dict F × Bool) (next : Option PaperOrderStatus)
      → IsLabelled (row_of event read next)
  unfolding row_of
  row_of-IsLabelled event (payload, payload_valid) next =
      ap (integrity_of payload_valid) (shown_state-some next)

  timeline-IsLabelled :
      (codec : Codec F T) (states : States) (events : List (PaperEvent T))
      → All IsLabelled (timeline codec states events).0
  unfolding timeline
  timeline-IsLabelled codec states [] = tt
  timeline-IsLabelled codec states (event ∷ events) =
      let next = next_state codec (current_state event.order_id states) event in
      (
        row_of-IsLabelled event (payload_read codec event) next,
        timeline-IsLabelled codec (with_state event.order_id next states) events,
      )

module _ {A : Type 0} where
  keep-All : (P : A → Type 0) (p : A → Bool) (xs : List A) → All P xs → All P (keep p xs)
  keep-All P p [] a = tt
  keep-All P p (x ∷ xs) (a, rest) = elim (Bool-cases (p x)) [
    | inl e ↦ rw (keep, e) (a, keep-All P p xs rest)
    | inr e ↦ rw (keep, e) (keep-All P p xs rest)
  ]

-- What a call returns, if it returns, satisfies a predicate.
module _ {A : Type 0} where
  abbrev pub Returns : (A → Type 0) → Result A → Type 0
  Returns P (err failure) = Unit
  Returns P (ok value) = P value

  >>=-Returns :
      {B : Type 0} (P : A → Type 0) (first : Result B) (next : B → Result A)
      → ((value : B) → Returns P (next value))
      → Returns P (first >>= next)
  >>=-Returns P (err failure) next h = tt
  >>=-Returns P (ok value) next h = h value

  >>-Returns :
      (P : A → Type 0) (first : Result (Unit {0})) (next : Result A)
      → Returns P next
      → Returns P (first >> next)
  >>-Returns P (err failure) next h = tt
  >>-Returns P (ok _) next h = h

module _ {F T : Type 0} ⦃fl : Floats F⦄ (upper : String → String) (codec : Codec F T) where
  -- The rows of a query are rows of the timeline.
  rows-All :
      (P : AuditRow F → Type 0) (ledger : PaperLedger T) (q : Query)
      → ((events : List (PaperEvent T)) → All P (timeline codec [] events).0)
      → Returns (All P) (rows upper codec ledger q)
  unfolding rows
  rows-All P ledger q h = >>-Returns (All P) (raise_if (leb_ℤ q.limit (pos 0)) _) _ (
      >>=-Returns (All P) (integrity_scope upper q.integrity_filter) _ λ i.
        >>=-Returns (All P) (event_type_scope upper q.event_type_filter) _ λ e.
          >>=-Returns (All P) (lifecycle_state_scope upper q.lifecycle_state_filter) _ λ l.
            >>=-Returns (All P) (side_scope upper q.side_filter) _ λ s.
              >>=-Returns (All P) (time_window q.start_time q.end_time) _ λ w.
                >>=-Returns (All P) (events_in ledger q.limit q.order_id) _ λ events.
                  >>=-Returns (All P) (instrument_scope _ q.instrument_id_filter) _
                    λ n. keep-All P _ _ (h events))

abbrev bit : Bool → ℕ
bit true = 1
bit false = 0

length-keep_cons :
    {A : Type 0} (p : A → Bool) (x : A) (xs : List A)
    → length (keep p (x ∷ xs)) ≡ bit (p x) + length (keep p xs)
length-keep_cons p x xs = ground arith

-- One row is counted once, or twice where it is doubly invalid.
label-bits :
    (valid unprojectable : Bool) (status : String)
    → status ≡ integrity_of valid (not unprojectable)
    → 1 + bit (str_eq status "MALFORMED_PAYLOAD_AND_INVALID_LIFECYCLE")
      ≡ bit (str_eq status "VALID") + bit (not valid) + bit unprojectable
unfolding integrity_of
label-bits true true status label = rw label refl
label-bits true false status label = rw label refl
label-bits false true status label = rw label refl
label-bits false false status label = rw label refl

module _ {F : Type 0} where
  integrity_summary-Counted :
      (shown : List (AuditRow F))
      → All IsLabelled shown
      → (integrity_summary shown).total_events + length (keep is_doubly_invalid shown)
        ≡ (integrity_summary shown).valid_events
          + (integrity_summary shown).malformed_payload_events
          + (integrity_summary shown).invalid_lifecycle_events
  unfolding integrity_summary
  integrity_summary-Counted [] labelled = refl
  integrity_summary-Counted (row ∷ shown) (label, labelled) = omega (
    arith,
    integrity_summary-Counted shown labelled,
    label-bits row.payload_valid (str_eq row.lifecycle_state "UNPROJECTABLE") row.integrity_status
        label,
    length-keep_cons is_doubly_invalid row shown,
    length-keep_cons (λ (r : AuditRow F). str_eq r.integrity_status "VALID") row shown,
    length-keep_cons (λ (r : AuditRow F). not r.payload_valid) row shown,
    length-keep_cons (λ (r : AuditRow F). str_eq r.lifecycle_state "UNPROJECTABLE") row shown,
  )

module _ {F T : Type 0} ⦃fl : Floats F⦄ (upper : String → String) (codec : Codec F T) where
  -- Every row that a query shows is counted in the summary of that query as valid, malformed or
  -- out of sequence, and only the rows that are malformed and out of sequence are counted twice.
  pub integrity-Counted :
      (ledger : PaperLedger T) (q : Query) {shown : List (AuditRow F)} {summary : IntegritySummary}
      → rows upper codec ledger q ≡ ok shown
      → integrity upper codec ledger q ≡ ok summary
      → (summary.total_events ≡ length shown)
        × (summary.total_events + length (keep is_doubly_invalid shown)
            ≡ summary.valid_events + summary.malformed_payload_events
              + summary.invalid_lifecycle_events)
  unfolding integrity integrity_summary
  integrity-Counted ledger q {shown} {summary} listed summed =
      let made : integrity_summary shown ≡ summary = ok-injective (rw listed at summed) in
      let labelled : All IsLabelled shown =
        subst (Returns (All IsLabelled)) listed
          (rows-All upper codec IsLabelled ledger q (timeline-IsLabelled codec [])) in
      subst
        (λ (t : IntegritySummary).
          (t.total_events ≡ length shown)
          × (t.total_events + length (keep is_doubly_invalid shown)
              ≡ t.valid_events + t.malformed_payload_events + t.invalid_lifecycle_events))
        made (refl, integrity_summary-Counted shown labelled)
