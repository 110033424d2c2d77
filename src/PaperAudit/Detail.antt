-- ===== src/PaperAudit/Detail.antt =====
-- What `row_detail` ends with.
use algo_manus.Prelude.{
  String, Bool, true, false, Option, none, some, is_some, List, [], ◌∷◌, map, take, str_eq, strip,
  is_empty, All, ◌≡◌, refl, sym, ap, ◌∙◌, arith, eq_iff, Bool-cases, Option-cases, inl, inr,
  if◌then◌else◌,
}
use text.Mathlib.TextPositions.{eq_refl}
use algo_manus.Prelude.Int.{ℤ, pos, pos_part, leb_ℤ}
use algo_manus.Prelude.Result.{Result, Failure, ok, err, key_error}
use algo_manus.Prelude.Floats.{Floats}
use algo_manus.Prelude.Json.{Codec}
use algo_manus.Paper.{PaperEvent}
use algo_manus.PaperLedger
use algo_manus.PaperLedger.{PaperLedger}
use algo_manus.PaperProjection.State.{find, assign}
use algo_manus.PaperProjection.Dicts.{find-assign}
use algo_manus.PaperAudit.Fields.{payload_read}
use algo_manus.PaperAudit.Timeline.{
  AuditRow, States, with_state, current_state, next_state, row_of, timeline,
}
use algo_manus.PaperAudit.Service.{
  RowDetail, unfiltered, events_in, by_event_id, detail_among, rows, row_detail,
}
use algo_manus.PaperAudit.Isolation.{rows-unfiltered}

-- The first and the last item of a list that pass a test.
module _ {A : Type 0} where
  abbrev pub first_with : (A → Bool) → List A → Option A
  first_with p [] = none
  first_with p (x ∷ xs) = if p x then some x else first_with p xs

  abbrev pub last_with : (A → Bool) → List A → Option A
  last_with p [] = none
  last_with p (x ∷ xs) = elim (last_with p xs) [
    | some y ↦ some y
    | none ↦ if p x then some x else none
  ]

abbrev pub is_row : {F : Type 0} → String → AuditRow F → Bool
is_row k row = str_eq row.event_id k

abbrev pub is_event : {T : Type 0} → String → PaperEvent T → Bool
is_event k event = str_eq event.event_id k

module _ {F : Type 0} where
  abbrev Has : List (String × AuditRow F) → String → Type 0
  Has known k = is_some (find k known) ≡ true

  assign-Has :
      (known : List (String × AuditRow F)) (k j : String) (row : AuditRow F)
      → Has known k
      → Has (assign j row known) k
  assign-Has known k j row h = elim (Bool-cases (str_eq j k)) [
    | inl same ↦ rw (find-assign k j row known, same) refl
    | inr other ↦ rw (find-assign k j row known, other) h
  ]

  assign-new :
      (known : List (String × AuditRow F)) (k : String) (row : AuditRow F)
      → Has (assign k row known) k
  assign-new known k row = rw (find-assign k k row known, eq_refl k) refl

  by_event_id-Has :
      (known : List (String × AuditRow F)) (shown : List (AuditRow F)) (k : String)
      → Has known k
      → Has (by_event_id known shown) k
  unfolding by_event_id
  by_event_id-Has known [] k h = h
  by_event_id-Has known (row ∷ shown) k h =
      by_event_id-Has (assign row.event_id row known) shown k
        (assign-Has known k row.event_id row h)

  -- The dict holds the last of the rows of an ID.
  find-by_event_id :
      (known : List (String × AuditRow F)) (shown : List (AuditRow F)) (k : String)
      → find k (by_event_id known shown)
        ≡ elim (last_with (is_row k) shown) [ some row ↦ some row | none ↦ find k known ]
  unfolding by_event_id
  find-by_event_id known [] k = refl
  find-by_event_id known (row ∷ shown) k =
      rw (find-by_event_id (assign row.event_id row known) shown k)
        (ground (arith, find-assign k row.event_id row known))

  last_with-holds :
      (p : AuditRow F → Bool) (shown : List (AuditRow F)) {row : AuditRow F}
      → last_with p shown ≡ some row
      → p row ≡ true
  last_with-holds p [] h = cc
  last_with-holds p (first ∷ shown) h = elim (Option-cases (last_with p shown)) [
    | inl e ↦ ground arith
    | inr (last, e) ↦ ground (arith, last_with-holds p shown e)
  ]

abbrev pub is_key_error : Failure → Bool
is_key_error (key_error _) = true
is_key_error _ = false

module _ {F T : Type 0} where
  -- What the loop of `row_detail` ends with: the row found for the first event of the ID, and the
  -- payload of that event; or an exception other than a KeyError.
  abbrev Among :
      List (String × AuditRow F) → String → List (PaperEvent T) → Result (RowDetail F T) → Type 0
  Among known k events (err failure) = is_key_error failure ≡ false
  Among known k events (ok d) =
      (event : PaperEvent T) × (first_with (is_event k) events ≡ some event)
      × (d.retained_payload ≡ event.payload)
      × (find k known ≡ some d.row)

  -- An event of another ID does not change what the loop ends with.
  Among-later :
      (known : List (String × AuditRow F)) (k : String) (event : PaperEvent T)
      (events : List (PaperEvent T)) (made : Result (RowDetail F T))
      → str_eq event.event_id k ≡ false
      → Among known k events made
      → Among known k (event ∷ events) made
  Among-later known k event events (err failure) other no_key = no_key
  Among-later known k event events (ok d) other (found, first, payload, row) =
      (found, rw other first, payload, row)

  -- Where every event has a row, the lookup of a row never fails.
  detail_among-Among :
      (known : List (String × AuditRow F)) (k : String) (events : List (PaperEvent T))
      → All (λ (event : PaperEvent T). Has known event.event_id) events
      → Among known k events (detail_among known k events)
  unfolding detail_among
  detail_among-Among known k [] a = refl
  detail_among-Among known k (event ∷ events) (a, rest) =
      elim (Bool-cases (str_eq event.event_id k)) [
        | inr other ↦
            rw (detail_among, other)
              (Among-later known k event events _ other (detail_among-Among known k events rest))
        | inl same ↦ elim (Option-cases (find event.event_id known)) [
          | inl e ↦ absurd (ground arith)
          | inr (row, e) ↦
              rw (same, e)
                (event, rw same refl, refl, ap (λ j. find j known) (sym ((eq_iff _ _).0 same)) ∙ e)
        ]
      ]

module _ {F T : Type 0} ⦃fl : Floats F⦄ (codec : Codec F T) where
  timeline-Has :
      (states : States) (known : List (String × AuditRow F)) (events : List (PaperEvent T))
      → All
          (λ (event : PaperEvent T).
            Has (by_event_id known (timeline codec states events).0) event.event_id)
          events
  unfolding timeline by_event_id row_of
  timeline-Has states known [] = tt
  timeline-Has states known (event ∷ events) =
      let next = next_state codec (current_state event.order_id states) event in
      let row = row_of event (payload_read codec event) next in
      let later = with_state event.order_id next states in
      (
        by_event_id-Has (assign event.event_id row known) (timeline codec later events).0
            event.event_id (assign-new known event.event_id row),
        timeline-Has later (assign event.event_id row known) events,
      )

  timeline-ids :
      (states : States) (events : List (PaperEvent T))
      → map (λ (row : AuditRow F). row.event_id) (timeline codec states events).0
        ≡ map (λ (event : PaperEvent T). event.event_id) events
  unfolding timeline row_of
  timeline-ids states [] = refl
  timeline-ids states (event ∷ events) =
      let next = next_state codec (current_state event.order_id states) event in
      ap (λ ids. event.event_id ∷ ids) (timeline-ids (with_state event.order_id next states) events)

module _ {F T : Type 0} ⦃fl : Floats F⦄ (upper : String → String) (codec : Codec F T)
    (ledger : PaperLedger T) (event_id : String) (limit : ℤ) where
  -- A detail of the event with this ID within the limit, in terms of the rows that `rows` shows.
  pub record IsDetail (d : RowDetail F T) : Type 0 where
    pub named : is_empty (strip event_id) ≡ false
    pub limited : leb_ℤ limit (pos 0) ≡ false
    pub event : PaperEvent T
    pub first : first_with (is_event (strip event_id)) (take (pos_part limit) ledger) ≡ some event
    pub payload : d.retained_payload ≡ event.payload
    pub shown : List (AuditRow F)
    pub listed : rows upper codec ledger (unfiltered limit none) ≡ ok shown
    pub each :
        map (λ (row : AuditRow F). row.event_id) shown
        ≡ map (λ (e : PaperEvent T). e.event_id) (take (pos_part limit) ledger)
    pub last : last_with (is_row (strip event_id)) shown ≡ some d.row
    pub same_id : str_eq d.row.event_id (strip event_id) ≡ true

  -- The call returns such a detail, or raises an exception that is no KeyError.
  abbrev pub Answers : Result (RowDetail F T) → Type 0
  Answers (err failure) = is_key_error failure ≡ false
  Answers (ok d) = IsDetail d

  Among-Answers :
      (made : Result (RowDetail F T))
      → is_empty (strip event_id) ≡ false
      → leb_ℤ limit (pos 0) ≡ false
      → Among
          (by_event_id [] (timeline codec [] (take (pos_part limit) ledger)).0)
          (strip event_id)
          (take (pos_part limit) ledger)
          made
      → Answers made
  unfolding events_in PaperLedger.events
  Among-Answers (err failure) named limited no_key = no_key
  Among-Answers (ok d) named limited (event, first, payload, found) =
      let events = take (pos_part limit) ledger in
      let shown = (timeline codec [] events).0 in
      let last : last_with (is_row (strip event_id)) shown ≡ some d.row =
        ground (arith, find-by_event_id [] shown (strip event_id)) in
      record {
        named = named;
        limited = limited;
        event = event;
        first = first;
        payload = payload;
        shown = shown;
        listed = rw (rows-unfiltered upper codec ledger limit none, limited) refl;
        each = timeline-ids codec [] events;
        last = last;
        same_id = last_with-holds (is_row (strip event_id)) shown last;
      }

  -- When `row_detail` returns a detail, the ID is not blank and the limit is positive; the detail
  -- has the payload of the first event of that ID within the limit, and the last row of that ID
  -- among the rows that `rows` shows without filters, which are one for each event, with the IDs of
  -- the events in their order. When it raises, it is not for a row that its dict does not have.
  pub row_detail-Answers : Answers (row_detail upper codec ledger event_id limit)
  unfolding row_detail events_in PaperLedger.events
  row_detail-Answers = elim (Bool-cases (is_empty (strip event_id))) [
    | inl blank ↦ rw blank refl
    | inr named ↦ elim (Bool-cases (leb_ℤ limit (pos 0))) [
      | inl bad ↦ rw (named, rows-unfiltered upper codec ledger limit none, bad) refl
      | inr good ↦
          let events = take (pos_part limit) ledger in
          rw (named, rows-unfiltered upper codec ledger limit none, good)
            (Among-Answers _ named good
              (detail_among-Among _ (strip event_id) events (timeline-Has codec [] [] events)))
    ]
  ]
