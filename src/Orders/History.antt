-- ===== src/Orders/History.antt =====
-- Every order that a sequence of transitions and fills reaches from another.
use algo_manus.Prelude.{◌≡◌, ◌≤◌, arith, refl, subst, sym, ap, ◌∙◌, List, [], ◌∷◌, true, ◌⊎◌}
use algo_manus.Prelude.Result.{ok}
use algo_manus.Prelude.Int.{ℤ, pos, ◌+ℤ◌, ◌≤ℤ◌, int_laws}
use algo_manus.Prelude.Floats.{Floats}
use algo_manus.Prelude.Time.{Datetime}
use algo_manus.Orders.{
  OrderStatus, ExecutionOrder, Fill, is_allowed, new_fill, transition, record_fill,
}
use algo_manus.Orders.Validity.{IsValid}
use algo_manus.Orders.Lifecycle.{transition-Moved}
use algo_manus.Orders.Fills.{record_fill_iff, IsOpen}

module _ {F : Type 0} ⦃fl : Floats F⦄ where
  -- The orders that transitions and constructed fills reach from `o`, latest fill first.
  pub data History (o : ExecutionOrder F) : List (Fill F) → ExecutionOrder F → Type 0 where
    start : History o [] o
    move :
        {fills : List (Fill F)} {p q : ExecutionOrder F} (s : OrderStatus) (at : Datetime)
        → History o fills p
        → transition p s at ≡ ok q
        → History o fills q
    take :
        {fills : List (Fill F)} {p q : ExecutionOrder F} (f : Fill F)
        → History o fills p
        → new_fill f ≡ ok f
        → record_fill p f ≡ ok q
        → History o (f ∷ fills) q

module _ {F : Type 0} where
  abbrev pub total : List (Fill F) → ℤ
  total [] = pos 0
  total (f ∷ fills) = f.quantity +ℤ total fills

  -- What a history keeps of the order that it began with.
  pub record Kept (o : ExecutionOrder F) (fills : List (Fill F)) (p : ExecutionOrder F)
      : Type 0 where
    pub valid : IsValid p
    pub same_intent : p.intent ≡ o.intent
    pub filled : p.filled_quantity ≡ o.filled_quantity +ℤ total fills
    pub grows : o.filled_quantity ≤ℤ p.filled_quantity
    pub later : o.updated_at.instant ≤ p.updated_at.instant

terminal_closed :
    (s t : OrderStatus)
    → (s ≡ OrderStatus.risk_rejected) ⊎ (s ≡ OrderStatus.reconciled)
    → is_allowed s t ≡ true
    → ⊥
unfolding is_allowed
terminal_closed s t h a = ground arith

terminal_not_open :
    (s : OrderStatus)
    → (s ≡ OrderStatus.risk_rejected) ⊎ (s ≡ OrderStatus.reconciled)
    → IsOpen s
    → ⊥
terminal_not_open _ h IsOpen.submitted = ground arith
terminal_not_open _ h IsOpen.acknowledged = ground arith
terminal_not_open _ h IsOpen.partially_filled = ground arith

module _ {F : Type 0} ⦃fl : Floats F⦄ where
  fill_facts :
      (f : Fill F) → new_fill f ≡ ok f → (f.occurred_at.aware ≡ true) × (¬ (f.quantity ≤ℤ pos 0))
  unfolding new_fill
  fill_facts f h = (ground arith, λ n. ground arith)

  -- After any transitions and fills a valid order is valid, has its intent, has filled exactly the
  -- sum of the recorded fills more than at the start, and has not gone back in time.
  pub History-Kept :
      {o p : ExecutionOrder F} {fills : List (Fill F)}
      → IsValid o
      → History o fills p
      → Kept o fills p
  History-Kept v History.start = record {
    valid = v;
    same_intent = refl;
    filled = omega int_laws;
    grows = omega arith;
    later = omega arith;
  }
  History-Kept v (History.move {p = p} s at h e) =
      let k = History-Kept v h in
      let m = transition-Moved p s at e in
      record {
        valid = m.valid;
        same_intent = m.same_intent ∙ k.same_intent;
        filled = m.same_fills ∙ k.filled;
        grows = rw m.same_fills k.grows;
        later = omega (arith, k.later, m.later);
      }
  History-Kept {o} v (History.take {fills = fills} {p = p} {q = q} f h c e) =
      let k = History-Kept v h in
      let facts = fill_facts f c in
      let (fits, same, valid) = (record_fill_iff p f q k.valid facts.0 facts.1).0 e in
      let total_q : q.filled_quantity ≡ p.filled_quantity +ℤ f.quantity =
        sym (ap (λ (x : ExecutionOrder F). x.filled_quantity) same) in
      record {
        valid = valid;
        same_intent = sym (ap (λ (x : ExecutionOrder F). x.intent) same) ∙ k.same_intent;
        filled = rw (total_q, k.filled) (omega int_laws);
        grows = rw total_q (omega (int_laws, k.grows, facts.1));
        later =
            subst (λ (x : ExecutionOrder F). o.updated_at.instant ≤ x.updated_at.instant) same
              (omega (arith, k.later, fits.not_earlier));
      }

  -- No history leaves a risk-rejected or a reconciled order: the order it reaches is that order,
  -- and it holds no fill.
  pub terminal_stays :
      {o p : ExecutionOrder F} {fills : List (Fill F)}
      → IsValid o
      → (o.status ≡ OrderStatus.risk_rejected) ⊎ (o.status ≡ OrderStatus.reconciled)
      → History o fills p
      → (p ≡ o) × (fills ≡ [])
  terminal_stays v t History.start = (refl, refl)
  terminal_stays {o} v t (History.move {p = p} s at h e) =
      let (same, _) = terminal_stays v t h in
      let m = transition-Moved p s at e in
      absurd (
        terminal_closed o.status s t
          (subst (λ (x : ExecutionOrder F). is_allowed x.status s ≡ true) same m.allowed))
  terminal_stays {o} v t (History.take {p = p} {q = q} f h c e) =
      let (same, _) = terminal_stays v t h in
      let facts = fill_facts f c in
      let valid = subst IsValid (sym same) v in
      let (fits, _, _) = (record_fill_iff p f q valid facts.0 facts.1).0 e in
      absurd (
        terminal_not_open o.status t
          (subst (λ (x : ExecutionOrder F). IsOpen x.status) same fits.fillable))
