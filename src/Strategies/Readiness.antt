-- ===== src/Strategies/Readiness.antt =====
-- Where the windows are in order, the decisions of the strategies return, or raise an exception of
-- the float arithmetic: the histories that they test for are long enough for every indicator.
pub mod Levels
use algo_manus.Prelude.{
  ℕ, zero, suc, ◌+◌, ◌-◌, ◌≤◌, true, false, List, [], ◌∷◌, length, take, ◌≡◌, refl, sym, ◌∙◌, ap,
  arith, Bool-cases, inl, inr,
}
use algo_manus.Prelude.Int.{pos, ltb_ℤ, ◌+ℤ◌}
use algo_manus.Prelude.Result.{ok, ok-injective, >>=-eq-ok}
use algo_manus.Prelude.Floats.{Floats, float, ◌⊖◌}
use algo_manus.Market.{Candle}
use algo_manus.Strategies.Schema.{Values}
use algo_manus.Strategies.Signals.Schemas.{float_at}
use algo_manus.Strategies.Signals.Averages.{
  closes, sma_decision, ema_decision, macd_series, macd_cross, macd_decision, triple_decision,
}
use algo_manus.Strategies.Signals.Levels.{
  threshold_decision, level_decision, reversion_decision, squared_distances, bollinger_decision,
}
use algo_manus.Strategies.Indicators.{size, but_last, last_slice, mean, power, ema, rsi}
use algo_manus.Strategies.Fields.{
  settles, >>=-settles, >>=-settles_with, length-map, length-drop, length-last_slice, mean-settles,
  power-settles, length-take, length-but_last, from_end-ok, ema-settles, rsi-settles,
}

-- The test of the history that every decision starts with.
pub short_or_long :
    {A : Type 0} (xs : List A) (n k : ℕ)
    → ltb_ℤ (size xs) (pos n +ℤ pos k) ≡ false
    → n + k ≤ length xs
unfolding ◌+ℤ◌
short_or_long xs n k h = ground arith

enough_for_both :
    {A : Type 0} (xs : List A) (n m : ℕ)
    → ltb_ℤ (size xs) (pos n +ℤ pos m +ℤ pos 1) ≡ false
    → n ≤ length xs
unfolding ◌+ℤ◌
enough_for_both xs n m h = ground arith

module _ {F : Type 0} ⦃fl : Floats F⦄ where
  -- The mean of the last closing prices, where there are some.
  pub mean_close-settles :
      (window : ℕ) (candles : List (Candle F))
      → 1 ≤ window
      → 1 ≤ length candles
      → settles (mean (closes (last_slice (pos window) candles))) ≡ true
  mean_close-settles window candles positive some_candles =
      mean-settles (closes (last_slice (pos window) candles)) (
        omega (
          arith,
          length-last_slice window candles positive some_candles,
          length-map (λ (candle : Candle F). candle.close) (last_slice (pos window) candles),
        ))

  pub sma_decision-settles :
      (candles : List (Candle F)) (fast slow : ℕ)
      → 1 ≤ fast
      → 1 ≤ slow
      → settles (sma_decision candles (pos fast) (pos slow)) ≡ true
  unfolding sma_decision
  sma_decision-settles candles fast slow f s =
      elim (Bool-cases (ltb_ℤ (size candles) (pos slow +ℤ pos 1))) [
        | inl short ↦ rw (sma_decision, short) refl
        | inr long ↦
            let enough = short_or_long candles slow 1 long in
            let before : 1 ≤ length (but_last candles) =
              omega (arith, enough, length-but_last candles, s) in
            let now : 1 ≤ length candles = omega (arith, enough) in
            let previous = but_last candles in
            rw (sma_decision, long)
              (>>=-settles (mean _) _ (mean_close-settles fast previous f before) λ _.
                >>=-settles (mean _) _ (mean_close-settles slow previous s before) λ _.
                  >>=-settles (mean _) _ (mean_close-settles fast candles f now)
                    λ _. >>=-settles (mean _) _ (mean_close-settles slow candles s now) λ _. refl)
      ]

  pub ema_decision-settles :
      (values : List F) (fast slow : ℕ)
      → 1 ≤ fast
      → fast ≤ slow
      → settles (ema_decision values (pos fast) (pos slow)) ≡ true
  unfolding ema_decision
  ema_decision-settles values fast slow least order =
      elim (Bool-cases (ltb_ℤ (size values) (pos slow +ℤ pos 1))) [
        | inl short ↦ rw (ema_decision, short) refl
        | inr long ↦
            let enough = short_or_long values slow 1 long in
            let before = length-but_last values in
            let p0 =
              ema-settles (but_last values) fast least (omega (arith, enough, before, order)) in
            let p1 =
              ema-settles (but_last values) slow (omega (arith, least, order))
                (omega (arith, enough, before)) in
            let c0 = ema-settles values fast least (omega (arith, enough, order)) in
            let c1 =
              ema-settles values slow (omega (arith, least, order)) (omega (arith, enough)) in
            rw (ema_decision, long)
              (>>=-settles (ema _ _) _ p0 λ _.
                >>=-settles (ema _ _) _ p1
                  λ _. >>=-settles (ema _ _) _ c0 λ _. >>=-settles (ema _ _) _ c1 λ _. refl)
      ]

  pub triple_decision-settles :
      (values : List F) (fast middle slow : ℕ)
      → 1 ≤ fast
      → 1 ≤ middle
      → fast ≤ slow
      → middle ≤ slow
      → settles (triple_decision values (pos fast) (pos middle) (pos slow)) ≡ true
  unfolding triple_decision
  triple_decision-settles values fast middle slow least least_middle order among =
      elim (Bool-cases (ltb_ℤ (size values) (pos slow +ℤ pos 1))) [
        | inl short ↦ rw (triple_decision, short) refl
        | inr long ↦
            let enough = short_or_long values slow 1 long in
            let before = length-but_last values in
            let p0 =
              ema-settles (but_last values) fast least (omega (arith, enough, before, order)) in
            let p1 =
              ema-settles (but_last values) middle least_middle
                (omega (arith, enough, before, among)) in
            let p2 =
              ema-settles (but_last values) slow (omega (arith, least, order))
                (omega (arith, enough, before)) in
            let c0 = ema-settles values fast least (omega (arith, enough, order)) in
            let c1 = ema-settles values middle least_middle (omega (arith, enough, among)) in
            let c2 =
              ema-settles values slow (omega (arith, least, order)) (omega (arith, enough)) in
            rw (triple_decision, long)
              (>>=-settles (ema _ _) _ p0 λ _. >>=-settles (ema _ _) _ p1 λ _.
                >>=-settles (ema _ _) _ p2 λ _.
                  >>=-settles (ema _ _) _ c0
                    λ _. >>=-settles (ema _ _) _ c1 λ _. >>=-settles (ema _ _) _ c2 λ _. refl)
      ]

  -- Every value of the series is of two windows that the closing prices up to its index fill.
  macd_series-settles :
      (values : List F) (fast slow index count : ℕ)
      → 1 ≤ fast
      → fast ≤ slow
      → slow ≤ index
      → index + count ≤ length values + 1
      → settles (macd_series values (pos fast) (pos slow) index count) ≡ true
  unfolding macd_series
  macd_series-settles values fast slow index zero least order from to = refl
  macd_series-settles values fast slow index (suc count) least order from to =
      let cut = length-take index values (omega (arith, to)) in
      let f = ema-settles (take index values) fast least (omega (arith, cut, order, from)) in
      let s =
        ema-settles (take index values) slow (omega (arith, least, order))
          (omega (arith, cut, from)) in
      let rest =
        macd_series-settles values fast slow (suc index) count least order (omega (arith, from))
          (omega (arith, to)) in
      >>=-settles (ema (take index values) (pos fast)) _ f λ _.
        >>=-settles (ema (take index values) (pos slow)) _ s λ _.
          >>=-settles (macd_series values (pos fast) (pos slow) (suc index) count) _ rest λ _. refl

  macd_cross-settles :
      (series : List F) (window : ℕ) → 1 ≤ window → settles (macd_cross series (pos window)) ≡ true
  unfolding macd_cross
  macd_cross-settles series window positive =
      elim (Bool-cases (ltb_ℤ (size series) (pos window +ℤ pos 1))) [
        | inl short ↦ rw (macd_cross, short) refl
        | inr long ↦
            let enough = short_or_long series window 1 long in
            let before = length-but_last series in
            let p = ema-settles (but_last series) window positive (omega (arith, enough, before)) in
            let c = ema-settles series window positive (omega (arith, enough)) in
            let m1 = from_end-ok 1 series (omega (arith, enough, positive)) in
            let m0 = from_end-ok 0 series (omega (arith, enough)) in
            rw (macd_cross, long, m1.1, m0.1)
              (>>=-settles (ema _ _) _ p λ _. >>=-settles (ema _ _) _ c λ _. refl)
      ]

  pub macd_decision-settles :
      (values : List F) (fast slow window : ℕ)
      → 1 ≤ fast
      → fast ≤ slow
      → 1 ≤ window
      → settles (macd_decision values (pos fast) (pos slow) (pos window)) ≡ true
  unfolding macd_decision
  macd_decision-settles values fast slow window least order positive =
      elim (Bool-cases (ltb_ℤ (size values) (pos slow +ℤ pos window +ℤ pos 1))) [
        | inl short ↦ rw (macd_decision, short) refl
        | inr long ↦
            let enough : slow ≤ length values = enough_for_both values slow window long in
            rw (macd_decision, long)
              (>>=-settles
                (macd_series values (pos fast) (pos slow) slow (length values + 1 - slow)) _
                (macd_series-settles values fast slow slow (length values + 1 - slow) least order
                  (omega arith) (omega (arith, enough)))
                (λ series. macd_cross-settles series window positive))
      ]
