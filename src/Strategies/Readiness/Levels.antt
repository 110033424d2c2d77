-- ===== src/Strategies/Readiness/Levels.antt =====
-- The decisions of the strategies on levels: the two on RSI, and the Bollinger breakout.
use algo_manus.Prelude.{
  ℕ, zero, suc, ◌-◌, ◌≤◌, true, List, [], ◌∷◌, length, ◌≡◌, refl, sym, ◌∙◌, ap, arith, Bool-cases,
  inl, inr,
}
use algo_manus.Prelude.Int.{pos, ltb_ℤ, ◌+ℤ◌}
use algo_manus.Prelude.Result.{ok, ok-injective, >>=-eq-ok}
use algo_manus.Prelude.Floats.{Floats, float, ◌⊖◌}
use algo_manus.Market.{Candle}
use algo_manus.Strategies.Schema.{Values}
use algo_manus.Strategies.Signals.Schemas.{float_at}
use algo_manus.Strategies.Signals.Averages.{closes}
use algo_manus.Strategies.Signals.Levels.{
  threshold_decision, level_decision, reversion_decision, squared_distances, bollinger_decision,
}
use algo_manus.Strategies.Indicators.{size, but_last, last_slice, mean, power, rsi}
use algo_manus.Strategies.Fields.{
  settles, >>=-settles, >>=-settles_with, length-map, length-drop, length-last_slice, mean-settles,
  power-settles, length-but_last, from_end-ok, rsi-settles,
}
use algo_manus.Strategies.Readiness.{short_or_long, mean_close-settles}

module _ {F : Type 0} ⦃fl : Floats F⦄ where
  squares-length :
      (center : F) (values : List F) {squares : List F}
      → squared_distances center values ≡ ok squares
      → length squares ≡ length values
  unfolding squared_distances
  squares-length center [] h = ap length (sym (ok-injective h))
  squares-length center (value ∷ values) h =
      let (first, _, more) = >>=-eq-ok (power (value ⊖ center) (float (pos 2))) _ h in
      let (rest, e, made) = >>=-eq-ok (squared_distances center values) _ more in
      ap length (sym (ok-injective made)) ∙ ap suc (squares-length center values e)

  -- Where the thresholds are there.
  pub threshold_decision-settles :
      (prices : List F) (window : ℕ) (values : Values F) {entry exit : F}
      → 1 ≤ window
      → float_at "entry_threshold" values ≡ ok entry
      → float_at "exit_threshold" values ≡ ok exit
      → settles (threshold_decision prices (pos window) values) ≡ true
  unfolding threshold_decision
  threshold_decision-settles prices window values positive has_entry has_exit =
      elim (Bool-cases (ltb_ℤ (size prices) (pos window +ℤ pos 2))) [
        | inl short ↦ rw (threshold_decision, short) refl
        | inr long ↦
            let enough = short_or_long prices window 2 long in
            let before = length-but_last prices in
            let p = rsi-settles (but_last prices) window positive (omega (arith, enough, before)) in
            let c = rsi-settles prices window positive (omega (arith, enough)) in
            rw (threshold_decision, long, has_entry, has_exit)
              (>>=-settles (rsi _ _) _ p λ _. >>=-settles (rsi _ _) _ c λ _. refl)
      ]

  level-settles :
      (values : Values F) (value : F) {low high : F}
      → float_at "oversold" values ≡ ok low
      → float_at "overbought" values ≡ ok high
      → settles (level_decision values value) ≡ true
  unfolding level_decision
  level-settles values value {low} {high} has_low has_high = elim (Bool-cases (fl.le value low)) [
    | inl under ↦ rw (level_decision, has_low, under) refl
    | inr over ↦ rw (level_decision, has_low, over, has_high) refl
  ]

  pub reversion_decision-settles :
      (prices : List F) (window : ℕ) (values : Values F) {low high : F}
      → 1 ≤ window
      → float_at "oversold" values ≡ ok low
      → float_at "overbought" values ≡ ok high
      → settles (reversion_decision prices (pos window) values) ≡ true
  unfolding reversion_decision
  reversion_decision-settles prices window values positive has_low has_high =
      elim (Bool-cases (ltb_ℤ (size prices) (pos window +ℤ pos 1))) [
        | inl short ↦ rw (reversion_decision, short) refl
        | inr long ↦
            let enough = short_or_long prices window 1 long in
            let c = rsi-settles prices window positive (omega (arith, enough)) in
            rw (reversion_decision, long)
              (>>=-settles (rsi prices (pos window)) _ c
                (λ value. level-settles values value has_low has_high))
      ]

  squared_distances-settles :
      (center : F) (values : List F) → settles (squared_distances center values) ≡ true
  unfolding squared_distances
  squared_distances-settles center [] = refl
  squared_distances-settles center (value ∷ values) =
      >>=-settles (power _ _) _ (power-settles _ _) λ _.
        >>=-settles (squared_distances center values) _ (squared_distances-settles center values)
          λ _. refl

  pub bollinger_decision-settles :
      (candles : List (Candle F)) (window : ℕ) (deviation : F)
      → 1 ≤ window
      → settles (bollinger_decision candles (pos window) deviation) ≡ true
  unfolding bollinger_decision
  bollinger_decision-settles candles (suc window) deviation positive =
      elim (Bool-cases (ltb_ℤ (size candles) (pos (suc window) +ℤ pos 1))) [
        | inl short ↦ rw (bollinger_decision, short) refl
        | inr long ↦
            let enough = short_or_long candles (suc window) 1 long in
            let c = from_end-ok 0 (closes (last_slice (pos (suc window)) candles)) (
              omega (
                arith,
                enough,
                length-map (λ (candle : Candle F). candle.close)
                    (last_slice (pos (suc window)) candles),
                length-drop (length candles - suc window) candles,
              )) in
            rw (bollinger_decision, long, c.1)
              (>>=-settles (mean _) _
                (mean_close-settles (suc window) candles positive (omega (arith, enough)))
                λ center.
                  >>=-settles_with (squared_distances center _) _
                    (squared_distances-settles center _)
                    λ squares made.
                      >>=-settles (mean squares) _
                        (mean-settles squares (
                          omega (
                            arith,
                            squares-length center _ made,
                            length-last_slice (suc window) candles positive (omega (arith, enough)),
                            length-map (λ (candle : Candle F). candle.close)
                                (last_slice (pos (suc window)) candles),
                          )))
                        λ _. refl)
      ]
  bollinger_decision-settles candles zero deviation positive = ground arith
