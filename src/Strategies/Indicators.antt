-- ===== src/Strategies/Indicators.antt =====
-- The slices and indicators of src/algo_manus/strategies: moving averages, EMA and RSI.
use algo_manus.Prelude.{
  ℕ, Bool, true, false, zero, suc, ◌-◌, List, [], ◌∷◌, map, length, take, drop, not, ◌&&◌, ltb,
  if◌then◌else◌,
}
use algo_manus.Prelude.Int.{ℤ, pos, negsuc, ltb_ℤ, ◌+ℤ◌}
use algo_manus.Prelude.Result.{
  Result, ok, err, value_error, index_error, float_error, raise_if, ◌>>=◌, ◌>>◌,
}
use algo_manus.Prelude.Floats.{Floats, float, zero_f, max_f, ◌⊕◌, ◌⊖◌, ◌⊗◌, ◌⊘◌, ◌≺◌, ◌≼◌}
use algo_manus.Backtest.Engine.{SignalAction}

module _ {A : Type 0} where
  -- `len(xs)`
  abbrev pub size : List A → ℤ
  size xs = pos (length xs)

  -- `xs[:n]`
  abbrev pub head_slice : ℤ → List A → List A
  head_slice (pos n) xs = take n xs
  head_slice (negsuc n) xs = take (length xs - suc n) xs

  -- `xs[n:]`
  abbrev pub tail_slice : ℤ → List A → List A
  tail_slice (pos n) xs = drop n xs
  tail_slice (negsuc n) xs = drop (length xs - suc n) xs

  -- `xs[-n:]`
  abbrev pub last_slice : ℤ → List A → List A
  last_slice (pos zero) xs = xs
  last_slice (pos (suc n)) xs = drop (length xs - suc n) xs
  last_slice (negsuc n) xs = drop (suc n) xs

  -- `xs[:-1]`
  abbrev pub but_last : List A → List A
  but_last xs = take (length xs - 1) xs

  -- `xs[-(n + 1)]`
  abbrev nth_of : List A → Result A
  nth_of [] = err (index_error "list index out of range")
  nth_of (x ∷ xs) = ok x

  abbrev pub from_end : ℕ → List A → Result A
  from_end n xs =
      if ltb n (length xs)
      then nth_of (drop (length xs - suc n) xs)
      else err (index_error "list index out of range")

module _ {A : Type 0} where
  -- `not values`
  abbrev pub is_none_left : List A → Bool
  is_none_left [] = true
  is_none_left (x ∷ xs) = false

module _ {F : Type 0} ⦃fl : Floats F⦄ where
  -- `fmean(values)`, with its exceptions.
  unfoldable pub mean : List F → Result F
  mean values = do
    raise_if (is_none_left values) (value_error "fmean requires at least one data point")
    raise_if (not (fl.fmean_fits values)) (float_error "fmean")
    ok (fl.fmean values)

  -- `value ** exponent`, with its exception.
  unfoldable pub power : F → F → Result F
  power value exponent = do
    raise_if (not (fl.pow_fits value exponent)) (float_error "**")
    ok (fl.pow value exponent)

  -- `(value * alpha) + (result * (1.0 - alpha))`, for each value in turn.
  abbrev smoothed : F → F → List F → F
  smoothed alpha result [] = result
  smoothed alpha result (value ∷ values) =
      smoothed alpha (value ⊗ alpha ⊕ result ⊗ (float (pos 1) ⊖ alpha)) values

  -- `_ema`
  unfoldable pub ema : List F → ℤ → Result F
  ema values window = do
    raise_if (ltb_ℤ (size values) window) (value_error "EMA requires at least one complete window")
    first ← mean (head_slice window values)
    ok (smoothed (float (pos 2) ⊘ float (window +ℤ pos 1)) first (tail_slice window values))

  -- The results along the way.
  abbrev smoothed_series : F → F → List F → List F
  smoothed_series alpha result [] = result ∷ []
  smoothed_series alpha result (value ∷ values) =
      result ∷ smoothed_series alpha (value ⊗ alpha ⊕ result ⊗ (float (pos 1) ⊖ alpha)) values

  -- `_ema_series`
  unfoldable pub ema_series : List F → ℤ → Result (List F)
  ema_series values window =
      if ltb_ℤ (size values) window
      then ok []
      else (mean (head_slice window values) >>= λ first. ok (
          smoothed_series (float (pos 2) ⊘ float (window +ℤ pos 1)) first
            (tail_slice window values)))

  -- `[values[index] - values[index - 1] for index in range(1, len(values))]`
  abbrev pub changes : List F → List F
  changes [] = []
  changes (x ∷ []) = []
  changes (x ∷ y ∷ ys) = (y ⊖ x) ∷ changes (y ∷ ys)

  -- What `_rsi` returns from the two averages.
  abbrev relative_strength : F → F → F
  relative_strength average_gain average_loss =
      if fl.eq average_loss zero_f
      then if zero_f ≺ average_gain then float (pos 100) else float (pos 50)
      else float (pos 100) ⊖ (float (pos 100) ⊘ (float (pos 1) ⊕ (average_gain ⊘ average_loss)))

  -- `_rsi`
  unfoldable pub rsi : List F → ℤ → Result F
  rsi values window = do
    let moves = changes values
    raise_if (ltb_ℤ (size moves) window) (value_error "RSI requires at least one complete window")
    let recent = last_slice window moves
    average_gain ← mean (map (λ x. max_f x zero_f) recent)
    average_loss ← mean (map (λ x. max_f (fl.neg x) zero_f) recent)
    ok (relative_strength average_gain average_loss)

  -- The two tests of a crossover, of the prior values and the current ones.
  unfoldable pub crossover : F → F → F → F → SignalAction
  crossover prior_fast prior_slow current_fast current_slow =
      if (prior_fast ≼ prior_slow) && (current_slow ≺ current_fast)
      then SignalAction.enter_long
      else if (prior_slow ≼ prior_fast) && (current_fast ≺ current_slow)
      then SignalAction.exit_long
      else SignalAction.hold
