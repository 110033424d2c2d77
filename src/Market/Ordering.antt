-- ===== src/Market/Ordering.antt =====
-- The test of `CandleDataset.__post_init__` on the order of its candles.
use algo_manus.Prelude.{
  ℕ, suc, true, false, List, [], ◌∷◌, length, ◌≡◌, refl, sym, ap, ◌∙◌, ◌↔◌, ◌≤◌, ◌<◌, arith, subst,
  is_blank,
}
use algo_manus.Prelude.Result.{ok}
use algo_manus.Market.{
  CandleDataset, place_time, sorted_times, same_times, occurs, set_size, misordered, instants,
  candle_dataset, is_nil,
}

-- Each time is later than the one before it.
abbrev pub IsIncreasing : List ℕ → Type 0
IsIncreasing [] = Unit
IsIncreasing (t ∷ []) = Unit
IsIncreasing (t ∷ u ∷ times) = (t < u) × IsIncreasing (u ∷ times)

abbrev IsSorted : List ℕ → Type 0
IsSorted [] = Unit
IsSorted (t ∷ []) = Unit
IsSorted (t ∷ u ∷ times) = (t ≤ u) × IsSorted (u ∷ times)

place_time-IsSorted : (t : ℕ) (times : List ℕ) → IsSorted times → IsSorted (place_time t times)
place_time-IsSorted t [] v = tt
place_time-IsSorted t (u ∷ []) v = ground arith
place_time-IsSorted t (u ∷ w ∷ times) v = ground (arith, place_time-IsSorted t (w ∷ times) v.1)

sorted_times-IsSorted : (times : List ℕ) → IsSorted (sorted_times times)
sorted_times-IsSorted [] = tt
sorted_times-IsSorted (t ∷ times) =
    place_time-IsSorted t (sorted_times times) (sorted_times-IsSorted times)

same_times_iff : (times others : List ℕ) → (same_times times others ≡ true) → times ≡ others
same_times_iff [] [] h = refl
same_times_iff (t ∷ times) (u ∷ others) h = ground (arith, same_times_iff times others)
same_times_iff [] (u ∷ others) h = cc
same_times_iff (t ∷ times) [] h = cc

same_times-same : (times : List ℕ) → same_times times times ≡ true
same_times-same [] = refl
same_times-same (t ∷ times) = ground (arith, same_times-same times)

set_size-length : (times : List ℕ) → set_size times ≤ length times
set_size-length [] = omega arith
set_size-length (t ∷ times) = ground (arith, set_size-length times)

-- Sorted times that are all different are increasing.
unique-IsIncreasing :
    (times : List ℕ) → IsSorted times → set_size times ≡ length times → IsIncreasing times
unique-IsIncreasing [] v h = tt
unique-IsIncreasing (t ∷ []) v h = tt
unique-IsIncreasing (t ∷ u ∷ times) v h = (
  ground (arith, set_size-length (u ∷ times)),
  unique-IsIncreasing (u ∷ times) v.1 (ground (arith, set_size-length (u ∷ times))),
)

later_lem :
    (s t : ℕ) (times : List ℕ) → s < t → IsIncreasing (t ∷ times) → occurs s (t ∷ times) ≡ false
later_lem s t [] h v = ground arith
later_lem s t (u ∷ times) h v = ground (arith, later_lem s u times (omega (arith, v.0)) v.1)

increasing-set_size : (times : List ℕ) → IsIncreasing times → set_size times ≡ length times
increasing-set_size [] v = refl
increasing-set_size (t ∷ []) v = refl
increasing-set_size (t ∷ u ∷ times) v =
    rw (later_lem t u times v.0 v.1) (ap suc (increasing-set_size (u ∷ times) v.1))

increasing-sorted : (times : List ℕ) → IsIncreasing times → sorted_times times ≡ times
increasing-sorted [] v = refl
increasing-sorted (t ∷ []) v = refl
increasing-sorted (t ∷ u ∷ times) v =
    ap (place_time t) (increasing-sorted (u ∷ times) v.1) ∙ ground (arith, v.0)

misordered_iff : (times : List ℕ) → (misordered times ≡ false) ↔ IsIncreasing times
unfolding misordered
misordered_iff times = (
  λ h.
      unique-IsIncreasing times
        (subst IsSorted (sym (same_times_iff times (sorted_times times) (ground arith)))
          (sorted_times-IsSorted times))
        (ground arith),
  λ v.
      rw (increasing-sorted times v, same_times-same times, increasing-set_size times v)
        (ground arith),
)

module _ {F : Type 0} where
  -- What a dataset promises.
  pub record IsPinned (d : CandleDataset F) : Type 0 where
    pub dataset_id : is_blank d.dataset_id ≡ false
    pub instrument_id : is_blank d.instrument_id ≡ false
    pub interval : is_blank d.interval ≡ false
    pub some_candle : is_nil d.candles ≡ false
    pub increasing : IsIncreasing (instants d.candles)

  -- The constructor of a dataset accepts exactly the datasets whose three identifiers are not
  -- blank, which have a candle, and each of whose candles is later than the one before; and it
  -- returns the dataset as it is.
  pub candle_dataset_iff :
      (d d' : CandleDataset F) → (candle_dataset d ≡ ok d') ↔ (IsPinned d × (d ≡ d'))
  unfolding candle_dataset
  candle_dataset_iff d d' = (
    λ h. (
      record {
        dataset_id = ground arith;
        instrument_id = ground arith;
        interval = ground arith;
        some_candle = ground arith;
        increasing = (misordered_iff (instants d.candles)).0 (ground arith);
      },
      ground arith,
    ),
    λ (v, e).
        rw
          (
            v.dataset_id,
            v.instrument_id,
            v.interval,
            v.some_candle,
            (misordered_iff (instants d.candles)).1 v.increasing,
          )
          (ap ok e),
  )
