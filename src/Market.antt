-- ===== src/Market.antt =====
-- src/algo_manus/domain/market_data.py: candles, their provenance, and datasets of candles.
pub mod Ordering
use algo_manus.Prelude.{
  ℕ, suc, String, Bool, true, false, List, [], ◌∷◌, map, length, get_elem?, Option, none, some, not,
  ◌&&◌, ◌||◌, ◌==◌, ◌+++◌, leb, is_blank, if◌then◌else◌,
}
use algo_manus.Prelude.Result.{Result, ok, value_error, raise_if, ◌>>◌}
use algo_manus.Prelude.Floats.{Floats, zero_f, max_f, min_f, ◌≺◌, ◌≼◌}
use algo_manus.Prelude.Time.{Datetime}
use algo_manus.Prelude.Json.{Json, Codec, Dict, text, number, array, object, absent, put, empty}

pub data DataSourceKind : Type 0 where
  broker fixture public_fallback : DataSourceKind

pub data DataUseCase : Type 0 where
  research paper risk : DataUseCase

abbrev pub is_research : DataUseCase → Bool
is_research DataUseCase.research = true
is_research _ = false

pub record Candle (F : Type 0) : Type 0 where
  pub timestamp : Datetime
  pub open_price : F
  pub high : F
  pub low : F
  pub close : F
  pub volume : F

pub record DataProvenance : Type 0 where
  pub source_name : String
  pub source_kind : DataSourceKind
  pub source_uri : String
  pub retrieved_at : Datetime
  pub raw_content_sha256 : String
  pub adjustment_basis : String
  pub use_case : DataUseCase

pub record CandleDataset (F : Type 0) : Type 0 where
  pub dataset_id : String
  pub instrument_id : String
  pub interval : String
  pub provenance : DataProvenance
  pub candles : List (Candle F)

-- `len(text)`
abbrev text_length : String → ℕ
text_length String.[] = 0
text_length (String.◌∷◌ c s) = suc (text_length s)

-- The constructor of `DataProvenance` with its `__post_init__`.
unfoldable pub data_provenance : DataProvenance → Result DataProvenance
data_provenance p = do
  raise_if (is_blank p.source_name || is_blank p.source_uri)
      (value_error "source_name and source_uri are required")
  raise_if (not p.retrieved_at.aware) (value_error "retrieved_at must be timezone-aware")
  raise_if (not (text_length p.raw_content_sha256 == 64))
      (value_error "raw_content_sha256 must be a SHA-256 hex digest")
  raise_if (is_blank p.adjustment_basis) (value_error "adjustment_basis is required")
  ok p

-- `sorted(timestamps)`, on the instants of timestamps that are all aware.
abbrev pub place_time : ℕ → List ℕ → List ℕ
place_time t [] = t ∷ []
place_time t (u ∷ times) = if leb t u then t ∷ u ∷ times else u ∷ place_time t times

abbrev pub sorted_times : List ℕ → List ℕ
sorted_times [] = []
sorted_times (t ∷ times) = place_time t (sorted_times times)

-- `timestamps == others`
abbrev pub same_times : List ℕ → List ℕ → Bool
same_times [] [] = true
same_times (t ∷ times) (u ∷ others) = t == u && same_times times others
same_times _ _ = false

abbrev pub occurs : ℕ → List ℕ → Bool
occurs t [] = false
occurs t (u ∷ times) = t == u || occurs t times

-- `len(set(timestamps))`
abbrev pub set_size : List ℕ → ℕ
set_size [] = 0
set_size (t ∷ times) = if occurs t times then set_size times else suc (set_size times)

-- `timestamps != sorted(timestamps) or len(set(timestamps)) != len(timestamps)`
unfoldable pub misordered : List ℕ → Bool
misordered times =
    not (same_times times (sorted_times times)) || not (set_size times == length times)

abbrev pub is_nil {ℓ} : {A : Type ℓ} → List A → Bool
is_nil [] = true
is_nil (x ∷ xs) = false

module _ {F : Type 0} where
  abbrev pub instants : List (Candle F) → List ℕ
  instants = map (λ (c : Candle F). c.timestamp.instant)

  -- The constructor of `CandleDataset` with its `__post_init__`.
  unfoldable pub candle_dataset : CandleDataset F → Result (CandleDataset F)
  candle_dataset d = do
    raise_if (is_blank d.dataset_id || is_blank d.instrument_id || is_blank d.interval)
        (value_error "dataset_id, instrument_id and interval are required")
    raise_if (is_nil d.candles) (value_error "a candle dataset requires at least one candle")
    raise_if (misordered (instants d.candles))
        (value_error "candles must be strictly ordered with unique timestamps")
    ok d

module _ {F : Type 0} ⦃fl : Floats F⦄ where
  -- The constructor of `Candle` with its `__post_init__`.
  unfoldable pub candle : Candle F → Result (Candle F)
  candle c = do
    raise_if (not c.timestamp.aware) (value_error "candle timestamp must be timezone-aware")
    raise_if (min_f (min_f (min_f c.open_price c.high) c.low) c.close ≼ zero_f)
        (value_error "OHLC values must be positive")
    raise_if (c.high ≺ max_f (max_f c.open_price c.low) c.close)
        (value_error "high must be at least open, low and close")
    raise_if (min_f (min_f c.open_price c.high) c.close ≺ c.low)
        (value_error "low must be at most open, high and close")
    raise_if (c.volume ≺ zero_f) (value_error "volume cannot be negative")
    ok c

module _ {F T : Type 0} (codec : Codec F T) where
  -- The entry of a candle in the canonical form of a dataset.
  abbrev canonical_candle : Candle F → Json F
  canonical_candle c = object (
      put "timestamp" (text (codec.isoformat c.timestamp)) (
        put "open" (number c.open_price) (
          put "high" (number c.high) (
            put "low" (number c.low)
              (put "close" (number c.close) (put "volume" (number c.volume) empty))))))

  abbrev canonical_at : List (Candle F) → ℕ → Json F
  canonical_at candles i = elim (get_elem? candles i) [
    | none ↦ absent
    | some c ↦ canonical_candle c
  ]

  -- `CandleDataset.create`; the identity is made of the canonical form.
  unfoldable pub create_dataset :
      String → String → DataProvenance → List (Candle F) → Result (CandleDataset F)
  unfolding candle_dataset
  create_dataset instrument_id interval provenance candles =
      let canonical = codec.dumps (
        object (
          put "instrument_id" (text instrument_id) (
            put "interval" (text interval) (
              put "provenance_hash" (text provenance.raw_content_sha256)
                (put "candles" (array (length candles) (canonical_at candles)) empty))))) in
      candle_dataset (record {
        dataset_id = "DATA-" +++ codec.digest canonical;
        instrument_id = instrument_id;
        interval = interval;
        provenance = provenance;
        candles = candles;
      })
