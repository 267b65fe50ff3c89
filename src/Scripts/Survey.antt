-- ===== src/Scripts/Survey.antt =====
-- main.py: the survey of the volumes on Kraken, and its look-up of a pair. What is printed is the ranked
-- rows and the counts at the floors.
use text.Mathlib.Text.{◌==◌ as str_eq}
use dropwatch.Base.{
  ℕ, Bool, false, ◌||◌, Option, none, some, List, [], ◌∷◌, map, String, any, filter, length, take,
  if◌then◌else◌, Result, ok, err, value_error, ◌>>=◌,
}
use dropwatch.Base.Sorting.{sorted}
use dropwatch.Decimal.{Decimal, of_ℕ, leb_dec, mul_dec}
use dropwatch.Kraken.Symbols.{PairInfo, AssetPairs}
use dropwatch.Kraken.Requests.{Ticker, Envelope, open_envelope}
use dropwatch.Kraken.Market.{is_usd, number_at}

abbrev pub is_called : String → String × PairInfo → Bool
is_called wsname (name, info) = spelled info.wsname || str_eq name wsname
  where
    spelled : Option String → Bool
    spelled none = false
    spelled (some ws) = str_eq ws wsname

-- The loop of `resolve_pair`: the first pair of that name.
unfoldable pub first_called : String → AssetPairs → Result String
first_called wsname [] = err value_error
first_called wsname (item ∷ rest) =
    let later = first_called wsname rest in if is_called wsname item then ok item.0 else later

unfoldable pub resolve_wsname : Result (Envelope AssetPairs) → (wsname : String) → Result String
unfolding open_envelope first_called
resolve_wsname answer wsname = open_envelope answer >>= first_called wsname

-- `usd_pairs`, the names.
unfoldable pub usd_names : Result (Envelope AssetPairs) → Result (List String)
unfolding open_envelope
usd_names answer = open_envelope answer >>= λ pairs.
    ok (map (λ item. item.0) (filter (λ item. is_usd item.1) pairs))

abbrev pub Row : Type 0
Row = String × Decimal

abbrev pub largest_first : Row → Row → Bool
largest_first a b = leb_dec b.1 a.1

abbrev pub floors : List ℕ
floors = 1000000 ∷ 500000 ∷ 100000 ∷ 50000 ∷ 10000 ∷ 1000 ∷ 100 ∷ []

-- `sum(1 for _, notional in rows if notional >= threshold)`
unfoldable pub count_at : (threshold : ℕ) → List Row → ℕ
count_at threshold rows = length (filter (λ row. leb_dec (of_ℕ threshold) row.1) rows)

pub record Survey : Type 0 where
  pub total : ℕ
  pub ranked : List Row
  pub counts : List (ℕ × ℕ)

module _ (parse_decimal : String → Result Decimal) where
  -- The comprehension: volume times average price of the pairs in dollars.
  unfoldable pub rows_of : (usd : List String) → Ticker → Result (List Row)
  rows_of usd [] = ok []
  rows_of usd ((pair, info) ∷ rest) =
      if any (λ name. str_eq name pair) usd
      then (number_at parse_decimal info.v 1 >>= λ volume.
          number_at parse_decimal info.p 1 >>= λ vwap.
          rows_of usd rest >>= λ rows. ok ((pair, mul_dec volume vwap) ∷ rows))
      else rows_of usd rest

  unfoldable pub survey_usd_volume :
      Result (Envelope AssetPairs) → Result (Envelope Ticker) → Result Survey
  unfolding usd_names rows_of count_at open_envelope
  survey_usd_volume pairs_answer ticker_answer = do
    usd ← usd_names pairs_answer
    result ← open_envelope ticker_answer
    rows ← rows_of usd result
    ok (record {
      total = length rows;
      ranked = take 50 (sorted largest_first rows);
      counts = map (λ floor. (floor, count_at floor (sorted largest_first rows))) floors;
    })
