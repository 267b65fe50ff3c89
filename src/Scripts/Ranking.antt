-- ===== src/Scripts/Ranking.antt =====
-- main.py: the ranking of `survey_usd_volume` and its counts, against the market.
use text.Mathlib.Text.{◌==◌ as str_eq}
use mathlib.Core.List.{Perm}
use dropwatch.Base.{
  ℕ, ◌≤◌, Bool, true, false, ◌&&◌, List, [], ◌∷◌, map, String, any, filter, filter-none, length,
  length-filter-le, take, All, All-map, Bool-cases, inl, inr, Result, ok, ◌>>=◌, >>=-eq-ok,
  ok-injective, ◌≡◌, refl, sym, ◌∙◌, ap,
}
use dropwatch.Base.Sorting.{sorted, IsSorted, sorted-IsSorted, sorted-perm, length-sorted}
use dropwatch.Decimal.{Decimal, of_ℕ, leb_dec, mul_dec}
use dropwatch.Decimal.Order.{leb_dec_trans, leb_dec_of_not_leb_dec}
use dropwatch.Kraken.Symbols.{AssetPairs}
use dropwatch.Kraken.Requests.{TickerInfo, Ticker, Envelope, open_envelope}
use dropwatch.Kraken.Market.{is_usd, number_at}
use dropwatch.Scripts.Survey.{
  Row, Survey, usd_names, rows_of, largest_first, floors, count_at, survey_usd_volume,
}

abbrev reaches : ℕ → Row → Bool
reaches floor row = leb_dec (of_ℕ floor) row.1

smaller-fails :
    (floor : ℕ) (row other : Row)
    → reaches floor row ≡ false
    → leb_dec other.1 row.1 ≡ true
    → reaches floor other ≡ false
smaller-fails floor row other fails below = elim (Bool-cases (reaches floor other)) [
  | inr also ↦ also
  | inl reached ↦ absurd (cc (sym (leb_dec_trans (of_ℕ floor) other.1 row.1 reached below) ∙ fails))
]

-- Of ranked rows, those that reach a floor are the first ones.
filter-take :
    (floor : ℕ) (rows : List Row)
    → IsSorted largest_first rows
    → filter (reaches floor) rows ≡ take (count_at floor rows) rows
unfolding count_at
filter-take floor [] h = refl
filter-take floor (row ∷ rows) h = elim (Bool-cases (reaches floor row)) [
  | inl reached ↦ rw (count_at, reached) (ap (λ l. row ∷ l) (filter-take floor rows h.1))
  | inr fails ↦
      let none_left : filter (reaches floor) rows ≡ [] =
        filter-none (reaches floor) rows
          (All-map (λ other below. smaller-fails floor row other fails below) rows h.0) in
      rw (count_at, fails, none_left) refl
]

-- The ranking by volume is sorted.
ranked-IsSorted : (rows : List Row) → IsSorted largest_first (sorted largest_first rows)
ranked-IsSorted =
    sorted-IsSorted largest_first (λ x y. leb_dec_of_not_leb_dec y.1 x.1)
      (λ x y z h k. leb_dec_trans z.1 y.1 x.1 k h)

-- A count at a floor: it is of that many rows, the first ones, which are exactly those that reach it.
abbrev pub IsCount : List Row → ℕ × ℕ → Type 0
IsCount rows (floor, count) =
    (count ≤ length rows) × (filter (λ row. leb_dec (of_ℕ floor) row.1) rows ≡ take count rows)

counted :
    (rows : List Row) (fs : List ℕ)
    → IsSorted largest_first rows
    → All (IsCount rows) (map (λ floor. (floor, count_at floor rows)) fs)
unfolding count_at
counted rows [] h = tt
counted rows (floor ∷ fs) h =
    ((length-filter-le (reaches floor) rows, filter-take floor rows h), counted rows fs h)

map-counted :
    (rows : List Row) (fs : List ℕ)
    → map (λ (c : ℕ × ℕ). c.0) (map (λ floor. (floor, count_at floor rows)) fs) ≡ fs
map-counted rows [] = refl
map-counted rows (floor ∷ fs) = λ i. floor ∷ map-counted rows fs i

-- The ticker's item is of a pair in dollars.
abbrev pub in_dollars : AssetPairs → String × TickerInfo → Bool
in_dollars pairs item = any (λ pair. is_usd pair.1 && str_eq pair.0 item.0) pairs

-- The row of a market: its volume times its average price.
abbrev pub row_of : (parse_decimal : String → Result Decimal) → String × TickerInfo → Result Row
row_of parse_decimal (name, info) = number_at parse_decimal info.v 1 >>= λ volume.
    number_at parse_decimal info.p 1 >>= λ vwap. ok (name, mul_dec volume vwap)

named-any :
    (pairs : AssetPairs) (item : String × TickerInfo)
    → any (λ name. str_eq name item.0) (map (λ pair. pair.0) (filter (λ pair. is_usd pair.1) pairs))
      ≡ in_dollars pairs item
named-any [] item = refl
named-any (pair ∷ pairs) item = elim (Bool-cases (is_usd pair.1)) [
  | inl usd ↦ rw (usd, named-any pairs item) refl
  | inr other ↦ rw (other, named-any pairs item) refl
]

module _ (parse_decimal : String → Result Decimal) (pairs : AssetPairs) where
  usd_in : List String
  usd_in = map (λ pair. pair.0) (filter (λ pair. is_usd pair.1) pairs)

  -- The rows of a market whose numbers can be read.
  rows_of-market :
      (ticker : Ticker) (rows : List Row)
      → map (row_of parse_decimal) (filter (in_dollars pairs) ticker) ≡ map ok rows
      → rows_of parse_decimal usd_in ticker ≡ ok rows
  unfolding rows_of usd_in
  rows_of-market [] [] h = refl
  rows_of-market [] (row ∷ rows) h = absurd (cc h)
  rows_of-market (item ∷ ticker) rows h = elim (Bool-cases (in_dollars pairs item)) [
    | inr other ↦
        rw (rows_of, named-any pairs item, other) (rows_of-market ticker rows (rw other at h))
    | inl usd ↦
        rw (rows_of, named-any pairs item, usd) (first (rows_of-market ticker) rows (rw usd at h))
  ]
    where
      first :
          ((rest : List Row)
            → map (row_of parse_decimal) (filter (in_dollars pairs) ticker) ≡ map ok rest
            → rows_of parse_decimal usd_in ticker ≡ ok rest)
          → (rows : List Row)
          → row_of parse_decimal item
              ∷ map (row_of parse_decimal) (filter (in_dollars pairs) ticker)
            ≡ map ok rows
          → (number_at parse_decimal item.1.v 1 >>= λ volume.
              number_at parse_decimal item.1.p 1 >>= λ vwap.
              rows_of parse_decimal usd_in ticker >>= λ rest.
              ok ((item.0, mul_dec volume vwap) ∷ rest))
            ≡ ok rows
      first further [] h = absurd (cc h)
      first further (row ∷ rows) h =
          let one : row_of parse_decimal item ≡ ok row = cc h in
          let others : map (row_of parse_decimal) (filter (in_dollars pairs) ticker) ≡ map ok rows =
            cc h in
          let (volume, e, h1) = >>=-eq-ok (number_at parse_decimal item.1.v 1) _ one in
          let (vwap, f, h2) = >>=-eq-ok (number_at parse_decimal item.1.p 1) _ h1 in
          rw (e, f, further rows others) (λ i. ok (ok-injective h2 i ∷ rows))

-- What the survey prints of the ranking `rows`: their number, the first fifty, and for each floor, in
-- the order of the floors, how many of the first rows are those that reach it.
abbrev pub Describes : Survey → List Row → Type 0
Describes s rows =
    (s.total ≡ length rows)
    × (s.ranked ≡ take 50 rows)
    × (map (λ (c : ℕ × ℕ). c.0) s.counts ≡ floors)
    × All (IsCount rows) s.counts

-- Where both answers are without errors and the volume and the average price of every market in dollars
-- can be read, the survey returns, and describes the ranking of those markets from the largest volume
-- in dollars to the smallest: its total is their number, it lists the first fifty, and the count at
-- each of the floors is the number of first rows that are exactly the rows at or above the floor.
pub survey_usd_volume-Describes :
    (parse_decimal : String → Result Decimal) (pairs_answer : Result (Envelope AssetPairs))
    (ticker_answer : Result (Envelope Ticker)) (pairs : AssetPairs) (ticker : Ticker)
    (rows : List Row)
    → open_envelope pairs_answer ≡ ok pairs
    → open_envelope ticker_answer ≡ ok ticker
    → map (row_of parse_decimal) (filter (in_dollars pairs) ticker) ≡ map ok rows
    → (s : Survey) × (ranking : List Row) × (survey_usd_volume parse_decimal pairs_answer
          ticker_answer
        ≡ ok s)
      × Perm ranking rows
      × IsSorted largest_first ranking
      × Describes s ranking
unfolding survey_usd_volume usd_names usd_in
survey_usd_volume-Describes parse_decimal pairs_answer ticker_answer pairs ticker rows listed priced
      market =
    let ranking = sorted largest_first rows in
    (
      record {
        total = length rows;
        ranked = take 50 ranking;
        counts = map (λ floor. (floor, count_at floor ranking)) floors;
      },
      ranking,
      rw (listed, priced, rows_of-market parse_decimal pairs ticker rows market) refl,
      sorted-perm largest_first rows,
      ranked-IsSorted rows,
      (
        sym (length-sorted largest_first rows),
        refl,
        map-counted ranking floors,
        counted ranking floors (ranked-IsSorted rows),
      ),
    )
