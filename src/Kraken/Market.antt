-- ===== src/Kraken/Market.antt =====
-- providers/kraken.py: the three methods of the provider.
use text.Mathlib.Text.{◌==◌ as str_eq}
use dropwatch.Base.{
  ℕ, zero, suc, Bool, false, ◌||◌, Option, none, some, List, [], ◌∷◌, String, filter, Result, ok,
  err, key_error, index_error, ◌>>=◌,
}
use dropwatch.Base.Dicts.{put_name, lookup_name}
use dropwatch.Decimal.{Decimal}
use dropwatch.Poller.{Quote}
use dropwatch.Discovery.{MarketSnapshot}
use dropwatch.Api.Pairs.{ResolvedPair}
use dropwatch.Kraken.Symbols.{
  PairInfo, AssetPairs, Casing, resolve_symbol, currencies_of, wsname_of,
}
use dropwatch.Kraken.Requests.{TickerInfo, Ticker, Provider, Network, get_ticker, get_asset_pairs}

abbrev pub item_at : ℕ → List String → Result String
item_at n [] = err index_error
item_at zero (s ∷ ss) = ok s
item_at (suc n) (s ∷ ss) = item_at n ss

-- `info.get("quote") in USD_QUOTE_CODES`
abbrev pub is_usd : PairInfo → Bool
is_usd info = elim info.quote [ none ↦ false | some code ↦ str_eq code "ZUSD" || str_eq code "USD" ]

abbrev pub usd_pairs : AssetPairs → AssetPairs
usd_pairs = filter (λ item. is_usd item.1)

-- A call that used the provider, and what is computed from its result.
abbrev pub after :
    {A B : Type 0}
    → Result A × Provider
    → (A → Provider → Result B × Provider)
    → Result B × Provider
after (ok a, p) f = f a p
after (err e, p) f = (err e, p)

-- `Decimal(s)` of a text, which may raise.
module _ (parse_decimal : String → Result Decimal) where
  -- `Decimal(info[key][n])`
  abbrev pub number_at : Option (List String) → ℕ → Result Decimal
  number_at none n = err key_error
  number_at (some values) n = item_at n values >>= parse_decimal

  unfoldable pub quote_of : (pair : String) → TickerInfo → Result Quote
  quote_of pair info = do
    last ← number_at info.c 0
    bid ← number_at info.b 0
    ask ← number_at info.a 0
    volume ← number_at info.v 1
    ok (record { canonical_name = pair; last = last; bid = bid; ask = ask; volume_24h = volume })

  unfoldable pub quotes_of : Ticker → List (String × Quote) → Result (List (String × Quote))
  unfolding quote_of put_name
  quotes_of [] quotes = ok quotes
  quotes_of ((pair, info) ∷ rest) quotes =
      quote_of pair info >>= λ quote. quotes_of rest (put_name pair quote quotes)

  unfoldable pub snapshot_item : (pair : String) → PairInfo → TickerInfo → Result MarketSnapshot
  unfolding currencies_of
  snapshot_item pair pair_info info = do
    (base, quote) ← currencies_of pair_info
    ws ← wsname_of pair_info
    last ← number_at info.c 0
    bid ← number_at info.b 0
    ask ← number_at info.a 0
    volume ← number_at info.v 1
    vwap ← number_at info.p 1
    ok (record {
      canonical_name = pair;
      display_name = ws;
      base_currency = base;
      quote_currency = quote;
      last = last;
      bid = bid;
      ask = ask;
      volume_24h = volume;
      vwap_24h = vwap;
    })

  -- The loop over the items of Ticker.
  unfoldable pub snapshot_of :
      (usd : AssetPairs)
      → Ticker
      → List (String × MarketSnapshot)
      → Result (List (String × MarketSnapshot))
  unfolding snapshot_item put_name lookup_name
  snapshot_of usd [] snapshot = ok snapshot
  snapshot_of usd ((pair, info) ∷ rest) snapshot = elim (lookup_name pair usd) [
    | none ↦ snapshot_of usd rest snapshot
    | some pair_info ↦ snapshot_item pair pair_info info >>= λ item.
        snapshot_of usd rest (put_name pair item snapshot)
  ]

  module _ (casing : Casing) (min_interval : ℕ) (network : Network) where
    unfoldable pub resolve_pair : (symbol : String) → Provider → Result ResolvedPair × Provider
    unfolding resolve_symbol get_asset_pairs
    resolve_pair symbol p =
        after (get_asset_pairs min_interval network p)
          λ pairs q. (resolve_symbol casing pairs symbol, q)

    unfoldable pub get_quotes :
        (canonical_names : List String) → Provider → Result (List (String × Quote)) × Provider
    unfolding quotes_of get_ticker
    get_quotes canonical_names p =
        after (get_ticker min_interval network (some canonical_names) p)
          λ result q. (quotes_of result [], q)

    unfoldable pub get_usd_market_snapshot :
        Provider → Result (List (String × MarketSnapshot)) × Provider
    unfolding snapshot_of get_asset_pairs get_ticker
    get_usd_market_snapshot p = after (get_asset_pairs min_interval network p) λ pairs q.
        after (get_ticker min_interval network none q)
          λ result r. (snapshot_of (usd_pairs pairs) result [], r)
