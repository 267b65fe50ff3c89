-- ===== src/Examples/Provider.antt =====
-- The provider on three asset pairs, as in tests/test_kraken_provider.py.
use text.Mathlib.Text.{◌==◌ as str_eq}
use mathlib.Core.List.{Mem, Perm}
use mathlib.Core.List.Perm
use dropwatch.Base.{
  ℕ, ◌*◌, Option, none, some, List, [], ◌∷◌, map, filter, String, if◌then◌else◌, Result, ok, err,
  value_error, decimal_error, ◌≡◌, ◌≢◌, refl, arith,
}
use dropwatch.Decimal.{Decimal, of_ℕ}
use dropwatch.Settings.{default_settings}
use dropwatch.Discovery.{MarketSnapshot, run_discovery}
use dropwatch.Api.Pairs.{ResolvedPair}
use dropwatch.Kraken.Symbols.{PairInfo, AssetPairs, Casing, find_match, resolve_symbol, wsname_of}
use dropwatch.Kraken.Suffix.{find_match-perm}
use dropwatch.Kraken.Resolution.{resolve_symbol-listed}
use dropwatch.Kraken.Canonical.{resolve_symbol-canonical}
use dropwatch.Kraken.Requests.{TickerInfo, Ticker, Provider, new_provider, Network}
use dropwatch.Kraken.Market.{get_usd_market_snapshot}
use dropwatch.Kraken.Throttle.{Call, resolve, quotes, snapshot, AllApart, run, run-AllApart}
use dropwatch.Kraken.Cache.{answers, cached, run-answers}
use dropwatch.Kraken.Snapshot.{IsMarket, get_usd_market_snapshot-IsMarket, run_discovery-provider}
use dropwatch.Base.Sorting.{IsSorted}
use dropwatch.Scripts.Survey.{Row, Survey, largest_first, survey_usd_volume}
use dropwatch.Scripts.Ranking.{row_of, in_dollars, Describes, survey_usd_volume-Describes}
use dropwatch.Examples.Fixtures.{small_db}

abbrev info_of : (wsname quote : String) → PairInfo
info_of wsname quote = record { wsname = some wsname; quote = some quote }

abbrev listed : AssetPairs
listed =
    ("XXBTZUSD", info_of "XBT/USD" "ZUSD")
    ∷ ("XETHZUSD", info_of "ETH/USD" "ZUSD")
    ∷ ("SOLEUR", info_of "SOL/EUR" "ZEUR")
    ∷ []

-- Texts that are in upper case and have no blanks, and one that is not.
abbrev casing : Casing
casing = record { strip = λ s. s; upper = λ s. if str_eq s "xbtusd" then "XBTUSD" else s }

abbrev bitcoin_pair : ResolvedPair
bitcoin_pair = record {
  canonical_name = "XXBTZUSD";
  display_name = "xbtusd";
  base_currency = "XBT";
  quote_currency = "USD";
}

-- The symbol has no slash: the longest quote code that it ends in gives the pair.
by_suffix : resolve_symbol casing listed "xbtusd" ≡ ok bitcoin_pair
unfolding resolve_symbol dropwatch.Base.Sorting.sorted
by_suffix = refl

resolve_symbol-listed_example :
    (info : PairInfo) × Mem ("XXBTZUSD", info) listed × (wsname_of info ≡ ok "XBT/USD")
resolve_symbol-listed_example = resolve_symbol-listed casing listed "xbtusd" bitcoin_pair by_suffix

unresolvable : resolve_symbol casing listed "XBTDOGE" ≡ err value_error
unfolding resolve_symbol dropwatch.Base.Sorting.sorted
unresolvable = refl

resolve_symbol-canonical_example :
    resolve_symbol casing listed "XETHZUSD"
    ≡ ok (record {
      canonical_name = "XETHZUSD";
      display_name = "XETHZUSD";
      base_currency = "ETH";
      quote_currency = "USD";
    })
unfolding dropwatch.Kraken.Symbols.currencies_of
resolve_symbol-canonical_example =
    resolve_symbol-canonical casing "XETHZUSD" (info_of "ETH/USD" "ZUSD")
      (("XXBTZUSD", info_of "XBT/USD" "ZUSD") ∷ []) (("SOLEUR", info_of "SOL/EUR" "ZEUR") ∷ [])
      "XETHZUSD" "ETH" "USD" (apart, tt) refl refl
  where
    apart : ◌≢◌ {A = String} "SOLEUR" "XETHZUSD"
    apart h = cc h

find_match-perm_example :
    find_match casing ("USD" ∷ "EUR" ∷ []) listed "XBTUSD"
    ≡ find_match casing ("EUR" ∷ "USD" ∷ []) listed "XBTUSD"
find_match-perm_example =
    find_match-perm casing ("USD" ∷ "EUR" ∷ []) ("EUR" ∷ "USD" ∷ []) listed "XBTUSD"
      (Perm.swap "EUR" "USD" [])

-- Numbers are written as they are only for two texts.
abbrev parse : String → Result Decimal
parse s =
    if str_eq s "100"
    then ok (of_ℕ 100)
    else if str_eq s "9000"
    then ok (of_ℕ 9000)
    else err decimal_error

abbrev ticker_info : TickerInfo
ticker_info = record {
  c = some ("100" ∷ "1" ∷ []);
  b = some ("100" ∷ []);
  a = some ("100" ∷ []);
  v = some ("1" ∷ "9000" ∷ []);
  p = some ("1" ∷ "100" ∷ []);
}

-- A request comes a tenth of a second after the one before it, and goes on one microsecond late.
abbrev network : Network
network = record {
  clock = λ n. n * 100000;
  delay = λ n. 1;
  answer_asset_pairs = λ n. ok (record { errors = []; result = some listed });
  answer_ticker = λ n names. ok (record {
    errors = [];
    result = some (("SOLEUR", ticker_info) ∷ ("XXBTZUSD", ticker_info) ∷ []);
  });
}

abbrev calls : List Call
calls = resolve "xbtusd" ∷ quotes ("XXBTZUSD" ∷ []) ∷ snapshot ∷ []

run-AllApart_example :
    AllApart 1000000 (run parse casing 1000000 network calls new_provider).requests
run-AllApart_example = run-AllApart parse casing 1000000 network calls

run-answers_example :
    answers network (run parse casing 1000000 network calls new_provider).requests
    ≡ cached (run parse casing 1000000 network calls new_provider).asset_pairs_cache
run-answers_example = run-answers parse casing 1000000 network calls

abbrev market : MarketSnapshot
market = record {
  canonical_name = "XXBTZUSD";
  display_name = "XBT/USD";
  base_currency = "XBT";
  quote_currency = "USD";
  last = of_ℕ 100;
  bid = of_ℕ 100;
  ask = of_ℕ 100;
  volume_24h = of_ℕ 9000;
  vwap_24h = of_ℕ 100;
}

abbrev provider_later : Provider
unfolding get_usd_market_snapshot
provider_later = (get_usd_market_snapshot parse casing 1000000 network new_provider).1

-- The pair in euros is left out.
taken :
    get_usd_market_snapshot parse casing 1000000 network new_provider
    ≡ (ok (("XXBTZUSD", market) ∷ []), provider_later)
unfolding get_usd_market_snapshot provider_later
taken = refl

get_usd_market_snapshot-IsMarket_example : IsMarket (("XXBTZUSD", market) ∷ [])
get_usd_market_snapshot-IsMarket_example =
    get_usd_market_snapshot-IsMarket parse casing 1000000 network new_provider provider_later
      (("XXBTZUSD", market) ∷ []) taken

run_discovery-provider_example :
    run_discovery default_settings
      (("XXBTZUSD", market) ∷ [])
      (run_discovery default_settings (("XXBTZUSD", market) ∷ []) small_db)
    ≡ run_discovery default_settings (("XXBTZUSD", market) ∷ []) small_db
run_discovery-provider_example =
    run_discovery-provider parse casing 1000000 network default_settings new_provider provider_later
      (("XXBTZUSD", market) ∷ []) small_db refl taken

-- The survey of the same market.
abbrev answered : Ticker
answered = ("SOLEUR", ticker_info) ∷ ("XXBTZUSD", ticker_info) ∷ []

abbrev market_rows : List Row
market_rows = ("XXBTZUSD", of_ℕ 900000) ∷ []

priced : map (row_of parse) (filter (in_dollars listed) answered) ≡ map ok market_rows
unfolding dropwatch.Decimal.mul_dec
priced = refl

survey_usd_volume-Describes_example :
    (s : Survey) × (ranking : List Row) × (survey_usd_volume parse
        (network.answer_asset_pairs 0)
        (network.answer_ticker 0 none)
      ≡ ok s)
    × Perm ranking market_rows
    × IsSorted largest_first ranking
    × Describes s ranking
unfolding dropwatch.Kraken.Requests.open_envelope
survey_usd_volume-Describes_example =
    survey_usd_volume-Describes parse (network.answer_asset_pairs 0) (network.answer_ticker 0 none)
      listed answered market_rows refl refl priced
