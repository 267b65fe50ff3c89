-- ===== src/Kraken/Snapshot.antt =====
-- providers/kraken.py and workers/discovery.py: the market snapshot that the discovery reads.
use Prim.Native.String.{◌++◌ as str_append}
use text.Mathlib.Text.{◌==◌ as str_eq}
use text.Mathlib.TextEquality.{eq_iff}
use mathlib.Core.Path.{subst}
use dropwatch.Base.{
  ℕ, true, none, List, [], ◌∷◌, String, All, ◌≡◌, ◌≢◌, refl, sym, ◌∙◌, arith, Bool-cases,
  Option-cases, inl, inr, Result, ok, err, ok-injective, >>=-eq-ok, value_of,
}
use dropwatch.Base.Dicts.{put_name, lookup_name, All-put}
use dropwatch.Decimal.{Decimal, leb_dec}
use dropwatch.Settings.{Settings}
use dropwatch.Models.{Db}
use dropwatch.Discovery.{MarketSnapshot, run_discovery}
use dropwatch.Discovery.Hysteresis.{IsSnapshot, run_discovery-again}
use dropwatch.Kraken.Symbols.{PairInfo, AssetPairs, Casing, currencies_of, wsname_of}
use dropwatch.Kraken.Resolution.{currencies_of-wsname}
use dropwatch.Kraken.Requests.{TickerInfo, Ticker, Provider, Network, get_ticker, get_asset_pairs}
use dropwatch.Kraken.Market.{
  usd_pairs, number_at, snapshot_item, snapshot_of, get_usd_market_snapshot, after,
}

-- The display name is the two currencies with a slash between them.
abbrev pub IsSpelled : MarketSnapshot → Type 0
IsSpelled m = m.display_name ≡ str_append m.base_currency (str_append "/" m.quote_currency)

put-apart :
    (k j : String) (m : MarketSnapshot) (d : List (String × MarketSnapshot))
    → k ≢ j
    → All (λ item. k ≢ item.0) d
    → All (λ item. k ≢ item.0) (put_name j m d)
unfolding put_name
put-apart k j m [] ne h = (ne, tt)
put-apart k j m ((i, w) ∷ rest) ne (h, hs) = elim (Bool-cases (str_eq i j)) [
  | inl same ↦ rw same (h, hs)
  | inr apart ↦ rw apart (h, put-apart k j m rest ne hs)
]

-- An item that names itself may be put into a snapshot.
put-IsSnapshot :
    (k : String) (m : MarketSnapshot) (d : List (String × MarketSnapshot))
    → m.canonical_name ≡ k
    → IsSnapshot d
    → IsSnapshot (put_name k m d)
unfolding put_name
put-IsSnapshot k m [] e h = (e, tt, tt)
put-IsSnapshot k m ((j, w) ∷ rest) e (f, ne, h) = elim (Bool-cases (str_eq j k)) [
  | inl same ↦ rw same (e ∙ sym ((eq_iff j k).0 same), ne, h)
  | inr apart ↦
      let differ : j ≢ k = ground (arith, eq_iff j k) in
      rw apart (f, put-apart j k m rest differ ne, put-IsSnapshot k m rest e h)
]

-- Every item of the snapshot names itself, no two have one key, and their display names are spelled by
-- the currencies.
abbrev pub IsMarket : List (String × MarketSnapshot) → Type 0
IsMarket items = IsSnapshot items × All (λ item. IsSpelled item.1) items

snapshot_item-named :
    (parse_decimal : String → Result Decimal) (pair : String) (pair_info : PairInfo)
    (info : TickerInfo) (m : MarketSnapshot)
    → snapshot_item parse_decimal pair pair_info info ≡ ok m
    → (m.canonical_name ≡ pair) × IsSpelled m
unfolding snapshot_item
snapshot_item-named parse_decimal pair pair_info info m h =
    let ((base, quote), e, h1) = >>=-eq-ok (currencies_of pair_info) _ h in
    let (ws, f, h2) = >>=-eq-ok (wsname_of pair_info) _ h1 in
    let (last, _, h3) = >>=-eq-ok (number_at parse_decimal info.c 0) _ h2 in
    let (bid, _, h4) = >>=-eq-ok (number_at parse_decimal info.b 0) _ h3 in
    let (ask, _, h5) = >>=-eq-ok (number_at parse_decimal info.a 0) _ h4 in
    let (volume, _, h6) = >>=-eq-ok (number_at parse_decimal info.v 1) _ h5 in
    let (vwap, _, h7) = >>=-eq-ok (number_at parse_decimal info.p 1) _ h6 in
    subst (λ (x : MarketSnapshot). (x.canonical_name ≡ pair) × IsSpelled x) (ok-injective h7)
      (refl, ok-injective (sym f ∙ currencies_of-wsname pair_info base quote e))

snapshot_of-IsMarket :
    (parse_decimal : String → Result Decimal) (usd : AssetPairs) (result : Ticker)
    (d out : List (String × MarketSnapshot))
    → IsMarket d
    → snapshot_of parse_decimal usd result d ≡ ok out
    → IsMarket out
unfolding snapshot_of
snapshot_of-IsMarket parse_decimal usd [] d out k h = subst IsMarket (ok-injective h) k
snapshot_of-IsMarket parse_decimal usd ((pair, info) ∷ rest) d out (keys, spelled) h =
    elim (Option-cases (lookup_name pair usd)) [
      | inl other ↦
          snapshot_of-IsMarket parse_decimal usd rest d out (keys, spelled)
            (rw (snapshot_of, other) at h)
      | inr (pair_info, usd_pair) ↦
          let (m, e, h1) =
            >>=-eq-ok (snapshot_item parse_decimal pair pair_info info) _
              (rw (snapshot_of, usd_pair) at h) in
          let (named, spells) = snapshot_item-named parse_decimal pair pair_info info m e in
          snapshot_of-IsMarket parse_decimal usd rest (put_name pair m d) out
            (put-IsSnapshot pair m d named keys, All-put IsSpelled pair m d spells spelled) h1
    ]

module _ (parse_decimal : String → Result Decimal) (casing : Casing) (min_interval : ℕ)
    (network : Network) where
  -- The items of a market snapshot that the provider returns name themselves, no two have one key, and
  -- each has as its display name its two currencies with a slash between them.
  pub get_usd_market_snapshot-IsMarket :
      (p q : Provider) (items : List (String × MarketSnapshot))
      → get_usd_market_snapshot parse_decimal casing min_interval network p ≡ (ok items, q)
      → IsMarket items
  unfolding get_usd_market_snapshot
  get_usd_market_snapshot-IsMarket p q items h = listed (get_asset_pairs min_interval network p) h
    where
      priced :
          (pairs : AssetPairs) (m : Result Ticker × Provider)
          → after m (λ result r. (snapshot_of parse_decimal (usd_pairs pairs) result [], r))
            ≡ (ok items, q)
          → IsMarket items
      priced pairs (err e, r) h = absurd (cc (value_of h))
      priced pairs (ok result, r) h =
          snapshot_of-IsMarket parse_decimal (usd_pairs pairs) result [] items (tt, tt) (value_of h)

      listed :
          (m : Result AssetPairs × Provider)
          → after m (λ pairs r.
            after
              (get_ticker min_interval network none r)
              λ result s. (snapshot_of parse_decimal (usd_pairs pairs) result [], s))
            ≡ (ok items, q)
          → IsMarket items
      listed (err e, r) h = absurd (cc (value_of h))
      listed (ok pairs, r) h = priced pairs (get_ticker min_interval network none r) h

  -- Where the deactivation floor is not above the activation floor, the discovery may run twice on a
  -- snapshot of the provider: the second run changes nothing.
  pub run_discovery-provider :
      (settings : Settings) (p q : Provider) (items : List (String × MarketSnapshot)) (db : Db)
      → leb_dec settings.discovery_deactivate_floor_usd settings.discovery_activate_floor_usd ≡ true
      → get_usd_market_snapshot parse_decimal casing min_interval network p ≡ (ok items, q)
      → run_discovery settings items (run_discovery settings items db)
        ≡ run_discovery settings items db
  run_discovery-provider settings p q items db floors h =
      run_discovery-again settings floors items db (get_usd_market_snapshot-IsMarket p q items h).0
