-- ===== src/Kraken/Cache.antt =====
-- providers/kraken.py: `_get_asset_pairs` and its cache, over the calls that a provider serves.
use dropwatch.Base.{
  ℕ, Option, none, some, List, [], ◌∷◌, String, length, ◌≡◌, refl, ◌∙◌, Option-cases, Result-cases,
  inl, inr, Result, ok, err,
}
use dropwatch.Decimal.{Decimal}
use dropwatch.Kraken.Symbols.{AssetPairs, Casing}
use dropwatch.Kraken.Requests.{
  asset_pairs, ticker, Request, Provider, new_provider, Network, send, open_envelope, get_ticker,
  get_asset_pairs,
}
use dropwatch.Kraken.Market.{resolve_pair, get_quotes, get_usd_market_snapshot}
use dropwatch.Kraken.Throttle.{Call, resolve, quotes, snapshot, provider_after, run, after-keeps}

abbrev add_answer : Result AssetPairs → List AssetPairs → List AssetPairs
add_answer (ok pairs) older = pairs ∷ older
add_answer (err e) older = older

-- The asset pairs that the requests were answered with, the newest first. The n-th request is the one
-- with n older ones; a request that failed gave none.
abbrev pub answers : Network → List Request → List AssetPairs
answers network [] = []
answers network (r ∷ older) = elim r.path [
  | asset_pairs ↦
      add_answer (open_envelope (network.answer_asset_pairs (length older))) (answers network older)
  | ticker pair ↦ answers network older
]

abbrev pub cached : Option AssetPairs → List AssetPairs
cached none = []
cached (some pairs) = pairs ∷ []

module _ (parse_decimal : String → Result Decimal) (casing : Casing) (min_interval : ℕ)
    (network : Network) where
  abbrev IsCached : Provider → Type 0
  IsCached p = answers network p.requests ≡ cached p.asset_pairs_cache

  get_ticker-IsCached :
      (pair : Option (List String)) (p : Provider)
      → IsCached p
      → IsCached (get_ticker min_interval network pair p).1
  unfolding get_ticker send
  get_ticker-IsCached pair p h = h

  get_asset_pairs-IsCached :
      (p : Provider) → IsCached p → IsCached (get_asset_pairs min_interval network p).1
  unfolding get_asset_pairs send
  get_asset_pairs-IsCached p h = elim (Option-cases p.asset_pairs_cache) [
    | inr (pairs, there) ↦ rw (get_asset_pairs, there) h
    | inl missing ↦
        elim (Result-cases (open_envelope (network.answer_asset_pairs (length p.requests)))) [
          | inl (pairs, e) ↦
              let older : answers network p.requests ≡ [] = rw missing at h in
              rw (get_asset_pairs, missing, e) (λ i. add_answer (e i) (older i))
          | inr (e, fails) ↦
              rw (get_asset_pairs, missing, fails)
                ((λ i. add_answer (fails i) (answers network p.requests)) ∙ h)
        ]
  ]

  provider_after-IsCached :
      (call : Call) (p : Provider)
      → IsCached p
      → IsCached (provider_after parse_decimal casing min_interval network call p)
  unfolding provider_after resolve_pair get_quotes get_usd_market_snapshot
  provider_after-IsCached (resolve symbol) p t =
      after-keeps parse_decimal casing min_interval network IsCached
        (get_asset_pairs min_interval network p) _ (get_asset_pairs-IsCached p t) λ found q h. h
  provider_after-IsCached (quotes names) p t =
      after-keeps parse_decimal casing min_interval network IsCached
        (get_ticker min_interval network (some names) p) _ (get_ticker-IsCached (some names) p t)
        λ result q h. h
  provider_after-IsCached snapshot p t =
      after-keeps parse_decimal casing min_interval network IsCached
        (get_asset_pairs min_interval network p) _ (get_asset_pairs-IsCached p t)
        λ found q h.
          after-keeps parse_decimal casing min_interval network IsCached
            (get_ticker min_interval network none q) _ (get_ticker-IsCached none q h)
            λ result r g. g

  run-IsCached :
      (calls : List Call) (p : Provider)
      → IsCached p
      → IsCached (run parse_decimal casing min_interval network calls p)
  unfolding run
  run-IsCached [] p h = h
  run-IsCached (call ∷ calls) p h =
      run-IsCached calls (provider_after parse_decimal casing min_interval network call p)
        (provider_after-IsCached call p h)

  -- Whatever calls a provider serves from its creation on, its requests for the asset pairs have given
  -- them at most once, and what they gave is what it has cached: nothing as long as none gave them.
  pub run-answers :
      (calls : List Call)
      → answers network (run parse_decimal casing min_interval network calls new_provider).requests
        ≡ cached
            (run parse_decimal casing min_interval network calls new_provider).asset_pairs_cache
  run-answers calls = run-IsCached calls new_provider refl
