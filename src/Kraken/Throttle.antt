-- ===== src/Kraken/Throttle.antt =====
-- providers/kraken.py: `_throttle` and the cache of the asset pairs over any sequence of calls.
use mathlib.Core.Path.{subst}
use dropwatch.Base.{
  ℕ, ◌+◌, ◌≤◌, Option, none, some, List, [], ◌∷◌, String, length, ◌≡◌, refl, sym, arith,
  Option-cases, Result-cases, inl, inr, Result, ok, err,
}
use dropwatch.Decimal.{Decimal}
use dropwatch.Kraken.Symbols.{Casing}
use dropwatch.Kraken.Requests.{
  Endpoint, asset_pairs, ticker, Request, Provider, new_provider, Network, throttle, send,
  open_envelope, get_ticker, get_asset_pairs,
}
use dropwatch.Kraken.Market.{resolve_pair, get_quotes, get_usd_market_snapshot, after}

-- A call of one of the three methods.
pub data Call : Type 0 where
  resolve : (symbol : String) → Call
  quotes : (canonical_names : List String) → Call
  snapshot : Call

-- `newer` lists requests from the newest on: each was sent at least the interval after the one before.
abbrev pub AllApart : (min_interval : ℕ) → List Request → Type 0
AllApart min_interval [] = Unit
AllApart min_interval (r ∷ []) = Unit
AllApart min_interval (r ∷ q ∷ older) =
    (q.sent_at + min_interval ≤ r.sent_at) × AllApart min_interval (q ∷ older)

-- The provider knows when its newest request was sent.
abbrev KnowsLast : Provider → List Request → Type 0
KnowsLast p [] = Unit
KnowsLast p (r ∷ older) = r.sent_at ≡ p.last_request_at

record IsThrottled (min_interval : ℕ) (p : Provider) : Type 0 where
  pub apart : AllApart min_interval p.requests
  pub last : KnowsLast p p.requests

throttle-waits :
    (min_interval now delay last : ℕ) → last + min_interval ≤ throttle min_interval now delay last
unfolding throttle
throttle-waits min_interval now delay last = ground arith

module _ (parse_decimal : String → Result Decimal) (casing : Casing) (min_interval : ℕ)
    (network : Network) where
  unfoldable pub provider_after : Call → Provider → Provider
  unfolding resolve_pair get_quotes get_usd_market_snapshot
  provider_after (resolve symbol) p =
      (resolve_pair parse_decimal casing min_interval network symbol p).1
  provider_after (quotes names) p = (get_quotes parse_decimal casing min_interval network names p).1
  provider_after snapshot p =
      (get_usd_market_snapshot parse_decimal casing min_interval network p).1

  unfoldable pub run : List Call → Provider → Provider
  unfolding provider_after
  run [] p = p
  run (call ∷ calls) p = run calls (provider_after call p)

  send-IsThrottled :
      (path : Endpoint) (p : Provider)
      → IsThrottled min_interval p
      → IsThrottled min_interval (send min_interval network path p)
  unfolding send
  send-IsThrottled path p t = record { apart = apart p.requests t.apart t.last; last = refl }
    where
      time : ℕ
      time =
          throttle min_interval (network.clock (length p.requests))
            (network.delay (length p.requests)) p.last_request_at

      apart :
          (rs : List Request)
          → AllApart min_interval rs
          → KnowsLast p rs
          → AllApart min_interval (record { path = path; sent_at = time } ∷ rs)
      apart [] h k = tt
      apart (r ∷ rs) h k = (
        subst (λ t. t + min_interval ≤ time) (sym k)
            (throttle-waits min_interval (network.clock (length p.requests))
              (network.delay (length p.requests)) p.last_request_at),
        h,
      )

  get_asset_pairs-IsThrottled :
      (p : Provider)
      → IsThrottled min_interval p
      → IsThrottled min_interval (get_asset_pairs min_interval network p).1
  unfolding get_asset_pairs
  get_asset_pairs-IsThrottled p t = elim (Option-cases p.asset_pairs_cache) [
    | inr (pairs, there) ↦ rw (get_asset_pairs, there) t
    | inl missing ↦
        let s = send-IsThrottled asset_pairs p t in
        elim (Result-cases (open_envelope (network.answer_asset_pairs (length p.requests)))) [
          | inl (pairs, e) ↦
              rw (get_asset_pairs, missing, e) (record { apart = s.apart; last = s.last })
          | inr (e, fails) ↦ rw (get_asset_pairs, missing, fails) s
        ]
  ]

  -- A call that goes on from a call that kept a property keeps it.
  pub after-keeps :
      {A B : Type 0} (Q : Provider → Type 0) (m : Result A × Provider)
      (f : A → Provider → Result B × Provider)
      → Q m.1
      → ((a : A) (p : Provider) → Q p → Q (f a p).1)
      → Q (after m f).1
  after-keeps Q (ok a, p) f h k = k a p h
  after-keeps Q (err e, p) f h k = h

  get_ticker-IsThrottled :
      (pair : Option (List String)) (p : Provider)
      → IsThrottled min_interval p
      → IsThrottled min_interval (get_ticker min_interval network pair p).1
  unfolding get_ticker
  get_ticker-IsThrottled pair p t = send-IsThrottled (ticker pair) p t

  provider_after-IsThrottled :
      (call : Call) (p : Provider)
      → IsThrottled min_interval p
      → IsThrottled min_interval (provider_after call p)
  unfolding provider_after resolve_pair get_quotes get_usd_market_snapshot
  provider_after-IsThrottled (resolve symbol) p t =
      after-keeps (IsThrottled min_interval) (get_asset_pairs min_interval network p) _
        (get_asset_pairs-IsThrottled p t) λ pairs q h. h
  provider_after-IsThrottled (quotes names) p t =
      after-keeps (IsThrottled min_interval) (get_ticker min_interval network (some names) p) _
        (get_ticker-IsThrottled (some names) p t) λ result q h. h
  provider_after-IsThrottled snapshot p t =
      after-keeps (IsThrottled min_interval) (get_asset_pairs min_interval network p) _
        (get_asset_pairs-IsThrottled p t)
        λ pairs q h.
          after-keeps (IsThrottled min_interval) (get_ticker min_interval network none q) _
            (get_ticker-IsThrottled none q h) λ result r g. g

  run-IsThrottled :
      (calls : List Call) (p : Provider)
      → IsThrottled min_interval p
      → IsThrottled min_interval (run calls p)
  unfolding run
  run-IsThrottled [] p t = t
  run-IsThrottled (call ∷ calls) p t =
      run-IsThrottled calls (provider_after call p) (provider_after-IsThrottled call p t)

  -- Whatever calls a provider serves from its creation on, and however late they come and return, each
  -- of its requests goes out at least the minimal interval after the request before it.
  pub run-AllApart : (calls : List Call) → AllApart min_interval (run calls new_provider).requests
  run-AllApart calls = (run-IsThrottled calls new_provider (record { apart = tt; last = tt })).apart
