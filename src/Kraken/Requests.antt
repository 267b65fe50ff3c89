-- ===== src/Kraken/Requests.antt =====
-- providers/kraken.py: `KrakenProvider`, the throttle, the error envelope and the cached asset pairs.
-- A time is a number of microseconds of `time.monotonic()`.
use dropwatch.Base.{
  ℕ, ◌+◌, ◌-◌, Option, none, some, List, [], ◌∷◌, String, ltb, length, if◌then◌else◌, Result, ok,
  err, key_error, provider_error,
}
use dropwatch.Kraken.Symbols.{AssetPairs}

-- An item of Ticker: the arrays that the code reads, if they are there.
pub record TickerInfo : Type 0 where
  pub c : Option (List String)
  pub b : Option (List String)
  pub a : Option (List String)
  pub v : Option (List String)
  pub p : Option (List String)

abbrev pub Ticker : Type 0
Ticker = List (String × TickerInfo)

-- The body of a response. `errors` is empty where `data["error"]` is falsy.
pub record Envelope (A : Type 0) : Type 0 where
  pub errors : List String
  pub result : Option A

-- The path of a request, with its parameters.
pub data Endpoint : Type 0 where
  asset_pairs : Endpoint
  ticker : (pair : Option (List String)) → Endpoint

pub record Request : Type 0 where
  pub path : Endpoint
  pub sent_at : ℕ

-- The provider's state, with the requests that it has let through, the newest first.
pub record Provider : Type 0 where
  pub last_request_at : ℕ
  pub asset_pairs_cache : Option AssetPairs
  pub requests : List Request

-- `KrakenProvider(client)`
abbrev pub new_provider : Provider
new_provider = record { last_request_at = 0; asset_pairs_cache = none; requests = [] }

-- What the n-th request meets: the clock when it comes to the throttle, how much later than it asked it
-- goes on, and the answer, which is an error where the client or the decoding raises.
pub record Network : Type 0 where
  pub clock : ℕ → ℕ
  pub delay : ℕ → ℕ
  pub answer_asset_pairs : ℕ → Result (Envelope AssetPairs)
  pub answer_ticker : ℕ → Option (List String) → Result (Envelope Ticker)

-- A non-empty error list raises `KrakenAPIError`; `data["result"]` may be missing.
unfoldable pub open_envelope : {A : Type 0} → Result (Envelope A) → Result A
open_envelope (err e) = err e
open_envelope (ok envelope) = elim envelope.errors [
  | message ∷ messages ↦ err provider_error
  | [] ↦ elim envelope.result [ none ↦ err key_error | some a ↦ ok a ]
]

module _ (min_interval : ℕ) where
  -- `_throttle`: the time at which it returns. The wait is positive only if the difference is.
  unfoldable pub throttle : (now delay last_request_at : ℕ) → ℕ
  throttle now delay last_request_at =
      let wait = last_request_at + min_interval - now in
      if ltb 0 wait then now + wait + delay else now + delay

  module _ (network : Network) where
    open network use {clock, delay, answer_asset_pairs, answer_ticker}

    -- The provider after `_throttle` and the sending of the request.
    unfoldable pub send : Endpoint → Provider → Provider
    unfolding throttle
    send path p =
        let n = length p.requests in
        let time = throttle (clock n) (delay n) p.last_request_at in
        record p {
          last_request_at = time;
          requests = record { path = path; sent_at = time } ∷ p.requests;
        }

    -- `_get("/Ticker", …)`
    unfoldable pub get_ticker : Option (List String) → Provider → Result Ticker × Provider
    unfolding send open_envelope
    get_ticker pair p =
        (open_envelope (answer_ticker (length p.requests) pair), send (ticker pair) p)

    abbrev pub cache : Result AssetPairs → Provider → Result AssetPairs × Provider
    cache (ok pairs) p = (ok pairs, record p { asset_pairs_cache = some pairs })
    cache (err e) p = (err e, p)

    -- `_get_asset_pairs`
    unfoldable pub get_asset_pairs : Provider → Result AssetPairs × Provider
    unfolding send open_envelope
    get_asset_pairs p = elim p.asset_pairs_cache [
      | some pairs ↦ (ok pairs, p)
      | none ↦ cache (open_envelope (answer_asset_pairs (length p.requests))) (send asset_pairs p)
    ]
