-- ===== src/Api/Pairs.antt =====
-- api/routes/pairs.py: the handlers that add and list pairs. `ResolvedPair` is that of
-- providers/base.py.
use text.Mathlib.Text.{◌==◌ as str_eq}
use dropwatch.Base.{
  ℕ, ◌+◌, Bool, true, none, List, [], ◌∷◌, ◌++◌, String, any, ltb, leb, if◌then◌else◌, Result, ok,
  err, Error, value_error,
}
use dropwatch.Base.Sorting.{sorted}
use dropwatch.Models.{Pair, Db}

pub record ResolvedPair : Type 0 where
  pub canonical_name : String
  pub display_name : String
  pub base_currency : String
  pub quote_currency : String

pub record CreatePairRequest : Type 0 where
  pub symbol : String
  pub poll_interval_seconds : ℕ

-- What the handler answers: 422, 409, any other raise, or the row.
pub data PairAnswer : Type 0 where
  unprocessable conflict raised : PairAnswer
  created : Pair → PairAnswer

-- `SELECT … WHERE kraken_pair_name = name`, as whether there is a row.
abbrev pub is_tracked : String → List Pair → Bool
is_tracked name = any (λ p. str_eq p.kraken_pair_name name)

abbrev pub pair_of : ResolvedPair → (poll_interval_seconds : ℕ) → Db → Pair
pair_of resolved poll_interval_seconds db = record {
  id = db.next_id;
  kraken_pair_name = resolved.canonical_name;
  display_name = resolved.display_name;
  base_currency = resolved.base_currency;
  quote_currency = resolved.quote_currency;
  poll_interval_seconds = poll_interval_seconds;
  is_active = true;
  notional_24h = none;
  current_last_price = none;
  current_bid_price = none;
  current_ask_price = none;
  last_checked_at = none;
  created_at = db.now;
}

-- `except ValueError`
abbrev pub refusal : Error → PairAnswer
refusal value_error = unprocessable
refusal _ = raised

abbrev pub add_resolved : Result ResolvedPair → (poll_interval_seconds : ℕ) → Db → PairAnswer × Db
add_resolved (err e) interval db = (refusal e, db)
add_resolved (ok resolved) interval db =
    let pair = pair_of resolved interval db in
    if is_tracked resolved.canonical_name db.pairs
    then (conflict, db)
    else (created pair, record db { pairs = db.pairs ++ pair ∷ []; next_id = db.next_id + 1 })

-- `create_pair`; `resolve_pair` is the provider's. The interval is validated to be positive.
unfoldable pub create_pair :
    (resolve_pair : String → Result ResolvedPair) → CreatePairRequest → Db → PairAnswer × Db
create_pair resolve_pair body db =
    if ltb 0 body.poll_interval_seconds
    then add_resolved (resolve_pair body.symbol) body.poll_interval_seconds db
    else (unprocessable, db)

-- `ORDER BY created_at DESC`
abbrev pub newest_first : Pair → Pair → Bool
newest_first a b = leb b.created_at a.created_at

unfoldable pub list_pairs : Db → List Pair
list_pairs db = sorted newest_first db.pairs
