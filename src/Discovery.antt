-- ===== src/Discovery.antt =====
-- workers/discovery.py, and `MarketSnapshot` of providers/base.py.
pub mod Hysteresis
pub mod Decisions
use text.Mathlib.Text.{◌==◌ as str_eq}
use dropwatch.Base.{
  ℕ, ◌+◌, Bool, true, false, not, ◌&&◌, Option, none, some, List, [], ◌∷◌, ◌++◌, map, String, any,
  if◌then◌else◌,
}
use dropwatch.Decimal.{Decimal, leb_dec, ltb_dec, mul_dec}
use dropwatch.Settings.{Settings}
use dropwatch.Models.{Pair, Db}

pub record MarketSnapshot : Type 0 where
  pub canonical_name : String
  pub display_name : String
  pub base_currency : String
  pub quote_currency : String
  pub last : Decimal
  pub bid : Decimal
  pub ask : Decimal
  pub volume_24h : Decimal
  pub vwap_24h : Decimal

-- The property `MarketSnapshot.notional_24h`.
unfoldable pub notional_24h : MarketSnapshot → Decimal
notional_24h m = mul_dec m.volume_24h m.vwap_24h

abbrev pub is_named : String → Pair → Bool
is_named name p = str_eq p.kraken_pair_name name

module _ (settings : Settings) where
  abbrev pub reaches_activate : Decimal → Bool
  reaches_activate notional = leb_dec settings.discovery_activate_floor_usd notional

  abbrev pub below_deactivate : Decimal → Bool
  below_deactivate notional = ltb_dec notional settings.discovery_deactivate_floor_usd

  -- The `if`/`elif` over the two floors.
  unfoldable pub next_active : (notional : Decimal) → (is_active : Bool) → Bool
  next_active notional is_active =
      if reaches_activate notional && not is_active
      then true
      else if below_deactivate notional && is_active
      then false
      else is_active

  -- The changes to the row of a pair that is tracked.
  abbrev pub refresh : MarketSnapshot → Pair → Pair
  refresh m p = record p {
    notional_24h = some (notional_24h m);
    is_active = next_active (notional_24h m) p.is_active;
  }

  abbrev pub new_pair : MarketSnapshot → Db → Pair
  new_pair m db = record {
    id = db.next_id;
    kraken_pair_name = m.canonical_name;
    display_name = m.display_name;
    base_currency = m.base_currency;
    quote_currency = m.quote_currency;
    poll_interval_seconds = settings.default_poll_interval_seconds;
    is_active = true;
    notional_24h = some (notional_24h m);
    current_last_price = some m.last;
    current_bid_price = some m.bid;
    current_ask_price = some m.ask;
    last_checked_at = none;
    created_at = db.now;
  }

  abbrev pub refresh_named : String → MarketSnapshot → List Pair → List Pair
  refresh_named name m = map (λ p. if is_named name p then refresh m p else p)

  -- The body of the loop. The keys of the snapshot are distinct, so a row that the loop adds is not
  -- one that it looks up later.
  unfoldable pub discover_one : String → MarketSnapshot → Db → Db
  unfolding next_active
  discover_one name m db =
      if any (is_named name) db.pairs
      then record db { pairs = refresh_named name m db.pairs }
      else if reaches_activate (notional_24h m)
      then record db { pairs = db.pairs ++ new_pair m db ∷ []; next_id = db.next_id + 1 }
      else db

  unfoldable pub run_discovery : List (String × MarketSnapshot) → Db → Db
  unfolding discover_one
  run_discovery [] db = db
  run_discovery ((name, m) ∷ rest) db = run_discovery rest (discover_one name m db)
