-- ===== src/Examples/Markets.antt =====
-- A market whose volume lies between the two floors, and one above both.
use dropwatch.Base.{ℕ, true, not, ◌||◌, any, All, List, [], ◌∷◌, map, String, ◌≡◌, ◌≢◌, refl, ap}
use text.Mathlib.Text.{◌==◌ as str_eq}
use dropwatch.Decimal.{of_ℕ}
use dropwatch.Settings.{default_settings}
use dropwatch.Discovery.{MarketSnapshot, notional_24h, is_named, reaches_activate, run_discovery}
use dropwatch.Discovery.Hysteresis.{IsSnapshot, run_discovery-again}
use dropwatch.Discovery.Decisions.{RunsTo, run_discovery-decides}
use dropwatch.Api.Pairs.{ResolvedPair, create_pair}
use dropwatch.Api.Tracking.{AllNamed, create_pair-AllNamed}
use dropwatch.Base.{Result, ok, err, value_error, if◌then◌else◌}
use dropwatch.Examples.Fixtures.{small_db}

-- The volume of the middle market: between the two floors of the settings.
abbrev market : (name : String) → (volume : ℕ) → MarketSnapshot
market name volume = record {
  canonical_name = name;
  display_name = name;
  base_currency = name;
  quote_currency = "USD";
  last = of_ℕ 100;
  bid = of_ℕ 100;
  ask = of_ℕ 101;
  volume_24h = of_ℕ volume;
  vwap_24h = of_ℕ 100;
}

abbrev markets : List (String × MarketSnapshot)
markets = ("XXBTZUSD", market "XXBTZUSD" 800) ∷ ("XETHZUSD", market "XETHZUSD" 2000) ∷ []

-- The pair that is tracked stays active, and the other market is added.
discovered :
    map (λ p. p.is_active) (run_discovery default_settings markets small_db).pairs
    ≡ true ∷ true ∷ []
unfolding run_discovery dropwatch.Discovery.notional_24h dropwatch.Decimal.mul_dec
discovered = refl

apart : ◌≢◌ {A = String} "XXBTZUSD" "XETHZUSD"
apart e = absurd (cc (ap (λ s. str_eq s "XXBTZUSD") e))

markets-IsSnapshot : IsSnapshot markets
markets-IsSnapshot = (refl, (apart, tt), (refl, tt, tt))

run_discovery-again_example :
    run_discovery default_settings markets (run_discovery default_settings markets small_db)
    ≡ run_discovery default_settings markets small_db
run_discovery-again_example =
    run_discovery-again default_settings refl markets small_db markets-IsSnapshot

run_discovery-decides_example :
    RunsTo default_settings refl markets small_db (run_discovery default_settings markets small_db)
    × All
        (λ item.
          (any (is_named item.0) (run_discovery default_settings markets small_db).pairs
            || not (reaches_activate default_settings (notional_24h item.1)))
          ≡ true)
        markets
run_discovery-decides_example =
    run_discovery-decides default_settings refl markets small_db markets-IsSnapshot

-- The provider knows one symbol.
abbrev resolves : String → Result ResolvedPair
resolves s =
    if str_eq s "eth"
    then ok (record {
      canonical_name = "XETHZUSD";
      display_name = "eth";
      base_currency = "XETH";
      quote_currency = "ZUSD";
    })
    else err value_error

create_pair-AllNamed_example :
    AllNamed []
      (create_pair resolves
        (record { symbol = "eth"; poll_interval_seconds = 60 })
        small_db).1.pairs
create_pair-AllNamed_example =
    create_pair-AllNamed resolves (record { symbol = "eth"; poll_interval_seconds = 60 }) small_db
      (refl, tt)
