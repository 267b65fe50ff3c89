-- ===== src/Settings.antt =====
-- config/settings.py: the numeric settings that the modelled code reads, with their defaults. URLs,
-- names and credentials go to client libraries only.
use dropwatch.Base.{ℕ}
use dropwatch.Base.Int.{pos}
use dropwatch.Decimal.{Decimal, of_ℕ}

pub record Settings : Type 0 where
  pub discovery_activate_floor_usd : Decimal
  pub discovery_deactivate_floor_usd : Decimal
  pub default_poll_interval_seconds : ℕ
  pub outbox_backoff_base_seconds : ℕ
  pub outbox_backoff_max_seconds : ℕ
  pub rule_index_refresh_interval_seconds : ℕ
  pub zscore_window : ℕ
  pub zscore_min_observations : ℕ
  pub zscore_zero_variance_min_percent : Decimal

abbrev pub default_settings : Settings
default_settings = record {
  discovery_activate_floor_usd = of_ℕ 100000;
  discovery_deactivate_floor_usd = of_ℕ 75000;
  default_poll_interval_seconds = 60;
  outbox_backoff_base_seconds = 5;
  outbox_backoff_max_seconds = 300;
  rule_index_refresh_interval_seconds = 300;
  zscore_window = 60;
  zscore_min_observations = 30;
  zscore_zero_variance_min_percent = record { coeff = pos 5; scale = 1 };
}
