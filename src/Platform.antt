-- ===== src/Platform.antt =====
-- What the code takes from floating point, from the hash and from the rendering of values as text.
-- Nothing of it is computed here; what a theorem relies on is stated as a named hypothesis.
use dropwatch.Base.{ℕ, Bool, List, String, Result}
use dropwatch.Decimal.{Decimal}

pub record Platform : Type 1 where
  pub Float : Type 0
  -- float(d), float(n)
  pub of_decimal : Decimal → Float
  pub of_int : ℕ → Float
  -- a - b, a * b, -a, abs(a), a * 100, math.expm1
  pub minus : Float → Float → Float
  pub times : Float → Float → Float
  pub negate : Float → Float
  pub abs : Float → Float
  pub expm1 : Float → Float
  -- a / b, which raises for a zero `b`; math.log, which raises off the positive numbers
  pub divide : Float → Float → Result Float
  pub log : Float → Result Float
  -- statistics.fmean, which raises on no data; statistics.stdev of at least two values
  pub fmean : List Float → Result Float
  pub stdev : List Float → Float
  pub less : Float → Float → Bool
  pub at_most : Float → Float → Bool
  -- x == 0.0, and int(x) of a float that is not negative
  pub is_zero : Float → Bool
  pub truncate : Float → ℕ
  -- hashlib.sha256(s.encode()).hexdigest()
  pub sha256 : String → String
  -- str(d), str(n) of an int or a UUID, datetime.isoformat()
  pub str_decimal : Decimal → String
  pub str_int : ℕ → String
  pub isoformat : ℕ → String
  -- a float as json.dumps writes it
  pub json_float : Float → String
  -- The formats `:+.3f`, `:+.2f` and `:.3f`.
  pub signed3 : Float → String
  pub signed2 : Float → String
  pub signed3_decimal : Decimal → String
  pub fixed3_decimal : Decimal → String
