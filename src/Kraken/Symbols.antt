-- ===== src/Kraken/Symbols.antt =====
-- providers/kraken.py: `KrakenProvider.resolve_pair` once the asset pairs are there.
use Prim.Native.Char.{Char}
use Prim.Native.String.{count, ◌++◌ as str_append}
use text.Mathlib.Text.{◌==◌ as str_eq}
use dropwatch.Base.{
  ℕ, zero, suc, ◌-◌, Bool, true, false, ◌&&◌, Option, none, some, List, [], ◌∷◌, String, ◌==◌, ltb,
  leb, any, is_some, if◌then◌else◌, Result, ok, err, key_error, value_error, ◌>>=◌,
}
use dropwatch.Base.Dicts.{put_name, lookup_name}
use dropwatch.Base.Sorting.{sorted}
use dropwatch.Outbox.{take_chars}
use dropwatch.Api.Pairs.{ResolvedPair}

-- The keys of an item of AssetPairs that the code reads: `wsname` and `quote`, if they are there.
pub record PairInfo : Type 0 where
  pub wsname : Option String
  pub quote : Option String

-- The result of AssetPairs, a JSON object.
abbrev pub AssetPairs : Type 0
AssetPairs = List (String × PairInfo)

-- `str.strip` and `str.upper`.
pub record Casing : Type 0 where
  pub strip : String → String
  pub upper : String → String

abbrev pub is_slash : Char → Bool
is_slash c = str_eq (String.◌∷◌ c "") "/"

abbrev pub onto_first : Char → List String → List String
onto_first c [] = []
onto_first c (part ∷ parts) = String.◌∷◌ c part ∷ parts

-- `s.split("/")`
unfoldable pub split_slash : String → List String
split_slash String.[] = "" ∷ []
split_slash (String.◌∷◌ c s) =
    let parts = split_slash s in if is_slash c then "" ∷ parts else onto_first c parts

-- `"/" in s`
unfoldable pub has_slash : String → Bool
has_slash String.[] = false
has_slash (String.◌∷◌ c s) = let rest = has_slash s in if is_slash c then true else rest

-- `base, quote = info["wsname"].split("/")`
abbrev pub two_of : List String → Result (String × String)
two_of (base ∷ quote ∷ []) = ok (base, quote)
two_of _ = err value_error

abbrev pub wsname_of : PairInfo → Result String
wsname_of info = elim info.wsname [ none ↦ err key_error | some ws ↦ ok ws ]

unfoldable pub currencies_of : PairInfo → Result (String × String)
unfolding split_slash
currencies_of info = wsname_of info >>= λ ws. two_of (split_slash ws)

-- `s[n:]`
unfoldable pub drop_chars : ℕ → String → String
drop_chars zero s = s
drop_chars (suc n) String.[] = ""
drop_chars (suc n) (String.◌∷◌ c s) = drop_chars n s

-- `s.endswith(t)`
unfoldable pub ends_with : String → String → Bool
unfolding drop_chars
ends_with s t = leb (count t) (count s) && str_eq (drop_chars (count s - count t) s) t

-- `s[: -len(t)]`, which is empty for an empty `t`.
unfoldable pub before_suffix : String → String → String
unfolding take_chars
before_suffix s t = if count t == 0 then "" else take_chars (count s - count t) s

-- The set of the texts: its elements once each.
unfoldable pub distinct : List String → List String
distinct [] = []
distinct (s ∷ ss) = let rest = distinct ss in if any (λ t. str_eq t s) rest then rest else s ∷ rest

abbrev pub longest_first : String → String → Bool
longest_first s t = leb (count t) (count s)

-- A value of the two dicts: `(name, info)`.
abbrev pub Named : Type 0
Named = String × PairInfo

abbrev pub second_of : List String → List String → List String
second_of (_ ∷ code ∷ _) codes = code ∷ codes
second_of _ codes = codes

-- `[ws.split("/")[1] for ws in by_wsname if "/" in ws]`
unfoldable pub codes_of : List (String × Named) → List String
unfolding split_slash has_slash
codes_of [] = []
codes_of ((ws, _) ∷ rest) =
    let codes = codes_of rest in if has_slash ws then second_of (split_slash ws) codes else codes

-- `f"{cleaned[: -len(quote)]}/{quote}"`
unfoldable pub candidate_of : String → String → String
unfolding before_suffix
candidate_of cleaned quote = str_append (before_suffix cleaned quote) (str_append "/" quote)

-- `cleaned.endswith(quote) and len(cleaned) > len(quote)`
abbrev pub is_suffix : String → String → Bool
is_suffix cleaned quote = ends_with cleaned quote && ltb (count quote) (count cleaned)

-- The loop over the quote codes.
unfoldable pub match_suffix : List (String × Named) → String → List String → Option Named
unfolding ends_with candidate_of lookup_name
match_suffix by_wsname cleaned [] = none
match_suffix by_wsname cleaned (quote ∷ codes) =
    let rest = match_suffix by_wsname cleaned codes in
    let found = lookup_name (candidate_of cleaned quote) by_wsname in
    if is_suffix cleaned quote && is_some found then found else rest

module _ (casing : Casing) where
  open casing use {strip, upper}

  -- `{name.upper(): (name, info) for …}`; of two names that are the same in upper case the later counts.
  unfoldable pub by_canonical : AssetPairs → List (String × Named) → List (String × Named)
  unfolding put_name
  by_canonical [] dict = dict
  by_canonical ((name, info) ∷ rest) dict =
      by_canonical rest (put_name (upper name) (name, info) dict)

  -- `if info.get("wsname")`: a missing or empty one is left out.
  abbrev pub put_wsname : Option String → Named → List (String × Named) → List (String × Named)
  put_wsname none named dict = dict
  put_wsname (some String.[]) named dict = dict
  put_wsname (some (String.◌∷◌ c s)) named dict = put_name (upper (String.◌∷◌ c s)) named dict

  unfoldable pub by_wsname : AssetPairs → List (String × Named) → List (String × Named)
  unfolding put_name
  by_wsname [] dict = dict
  by_wsname ((name, info) ∷ rest) dict = by_wsname rest (put_wsname info.wsname (name, info) dict)

  -- `by_canonical.get(cleaned) or by_wsname.get(cleaned)`
  abbrev pub or_else : {A : Type 0} → Option A → Option A → Option A
  or_else none second = second
  or_else (some a) second = some a

  -- The match, with the set of quote codes in some order.
  unfoldable pub find_match : (codes : List String) → AssetPairs → String → Option Named
  unfolding by_canonical by_wsname match_suffix lookup_name has_slash
  find_match codes asset_pairs cleaned =
      let direct =
        or_else (lookup_name cleaned (by_canonical asset_pairs []))
          (lookup_name cleaned (by_wsname asset_pairs [])) in
      if is_some direct
      then direct
      else if has_slash cleaned
      then none
      else match_suffix (by_wsname asset_pairs []) cleaned (sorted longest_first codes)

  unfoldable pub quote_codes : AssetPairs → List String
  unfolding by_wsname codes_of distinct
  quote_codes asset_pairs = distinct (codes_of (by_wsname asset_pairs []))

  abbrev pub resolved : (symbol : String) → Option Named → Result ResolvedPair
  resolved symbol none = err value_error
  resolved symbol (some (name, info)) = do
    (base, quote) ← currencies_of info
    ok (record {
      canonical_name = name;
      display_name = strip symbol;
      base_currency = base;
      quote_currency = quote;
    })

  unfoldable pub resolve_symbol : AssetPairs → (symbol : String) → Result ResolvedPair
  unfolding find_match quote_codes currencies_of
  resolve_symbol asset_pairs symbol =
      resolved symbol (find_match (quote_codes asset_pairs) asset_pairs (upper (strip symbol)))
