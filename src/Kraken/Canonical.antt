-- ===== src/Kraken/Canonical.antt =====
-- providers/kraken.py: `resolve_pair` of a canonical name.
use dropwatch.Base.{some, List, [], ◌∷◌, ◌++◌, String, All, ◌≡◌, ◌≢◌, refl, ◌∙◌, ok}
use dropwatch.Base.Dicts.{put_name, lookup_name, lookup-put_same, lookup-put_other}
use dropwatch.Kraken.Symbols.{
  PairInfo, AssetPairs, Named, Casing, currencies_of, by_canonical, find_match, resolve_symbol,
}

module _ (casing : Casing) where
  open casing use {strip, upper}

  lookup-by_canonical_after :
      (key : String) (after : AssetPairs) (d : List (String × Named))
      → All (λ item. upper item.0 ≢ key) after
      → lookup_name key (by_canonical casing after d) ≡ lookup_name key d
  unfolding by_canonical
  lookup-by_canonical_after key [] d h = refl
  lookup-by_canonical_after key ((name, info) ∷ rest) d (h, hs) =
      lookup-by_canonical_after key rest (put_name (upper name) (name, info) d) hs
      ∙ lookup-put_other (upper name) key (name, info) d h

  lookup-by_canonical :
      (name : String) (info : PairInfo) (before after : AssetPairs) (d : List (String × Named))
      → All (λ item. upper item.0 ≢ upper name) after
      → lookup_name (upper name) (by_canonical casing (before ++ (name, info) ∷ after) d)
        ≡ some (name, info)
  unfolding by_canonical
  lookup-by_canonical name info [] after d h =
      lookup-by_canonical_after (upper name) after (put_name (upper name) (name, info) d) h
      ∙ lookup-put_same (upper name) (name, info) d
  lookup-by_canonical name info ((other, o) ∷ before) after d h =
      lookup-by_canonical name info before after (put_name (upper other) (other, o) d) h

  -- The canonical name of an asset pair, in any spelling that is the same without blanks at the ends
  -- and in upper case, is resolved to that pair and its two currencies, unless a later asset pair has
  -- the same name in upper case.
  pub resolve_symbol-canonical :
      (name : String) (info : PairInfo) (before after : AssetPairs) (symbol base quote : String)
      → All (λ item. upper item.0 ≢ upper name) after
      → upper (strip symbol) ≡ upper name
      → currencies_of info ≡ ok (base, quote)
      → resolve_symbol casing (before ++ (name, info) ∷ after) symbol
        ≡ ok (record {
          canonical_name = name;
          display_name = strip symbol;
          base_currency = base;
          quote_currency = quote;
        })
  unfolding resolve_symbol find_match
  resolve_symbol-canonical name info before after symbol base quote last spelled currencies =
      rw
        (
          resolve_symbol,
          spelled,
          find_match,
          lookup-by_canonical name info before after [] last,
          currencies,
        )
        refl
