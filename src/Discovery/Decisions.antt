-- ===== src/Discovery/Decisions.antt =====
-- workers/discovery.py: the table of pairs after a run, against the two floors.
use mathlib.Core.Path.{subst}
use text.Mathlib.TextEquality.{eq_iff}
use text.Mathlib.TextPositions.{eq_refl}
use dropwatch.Base.{
  true, false, not, ◌&&◌, ◌||◌, Option, none, some, List, [], ◌∷◌, ◌++◌, map, String, ◌≡◌, refl,
  sym, ◌∙◌, ap, any, any-append, ◌+◌, arith, All, All-map, All-any, ◌≢◌, Bool-cases, inl, inr,
  if◌then◌else◌,
}
use mathlib.Core.List.{append_assoc, map-append}
use dropwatch.Decimal.{leb_dec}
use dropwatch.Settings.{Settings}
use dropwatch.Models.{Pair, Db}
use dropwatch.Discovery.{
  MarketSnapshot, notional_24h, is_named, new_pair, refresh, reaches_activate, below_deactivate,
  discover_one, run_discovery,
}
use dropwatch.Discovery.Hysteresis.{
  IsSnapshot, refreshed, next_active_lem, any-refreshed, discover_tracked, discover_new,
  discover_low, run_discovery-settles,
}

-- The market of the snapshot that a row is of.
unfoldable pub market_of : List (String × MarketSnapshot) → Pair → Option MarketSnapshot
market_of [] p = none
market_of ((name, m) ∷ rest) p =
    let later = market_of rest p in if is_named name p then some m else later

module _ (settings : Settings) where
  -- A tracked row after a run: without a market it is as it was; with one it has the market's volume,
  -- and is active exactly if the volume reaches the activation floor, or the row was active and the
  -- volume is not below the deactivation floor.
  abbrev pub decided : Option MarketSnapshot → Pair → Pair
  decided none p = p
  decided (some m) p = record p {
    notional_24h = some (notional_24h m);
    is_active =
        reaches_activate settings (notional_24h m)
        || (p.is_active && not (below_deactivate settings (notional_24h m)));
  }

  -- A row that a run has added for a market of the snapshot that was not tracked in `known`.
  pub record IsNewcomer (snapshot : List (String × MarketSnapshot)) (known : List Pair) (p : Pair)
      : Type 0 where
    pub market : MarketSnapshot
    pub named : market_of snapshot p ≡ some market
    pub reaches : reaches_activate settings (notional_24h market) ≡ true
    pub active : p.is_active ≡ true
    pub volume : p.notional_24h ≡ some (notional_24h market)
    pub unknown : any (is_named p.kraken_pair_name) known ≡ false

market_of-apart :
    (name : String) (p : Pair) (rest : List (String × MarketSnapshot))
    → is_named name p ≡ true
    → All (λ item. name ≢ item.0) rest
    → market_of rest p ≡ none
unfolding market_of
market_of-apart name p [] this ne = refl
market_of-apart name p ((k, m) ∷ rest) this ne = elim (Bool-cases (is_named k p)) [
  | inl both ↦
      absurd (
        ne.0 (sym ((eq_iff p.kraken_pair_name name).0 this) ∙ (eq_iff p.kraken_pair_name k).0 both))
  | inr other ↦ rw other (market_of-apart name p rest this ne.1)
]

module _ (settings : Settings)
    (floors : leb_dec settings.discovery_deactivate_floor_usd settings.discovery_activate_floor_usd
      ≡ true) where
  -- What the rest of a run makes of a row that one item has been handled for.
  decided-refreshed :
      (name : String) (m : MarketSnapshot) (rest : List (String × MarketSnapshot)) (p : Pair)
      → All (λ item. name ≢ item.0) rest
      → decided settings
          (market_of rest (refreshed settings floors name m p))
          (refreshed settings floors name m p)
        ≡ decided settings (market_of ((name, m) ∷ rest) p) p
  unfolding market_of
  decided-refreshed name m rest p ne = elim (Bool-cases (is_named name p)) [
    | inr other ↦ rw other refl
    | inl this ↦
        let none_left = market_of-apart name (refresh settings m p) rest this ne in
        rw (this, none_left, next_active_lem settings floors) refl
  ]

  map-decided-refreshed :
      (name : String) (m : MarketSnapshot) (rest : List (String × MarketSnapshot)) (ps : List Pair)
      → All (λ item. name ≢ item.0) rest
      → map (λ p. decided settings (market_of rest p) p) (map (refreshed settings floors name m) ps)
        ≡ map (λ p. decided settings (market_of ((name, m) ∷ rest) p) p) ps
  map-decided-refreshed name m rest [] ne = refl
  map-decided-refreshed name m rest (p ∷ ps) ne =
      λ i. decided-refreshed name m rest p ne i ∷ map-decided-refreshed name m rest ps ne i

  -- A market of which no row is tracked decides nothing.
  map-decided-unknown :
      (name : String) (m : MarketSnapshot) (rest : List (String × MarketSnapshot)) (ps : List Pair)
      → All (λ p. is_named name p ≡ false) ps
      → map (λ p. decided settings (market_of rest p) p) ps
        ≡ map (λ p. decided settings (market_of ((name, m) ∷ rest) p) p) ps
  unfolding market_of
  map-decided-unknown name m rest [] h = refl
  map-decided-unknown name m rest (p ∷ ps) h =
      let same : market_of rest p ≡ market_of ((name, m) ∷ rest) p = rw h.0 refl in
      λ i. decided settings (same i) p ∷ map-decided-unknown name m rest ps h.1 i

  -- What is added for a later market is new before the earlier one too.
  IsNewcomer-earlier :
      (name : String) (m : MarketSnapshot) (rest : List (String × MarketSnapshot))
      (known later : List Pair) (p : Pair)
      → All (λ item. name ≢ item.0) rest
      → (any (is_named p.kraken_pair_name) later ≡ false
          → any (is_named p.kraken_pair_name) known ≡ false)
      → IsNewcomer settings rest later p
      → IsNewcomer settings ((name, m) ∷ rest) known p
  unfolding market_of
  IsNewcomer-earlier name m rest known later p ne before n = record {
    market = n.market;
    named = elim (Bool-cases (is_named name p)) [
      | inl this ↦ absurd (cc (sym (market_of-apart name p rest this ne) ∙ n.named))
      | inr other ↦ rw other n.named
    ];
    reaches = n.reaches;
    active = n.active;
    volume = n.volume;
    unknown = before n.unknown;
  }

  -- What a run from `db` to `out` has decided.
  pub record RunsTo (snapshot : List (String × MarketSnapshot)) (db out : Db) : Type 0 where
    pub added : List Pair
    pub rows : out.pairs ≡ map (λ p. decided settings (market_of snapshot p) p) db.pairs ++ added
    pub newcomers : All (IsNewcomer settings snapshot db.pairs) added

  decides_tracked :
      (name : String) (m : MarketSnapshot) (rest : List (String × MarketSnapshot)) (db out : Db)
      → All (λ item. name ≢ item.0) rest
      → RunsTo rest (record db { pairs = map (refreshed settings floors name m) db.pairs }) out
      → RunsTo ((name, m) ∷ rest) db out
  decides_tracked name m rest db out ne d = record {
    added = d.added;
    rows = d.rows ∙ ap (λ l. l ++ d.added) (map-decided-refreshed name m rest db.pairs ne);
    newcomers =
        All-map
          (λ p n.
            IsNewcomer-earlier name m rest db.pairs _ p ne
              (λ h. sym (any-refreshed settings floors p.kraken_pair_name name m db.pairs) ∙ h) n)
          d.added d.newcomers;
  }

  decides_low :
      (name : String) (m : MarketSnapshot) (rest : List (String × MarketSnapshot)) (db out : Db)
      → All (λ item. name ≢ item.0) rest
      → any (is_named name) db.pairs ≡ false
      → RunsTo rest db out
      → RunsTo ((name, m) ∷ rest) db out
  decides_low name m rest db out ne unknown d = record {
    added = d.added;
    rows =
        d.rows
        ∙ ap (λ l. l ++ d.added)
            (map-decided-unknown name m rest db.pairs (All-any (is_named name) db.pairs unknown));
    newcomers =
        All-map (λ p n. IsNewcomer-earlier name m rest db.pairs db.pairs p ne (λ h. h) n) d.added
          d.newcomers;
  }

  decides_new :
      (name : String) (m : MarketSnapshot) (rest : List (String × MarketSnapshot)) (db out : Db)
      → m.canonical_name ≡ name
      → All (λ item. name ≢ item.0) rest
      → any (is_named name) db.pairs ≡ false
      → reaches_activate settings (notional_24h m) ≡ true
      → RunsTo rest
          (record db { pairs = db.pairs ++ new_pair settings m db ∷ []; next_id = db.next_id + 1 })
          out
      → RunsTo ((name, m) ∷ rest) db out
  unfolding market_of
  decides_new name m rest db out e ne unknown reaches d = record {
    added = p ∷ d.added;
    rows =
        d.rows
        ∙ ap (λ l. l ++ d.added)
            (map-append (λ q. decided settings (market_of rest q) q) db.pairs (p ∷ []) ∙ (λ i.
              map-decided-unknown name m rest db.pairs (All-any (is_named name) db.pairs unknown) i
              ++ kept i ∷ []))
        ∙ append_assoc _ (p ∷ []) d.added;
    newcomers = (
      record {
        market = m;
        named = rw named refl;
        reaches = reaches;
        active = refl;
        volume = refl;
        unknown = subst (λ n. any (is_named n) db.pairs ≡ false) (sym e) unknown;
      },
      All-map (λ q n. IsNewcomer-earlier name m rest db.pairs _ q ne (λ h. shorter q h) n) d.added
          d.newcomers,
    );
  }
    where
      p : Pair
      p = new_pair settings m db

      named : is_named name p ≡ true
      named = rw (e, eq_refl) refl

      kept : decided settings (market_of rest p) p ≡ p
      kept = rw (market_of-apart name p rest named ne) refl

      shorter :
          (q : Pair)
          → any (is_named q.kraken_pair_name) (db.pairs ++ p ∷ []) ≡ false
          → any (is_named q.kraken_pair_name) db.pairs ≡ false
      shorter q h =
          let split = any-append (is_named q.kraken_pair_name) db.pairs (p ∷ []) in ground arith

  run_discovery-RunsTo :
      (snapshot : List (String × MarketSnapshot)) (db : Db)
      → IsSnapshot snapshot
      → RunsTo snapshot db (run_discovery settings snapshot db)
  unfolding run_discovery market_of
  run_discovery-RunsTo [] db valid = record {
    added = [];
    rows = sym (map-kept db.pairs);
    newcomers = tt;
  }
    where
      map-kept : (ps : List Pair) → map (λ p. decided settings (market_of [] p) p) ps ++ [] ≡ ps
      map-kept [] = refl
      map-kept (p ∷ ps) = λ i. p ∷ map-kept ps i
  run_discovery-RunsTo ((name, m) ∷ rest) db (e, ne, valid) =
      let d = run_discovery-RunsTo rest (discover_one settings name m db) valid in
      elim (Bool-cases (any (is_named name) db.pairs)) [
        | inl tracked ↦ decides_tracked name m rest db _ ne (
            subst
              (λ x. RunsTo rest x (run_discovery settings rest (discover_one settings name m db)))
              (sym (discover_tracked settings floors name m db tracked)) d)
        | inr unknown ↦ elim (Bool-cases (reaches_activate settings (notional_24h m))) [
          | inr low ↦ decides_low name m rest db _ ne unknown (
              subst
                (λ x. RunsTo rest x (run_discovery settings rest (discover_one settings name m db)))
                (sym (discover_low settings floors name m db unknown low)) d)
          | inl reaches ↦ decides_new name m rest db _ e ne unknown reaches (
              subst
                (λ x. RunsTo rest x (run_discovery settings rest (discover_one settings name m db)))
                (sym (discover_new settings floors name m db unknown reaches)) d)
        ]
      ]

  -- Where the deactivation floor is not above the activation floor, a run on a snapshot whose keys are
  -- distinct and name their items leaves every tracked pair in its place, with the market's volume if
  -- there is one, and active then exactly if the volume reaches the activation floor, or the pair was
  -- active and the volume is not below the deactivation floor. The other rows after it are active, each
  -- for a market that was not tracked and reaches the activation floor; and every market that reaches
  -- it is tracked.
  pub run_discovery-decides :
      (snapshot : List (String × MarketSnapshot)) (db : Db)
      → IsSnapshot snapshot
      → RunsTo snapshot db (run_discovery settings snapshot db)
        × All
            (λ item.
              (any (is_named item.0) (run_discovery settings snapshot db).pairs
                || not (reaches_activate settings (notional_24h item.1)))
              ≡ true)
            snapshot
  run_discovery-decides snapshot db valid = (
    run_discovery-RunsTo snapshot db valid,
    All-map (λ item settled. settled.1) snapshot
        (run_discovery-settles settings floors snapshot db valid),
  )
