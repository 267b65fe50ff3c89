-- ===== src/Discovery/Hysteresis.antt =====
-- workers/discovery.py: the two floors, and what a run does with one market at a time.
use mathlib.Core.Path.{subst}
use text.Mathlib.TextEquality.{eq_iff}
use text.Mathlib.TextPositions.{eq_refl}
use dropwatch.Base.{
  Bool, true, false, not, ◌&&◌, ◌||◌, List, [], ◌∷◌, ◌++◌, map, String, ◌≡◌, refl, arith, any,
  any-append, All, All-append, ◌≢◌, ◌+◌, sym, Bool-cases, inl, inr, if◌then◌else◌, ◌∙◌,
}
use dropwatch.Decimal.{Decimal, leb_dec}
use dropwatch.Decimal.Order.{leb_dec_trans, not_ltb_dec_of_leb_dec}
use dropwatch.Settings.{Settings}
use dropwatch.Models.{Pair, Db}
use dropwatch.Discovery.{
  MarketSnapshot, notional_24h, is_named, next_active, refresh, new_pair, reaches_activate,
  below_deactivate, discover_one, run_discovery,
}

-- The keys of a snapshot are distinct, and each is the name in its item.
abbrev pub IsSnapshot : List (String × MarketSnapshot) → Type 0
IsSnapshot [] = Unit
IsSnapshot ((name, m) ∷ rest) =
    (m.canonical_name ≡ name) × All (λ item. name ≢ item.0) rest × IsSnapshot rest

module _ (settings : Settings)
    (floors : leb_dec settings.discovery_deactivate_floor_usd settings.discovery_activate_floor_usd
      ≡ true) where
  activate_clears :
      (n : Decimal) → reaches_activate settings n ≡ true → below_deactivate settings n ≡ false
  activate_clears n h = not_ltb_dec_of_leb_dec n settings.discovery_deactivate_floor_usd (
      leb_dec_trans settings.discovery_deactivate_floor_usd settings.discovery_activate_floor_usd n
        floors h)

  -- The decision on a volume, by the two floors.
  pub next_active_lem :
      (n : Decimal) (active : Bool)
      → next_active settings n active
        ≡ (reaches_activate settings n || (active && not (below_deactivate settings n)))
  unfolding next_active
  next_active_lem n active = elim (Bool-cases (reaches_activate settings n)) [
    | inl reaches ↦ rw (reaches, activate_clears n reaches) (ground arith)
    | inr short ↦ rw short (ground arith)
  ]

  -- A second decision on the same volume changes nothing.
  next_active-again :
      (n : Decimal) (active : Bool)
      → next_active settings n (next_active settings n active) ≡ next_active settings n active
  next_active-again n active = rw (next_active_lem n active, next_active_lem n) (ground arith)

  abbrev pub refreshed : String → MarketSnapshot → Pair → Pair
  refreshed name m p = if is_named name p then refresh settings m p else p

  -- An item of the snapshot that would change no row and add none.
  abbrev pub IsSettled : List Pair → String × MarketSnapshot → Type 0
  IsSettled pairs (name, m) =
      All (λ p. refreshed name m p ≡ p) pairs
      × ((any (is_named name) pairs || not (reaches_activate settings (notional_24h m))) ≡ true)

  map-settled :
      (name : String) (m : MarketSnapshot) (pairs : List Pair)
      → All (λ p. refreshed name m p ≡ p) pairs
      → map (refreshed name m) pairs ≡ pairs
  map-settled name m [] h = refl
  map-settled name m (p ∷ ps) h = λ i. h.0 i ∷ map-settled name m ps h.1 i

  discover_one-settled :
      (name : String) (m : MarketSnapshot) (db : Db)
      → IsSettled db.pairs (name, m)
      → discover_one settings name m db ≡ db
  unfolding discover_one
  discover_one-settled name m db (same, known) = elim (Bool-cases (any (is_named name) db.pairs)) [
    | inl tracked ↦ rw tracked (λ i. record db { pairs = map-settled name m db.pairs same i })
    | inr unknown ↦
        let low : reaches_activate settings (notional_24h m) ≡ false = ground arith in
        rw (unknown, low)
  ]

  refreshed-again :
      (name : String) (m : MarketSnapshot) (p : Pair)
      → refreshed name m (refreshed name m p) ≡ refreshed name m p
  refreshed-again name m p = elim (Bool-cases (is_named name p)) [
    | inl this ↦ rw (this, this, next_active-again)
    | inr other ↦ rw (other, other)
  ]

  map-refreshed-settled :
      (name : String) (m : MarketSnapshot) (pairs : List Pair)
      → All (λ p. refreshed name m p ≡ p) (map (refreshed name m) pairs)
  map-refreshed-settled name m [] = tt
  map-refreshed-settled name m (p ∷ ps) =
      (refreshed-again name m p, map-refreshed-settled name m ps)

  pub any-refreshed :
      (k name : String) (m : MarketSnapshot) (pairs : List Pair)
      → any (is_named k) (map (refreshed name m) pairs) ≡ any (is_named k) pairs
  any-refreshed k name m [] = refl
  any-refreshed k name m (p ∷ ps) = elim (Bool-cases (is_named name p)) [
    | inl this ↦ rw (this, any-refreshed k name m ps)
    | inr other ↦ rw (other, any-refreshed k name m ps)
  ]

  not-named-settled :
      (name : String) (m : MarketSnapshot) (pairs : List Pair)
      → any (is_named name) pairs ≡ false
      → All (λ p. refreshed name m p ≡ p) pairs
  not-named-settled name m [] h = tt
  not-named-settled name m (p ∷ ps) h =
      let other : is_named name p ≡ false = ground arith in
      (rw other, not-named-settled name m ps (ground arith))

  -- The three outcomes for one item.
  pub discover_tracked :
      (name : String) (m : MarketSnapshot) (db : Db)
      → any (is_named name) db.pairs ≡ true
      → record db { pairs = map (refreshed name m) db.pairs } ≡ discover_one settings name m db
  unfolding discover_one
  discover_tracked name m db tracked = rw tracked

  pub discover_new :
      (name : String) (m : MarketSnapshot) (db : Db)
      → any (is_named name) db.pairs ≡ false
      → reaches_activate settings (notional_24h m) ≡ true
      → record db { pairs = db.pairs ++ new_pair settings m db ∷ []; next_id = db.next_id + 1 }
        ≡ discover_one settings name m db
  unfolding discover_one
  discover_new name m db unknown reaches = rw (unknown, reaches)

  pub discover_low :
      (name : String) (m : MarketSnapshot) (db : Db)
      → any (is_named name) db.pairs ≡ false
      → reaches_activate settings (notional_24h m) ≡ false
      → db ≡ discover_one settings name m db
  unfolding discover_one
  discover_low name m db unknown low = rw (unknown, low)

  new_pair-settled :
      (k : String) (mk : MarketSnapshot) (m : MarketSnapshot) (db : Db)
      → (is_named k (new_pair settings m db) ≡ true → mk ≡ m)
      → reaches_activate settings (notional_24h m) ≡ true
      → refreshed k mk (new_pair settings m db) ≡ new_pair settings m db
  new_pair-settled k mk m db same reaches =
      elim (Bool-cases (is_named k (new_pair settings m db))) [
        | inr other ↦ rw other
        | inl this ↦
            rw (this, same this) (λ i. record (new_pair settings m db) { is_active = stays i })
      ]
    where
      stays : next_active settings (notional_24h m) true ≡ true
      stays = rw (next_active_lem, reaches)

  -- One item leaves itself settled.
  discover_one-settles :
      (name : String) (m : MarketSnapshot) (db : Db)
      → m.canonical_name ≡ name
      → IsSettled (discover_one settings name m db).pairs (name, m)
  discover_one-settles name m db e = elim (Bool-cases (any (is_named name) db.pairs)) [
    | inl tracked ↦
        subst (λ d. IsSettled d.pairs (name, m)) (discover_tracked name m db tracked)
          (map-refreshed-settled name m db.pairs, rw (any-refreshed name name m db.pairs, tracked))
    | inr unknown ↦ elim (Bool-cases (reaches_activate settings (notional_24h m))) [
      | inr low ↦
          subst (λ d. IsSettled d.pairs (name, m)) (discover_low name m db unknown low)
            (not-named-settled name m db.pairs unknown, ground arith)
      | inl reaches ↦
          subst (λ d. IsSettled d.pairs (name, m)) (discover_new name m db unknown reaches)
            (
              All-append _ db.pairs _ (not-named-settled name m db.pairs unknown)
                  (new_pair-settled name m m db (λ _. refl) reaches, tt),
              rw (any-append, unknown, e, eq_refl),
            )
    ]
  ]

  -- An item settled stays so while items of other names are handled.
  named_apart :
      (k name : String) (p : Pair) → is_named name p ≡ true → k ≢ name → is_named k p ≡ false
  named_apart k name p this ne = elim (Bool-cases (is_named k p)) [
    | inl both ↦
        absurd (
          ne (sym ((eq_iff p.kraken_pair_name k).0 both) ∙ (eq_iff p.kraken_pair_name name).0 this))
    | inr other ↦ other
  ]

  map-refreshed-keeps :
      (k : String) (mk : MarketSnapshot) (name : String) (m : MarketSnapshot) (ps : List Pair)
      → k ≢ name
      → All (λ p. refreshed k mk p ≡ p) ps
      → All (λ p. refreshed k mk p ≡ p) (map (refreshed name m) ps)
  map-refreshed-keeps k mk name m [] ne h = tt
  map-refreshed-keeps k mk name m (p ∷ ps) ne h = (one, map-refreshed-keeps k mk name m ps ne h.1)
    where
      one : refreshed k mk (refreshed name m p) ≡ refreshed name m p
      one = elim (Bool-cases (is_named name p)) [
        | inl this ↦ rw (this, named_apart k name p this ne)
        | inr other ↦ rw other h.0
      ]

  discover_one-keeps :
      (k : String) (mk : MarketSnapshot) (name : String) (m : MarketSnapshot) (db : Db)
      → m.canonical_name ≡ name
      → k ≢ name
      → IsSettled db.pairs (k, mk)
      → IsSettled (discover_one settings name m db).pairs (k, mk)
  discover_one-keeps k mk name m db e ne (same, known) =
      elim (Bool-cases (any (is_named name) db.pairs)) [
        | inl tracked ↦
            subst (λ d. IsSettled d.pairs (k, mk)) (discover_tracked name m db tracked)
              (
                map-refreshed-keeps k mk name m db.pairs ne same,
                rw (any-refreshed k name m db.pairs) known,
              )
        | inr unknown ↦ elim (Bool-cases (reaches_activate settings (notional_24h m))) [
          | inr low ↦
              subst (λ d. IsSettled d.pairs (k, mk)) (discover_low name m db unknown low)
                (same, known)
          | inl reaches ↦
              subst (λ d. IsSettled d.pairs (k, mk)) (discover_new name m db unknown reaches)
                (
                  All-append _ db.pairs _ same (
                    new_pair-settled k mk m db
                        (λ h. absurd (ne (sym ((eq_iff m.canonical_name k).0 h) ∙ e))) reaches,
                    tt,
                  ),
                  rw any-append (ground arith),
                )
        ]
      ]

  run_discovery-keeps :
      (k : String) (mk : MarketSnapshot) (snapshot : List (String × MarketSnapshot)) (db : Db)
      → IsSnapshot snapshot
      → All (λ item. k ≢ item.0) snapshot
      → IsSettled db.pairs (k, mk)
      → IsSettled (run_discovery settings snapshot db).pairs (k, mk)
  unfolding run_discovery
  run_discovery-keeps k mk [] db valid ne h = h
  run_discovery-keeps k mk ((name, m) ∷ rest) db (e, _, valid) ne h =
      run_discovery-keeps k mk rest (discover_one settings name m db) valid ne.1
        (discover_one-keeps k mk name m db e ne.0 h)

  pub run_discovery-settles :
      (snapshot : List (String × MarketSnapshot)) (db : Db)
      → IsSnapshot snapshot
      → All (λ item. IsSettled (run_discovery settings snapshot db).pairs item) snapshot
  unfolding run_discovery
  run_discovery-settles [] db valid = tt
  run_discovery-settles ((name, m) ∷ rest) db (e, ne, valid) = (
    run_discovery-keeps name m rest (discover_one settings name m db) valid ne
        (discover_one-settles name m db e),
    run_discovery-settles rest (discover_one settings name m db) valid,
  )

  run_discovery-settled :
      (snapshot : List (String × MarketSnapshot)) (db : Db)
      → All (λ item. IsSettled db.pairs item) snapshot
      → run_discovery settings snapshot db ≡ db
  unfolding run_discovery
  run_discovery-settled [] db h = refl
  run_discovery-settled ((name, m) ∷ rest) db h =
      rw (discover_one-settled name m db h.0) (run_discovery-settled rest db h.1)

  -- Where the deactivation floor is not above the activation floor, a second run on the same snapshot,
  -- whose keys are distinct and name their items, leaves the database as the first run left it.
  pub run_discovery-again :
      (snapshot : List (String × MarketSnapshot)) (db : Db)
      → IsSnapshot snapshot
      → run_discovery settings snapshot (run_discovery settings snapshot db)
        ≡ run_discovery settings snapshot db
  run_discovery-again snapshot db valid =
      run_discovery-settled snapshot (run_discovery settings snapshot db)
        (run_discovery-settles snapshot db valid)
