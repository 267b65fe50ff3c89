-- ===== src/Outbox/Ticks.antt =====
-- workers/outbox_publisher.py: the two ways in which `publish_pending` ends.
use dropwatch.Base.{
  ℕ, Bool, true, false, List, [], ◌∷◌, ◌≡◌, refl, ◌⊎◌, inl, inr, Result, ok, err, Error,
}
use dropwatch.Settings.{Settings}
use dropwatch.Models.{OutboxEvent, Db}
use dropwatch.Outbox.{Sns, get_due_events, publish_all, publish_due, publish_pending, settle}

module _ (settings : Settings) (now : ℕ) (sns : Sns) where
  settle-cases :
      (commits : Bool) (db : Db) (r : Result (Db × ℕ))
      → ((out : Db × ℕ) × (r ≡ ok out) × (settle settings now commits db r ≡ (ok out.1, out.0)))
        ⊎ ((e : Error) × (settle settings now commits db r ≡ (err e, db)))
  settle-cases true db (ok out) = inl (out, refl, refl)
  settle-cases false db (ok out) = inr (_, refl)
  settle-cases commits db (err e) = inr (e, refl)

  publish_due-cases :
      (commits : Bool) (due : List OutboxEvent) (db : Db)
      → ((out : Db × ℕ) × (publish_all settings now sns due db ≡ ok out)
          × (publish_due settings now sns commits due db ≡ (ok out.1, out.0)))
        ⊎ ((e : Error) × (publish_due settings now sns commits due db ≡ (err e, db)))
  unfolding publish_due publish_all
  publish_due-cases commits [] db = inl ((db, 0), refl, refl)
  publish_due-cases commits (e ∷ es) db =
      settle-cases commits db (publish_all settings now sns (e ∷ es) db)

  -- A tick returns what its loop gives, or raises and leaves the rows as they were.
  pub publish_pending-cases :
      (selected_at : ℕ) (commits : Bool) (db : Db)
      → ((out : Db × ℕ) × (publish_all settings now sns
              (get_due_events selected_at db.outbox_events)
              db
            ≡ ok out)
          × (publish_pending settings now selected_at sns commits db ≡ (ok out.1, out.0)))
        ⊎ ((e : Error) × (publish_pending settings now selected_at sns commits db ≡ (err e, db)))
  unfolding publish_pending
  publish_pending-cases selected_at commits db =
      publish_due-cases commits (get_due_events selected_at db.outbox_events) db
