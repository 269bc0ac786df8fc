-- ===== src/ControlPlane/Artifacts/Compaction.antt =====
-- internal/controlplane/store.go: what `CompactEvents` takes out of a log.
use remote_dev_skillkit.Prelude.{
  ℕ, String, true, some, List, [], ◌≡◌, ◌≢◌, refl, ap, ◌∙◌, leb, keep, ℤ, get, get_or, get_or-put,
  put, arith, string_eq,
}
use remote_dev_skillkit.Exec.{ok}
use remote_dev_skillkit.ControlPlane.Session.{Session, Endpoint, Event}
use remote_dev_skillkit.ControlPlane.Store.{State, put_store}
use remote_dev_skillkit.ControlPlane.Events.{visible_events}
use remote_dev_skillkit.ControlPlane.Events.Paging.{visible_events-compacted}
use remote_dev_skillkit.ControlPlane.Artifacts.{compact_events}

-- The log of a session.
abbrev pub log_of : String → State → List Event
log_of session_id s = get_or session_id [] s.events

module _ (session_id : String) (session : Session) (snapshot_seq : ℕ) (s : State)
    (found : get session_id s.sessions ≡ some session) where
  compacted : (compact_events session_id snapshot_seq s).0 ≡ ok tt
  unfolding compact_events put_store
  compacted = rw found refl

  compact_events-events :
      (compact_events session_id snapshot_seq s).1.events
      ≡ put session_id (keep (λ e. leb snapshot_seq e.seq) (log_of session_id s)) s.events
  unfolding compact_events put_store
  compact_events-events = rw found refl

  compact_events-log :
      log_of session_id (compact_events session_id snapshot_seq s).1
      ≡ keep (λ e. leb snapshot_seq e.seq) (log_of session_id s)
  compact_events-log =
      ap (get_or session_id []) compact_events-events
      ∙ ground (
        arith,
        get_or-put session_id session_id []
            (keep (λ e. leb snapshot_seq e.seq) (log_of session_id s)) s.events,
      )

  -- Compacting the log of a session that is there succeeds and keeps of it, in their order, just the
  -- events from the snapshot on, which takes nothing from a reader whose cursor is not before the
  -- snapshot, whatever the reader's limit; the log of any other session stays.
  pub compact_events-readers :
      (other : String) (e : Endpoint) (after_seq : ℕ) (limit : ℤ)
      → session_id ≢ other
      → leb snapshot_seq after_seq ≡ true
      → let c = compact_events session_id snapshot_seq s in
        (c.0 ≡ ok tt)
        × (log_of session_id c.1 ≡ keep (λ x. leb snapshot_seq x.seq) (log_of session_id s))
        × (visible_events (log_of session_id c.1) e after_seq limit
            ≡ visible_events (log_of session_id s) e after_seq limit)
        × (log_of other c.1 ≡ log_of other s)
  compact_events-readers other e after_seq limit apart h = (
    compacted,
    compact_events-log,
    ap (λ l. visible_events l e after_seq limit) compact_events-log
        ∙ visible_events-compacted (log_of session_id s) e after_seq snapshot_seq limit h,
    ap (get_or other []) compact_events-events
        ∙ ground (
          arith,
          apart,
          get_or-put other session_id [] (keep (λ x. leb snapshot_seq x.seq) (log_of session_id s))
              s.events,
        ),
  )
