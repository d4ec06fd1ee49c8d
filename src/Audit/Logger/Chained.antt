-- ===== src/Audit/Logger/Chained.antt =====
-- The records that the worker of solomon-core/src/audit/logger.rs sends back.
use project_solomon.Prelude.{List, [], ◌∷◌}
use project_solomon.Prelude.{ok, ◌≡◌, refl, ◌∙◌, arith}
use mathlib.Core.Path.{subst}
use project_solomon.Audit.Record.{AuditRecord, Library, recomputed}
use project_solomon.Audit.Chain.{verify_chain_with_initial_hash}
use project_solomon.Audit.Chain.Valid.{IsChained, verify_chain_iff}
use project_solomon.Audit.Logger.{
  World, Event, Worker, Node, Command, log, flush_all, rotate, spill,
}
use project_solomon.Audit.Logger.{record_of, reconnect, write_record, log_event, flush}
use project_solomon.Audit.Logger.{background_worker}

module _ {F : Type 0} (lib : Library F) (node : Node) where
  last_hash-rotate : (w : World) (s : Worker F) → (rotate lib node w s).last_hash ≡ s.last_hash
  unfolding rotate
  last_hash-rotate w s = ground arith

  last_hash-spill :
      (r : AuditRecord F) (s : Worker F) → (spill lib node r s).last_hash ≡ s.last_hash
  unfolding spill
  last_hash-spill r s = ground arith

  last_hash-write :
      (w : World) (r : AuditRecord F) (s : Worker F)
      → (write_record lib node w r s).last_hash ≡ s.last_hash
  unfolding write_record
  last_hash-write w r s = ground arith

  last_hash-reconnect :
      (w : World) (s : Worker F) → (reconnect lib node w s).last_hash ≡ s.last_hash
  unfolding reconnect
  last_hash-reconnect w s = ground arith

  last_hash-flush : (w : World) (s : Worker F) → (flush lib node w s).last_hash ≡ s.last_hash
  unfolding flush
  last_hash-flush w s = ground arith

  previous-log_event :
      (w : World) (e : Event F) (s : Worker F)
      → (log_event lib node w e s).1.previous_hash ≡ s.last_hash
  unfolding log_event
  previous-log_event w e s = last_hash-rotate w s

  current-log_event :
      (w : World) (e : Event F) (s : Worker F)
      → (log_event lib node w e s).1.current_hash ≡ recomputed lib (log_event lib node w e s).1
  unfolding log_event recomputed
  current-log_event w e s = refl

  last_hash-log_event :
      (w : World) (e : Event F) (s : Worker F)
      → (log_event lib node w e s).0.last_hash ≡ (log_event lib node w e s).1.current_hash
  unfolding log_event
  last_hash-log_event w e s =
      let s1 : Worker F = rotate lib node w s in
      let r : AuditRecord F = record_of lib node w e s1.last_hash in
      let s2 : Worker F = record s1 { last_hash = r.current_hash } in
      last_hash-write w r (reconnect lib node w s2) ∙ last_hash-reconnect w s2

  worker-IsChained :
      (cs : List (World × Command F)) (s : Worker F)
      → IsChained lib s.last_hash (background_worker lib node cs s).1
  unfolding background_worker
  worker-IsChained [] s = tt
  worker-IsChained ((w, log e) ∷ rest) s = (
    previous-log_event w e s,
    current-log_event w e s,
    rw (← last_hash-log_event w e s) (worker-IsChained rest (log_event lib node w e s).0),
  )
  worker-IsChained ((w, flush_all) ∷ rest) s =
      subst (λ h. IsChained lib h (background_worker lib node rest (flush lib node w s)).1)
        (last_hash-flush w s) (worker-IsChained rest (flush lib node w s))

  -- Whatever the clock and the disk do, and however rotations and flushes fall between the events, the
  -- records that the worker sends back pass `verify_chain_with_initial_hash` from its first hash.
  pub background_worker_verifies :
      (cs : List (World × Command F)) (s : Worker F)
      → verify_chain_with_initial_hash lib (background_worker lib node cs s).1 s.last_hash ≡ ok tt
  background_worker_verifies cs s = (verify_chain_iff lib _ s.last_hash).1 (worker-IsChained cs s)
