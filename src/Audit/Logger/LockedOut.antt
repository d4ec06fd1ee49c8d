-- ===== src/Audit/Logger/LockedOut.antt =====
-- A day whose segment does not open, in solomon-core/src/audit/logger.rs: the reconnect tries the first
-- segment, which a rotation has made read-only.
use project_solomon.Prelude.{
  ℕ, ◌+◌, ◌/◌, Bool, true, false, ltb, List, [], ◌∷◌, Option, none, some, All, if◌then◌else◌,
}
use project_solomon.Prelude.{length, length-append, Bool-cases, inl, inr}
use project_solomon.Prelude.{◌≡◌, refl, ap, sym, ◌∙◌, arith}
use mathlib.Core.Path.{subst}
use project_solomon.Calendar.{Date, days_to_ymd}
use project_solomon.Audit.Record.{AuditRecord, Library}
use project_solomon.Audit.Logger.{
  World, Event, Worker, Node, Command, log, flush_all, same_date, is_in, try_open_file,
}
use project_solomon.Audit.Logger.{
  rotate, lock_segment, record_of, reconnect, spill, write_to, write_record, log_event, flush,
}
use project_solomon.Audit.Logger.{background_worker, max_spillover_capacity}
use project_solomon.Audit.Logger.Kept.{record_lines, record_lines-write_seal}

-- The date of the clock.
abbrev pub today : World → Date
today w = days_to_ymd (w.now_secs / 86400)

at_none :
    {B : Type 0} (o : Option Date) (x : B) (f : Date → B)
    → o ≡ none
    → (elim o [ none ↦ x | some p ↦ f p ]) ≡ x
at_none none x f h = refl
at_none (some p) x f h = cc

module _ {F : Type 0} (lib : Library F) (node : Node) where
  -- How many records are in memory or dropped.
  abbrev pub off_disk : Worker F → ℕ
  off_disk s = length s.spillover + s.dropped

  record LockedOut (day : Date) (s : Worker F) : Type 0 where
    closed : s.file_opt ≡ none
    locked : is_in s.log_path s.read_only ≡ true
    current : s.current_segment_date ≡ day

  refused :
      (lets : Bool) (read_only : List Date) (path : Date)
      → node.overrides_permissions ≡ false
      → is_in path read_only ≡ true
      → try_open_file lib node lets read_only path ≡ false
  unfolding try_open_file
  refused true read_only path o h = rw (o, h) refl
  refused false read_only path o h = refl

  off_disk-spill :
      (r : AuditRecord F) (s : Worker F) → off_disk (spill lib node r s) ≡ off_disk s + 1
  unfolding spill
  off_disk-spill r s = ground (arith, length-append s.spillover (r ∷ []))

  written-spill : (r : AuditRecord F) (s : Worker F) → (spill lib node r s).written ≡ s.written
  unfolding spill
  written-spill r s = ground arith

  LockedOut-spill :
      (day : Date) (r : AuditRecord F) (s : Worker F)
      → LockedOut day s
      → LockedOut day (spill lib node r s)
  unfolding spill
  LockedOut-spill day r s h = elim (Bool-cases (ltb (length s.spillover) max_spillover_capacity)) [
    | inl e ↦ rw e (record { closed = h.closed; locked = h.locked; current = h.current })
    | inr e ↦ rw e (record { closed = h.closed; locked = h.locked; current = h.current })
  ]

  reconnect_refused :
      (w : World) (s : Worker F)
      → node.overrides_permissions ≡ false
      → s.file_opt ≡ none
      → is_in s.log_path s.read_only ≡ true
      → reconnect lib node w s ≡ s
  unfolding reconnect
  reconnect_refused w s o e h =
      at_none s.file_opt _ (λ p. s) e
      ∙ ap (λ t. if t then record s { file_opt = some s.log_path; worker_healthy = true } else s)
          (refused w.reopens s.read_only s.log_path o h)

  without_file :
      (w : World) (s : Worker F) (r : AuditRecord F)
      → s.file_opt ≡ none
      → write_record lib node w r s ≡ spill lib node r s
  unfolding write_record
  without_file w s r e = at_none s.file_opt _ (λ p. write_to lib node w r p s) e

  -- The record goes to memory.
  written_behind :
      (w : World) (s : Worker F) (r : AuditRecord F)
      → node.overrides_permissions ≡ false
      → s.file_opt ≡ none
      → is_in s.log_path s.read_only ≡ true
      → write_record lib node w r (reconnect lib node w s) ≡ spill lib node r s
  written_behind w s r o e h =
      ap (λ t. write_record lib node w r t) (reconnect_refused w s o e h) ∙ without_file w s r e

  log_event-LockedOut :
      (day : Date) (w : World) (e : Event F) (s : Worker F)
      → node.overrides_permissions ≡ false
      → same_date (today w) day ≡ true
      → LockedOut day s
      → log_event lib node w e s ≡ (
        spill lib node
            (record_of lib node w e s.last_hash)
            (record s { last_hash = (record_of lib node w e s.last_hash).current_hash }),
        record_of lib node w e s.last_hash,
      )
  unfolding log_event rotate
  log_event-LockedOut day w e s o d h =
      let same : same_date (today w) s.current_segment_date ≡ true = rw h.current d in
      rw same (
        ap (λ t. (t, record_of lib node w e s.last_hash))
          (written_behind w
            (record s { last_hash = (record_of lib node w e s.last_hash).current_hash })
            (record_of lib node w e s.last_hash) o h.closed h.locked))

  flush-LockedOut : (w : World) (s : Worker F) → s.file_opt ≡ none → flush lib node w s ≡ s
  unfolding flush
  flush-LockedOut w s e = at_none s.file_opt s _ e

  abbrev pub AllOn : Date → List (World × Command F) → Type 0
  AllOn day cs = All (λ c. same_date (today c.0) day ≡ true) cs

  -- Nothing is written, and every record is off the disk.
  abbrev Silent : Worker F → Worker F → List (AuditRecord F) → Type 0
  Silent s t rs =
      (t.written ≡ s.written) × (t.file_opt ≡ none) × (off_disk t ≡ off_disk s + length rs)

  worker-Silent :
      (day : Date) (cs : List (World × Command F)) (s : Worker F)
      → node.overrides_permissions ≡ false
      → AllOn day cs
      → LockedOut day s
      → Silent s (background_worker lib node cs s).0 (background_worker lib node cs s).1
  unfolding background_worker
  worker-Silent day [] s o a h = (refl, h.closed, omega arith)
  worker-Silent day ((w, log e) ∷ rest) s o (d, a) h =
      let r : AuditRecord F = record_of lib node w e s.last_hash in
      let s1 : Worker F = record s { last_hash = r.current_hash } in
      let h1 : LockedOut day s1 = record {
        closed = h.closed;
        locked = h.locked;
        current = h.current;
      } in
      let t : Worker F = spill lib node r s1 in
      let step : log_event lib node w e s ≡ (t, r) = log_event-LockedOut day w e s o d h in
      let (p, q, c) = worker-Silent day rest t o a (LockedOut-spill day r s1 h1) in
      subst
        (λ u.
          Silent s (background_worker lib node rest u.0).0
            (u.1 ∷ (background_worker lib node rest u.0).1))
        (sym step) (p ∙ written-spill r s1, q, omega (arith, c, off_disk-spill r s1))
  worker-Silent day ((w, flush_all) ∷ rest) s o (d, a) h =
      subst
        (λ u. Silent s (background_worker lib node rest u).0 (background_worker lib node rest u).1)
        (sym (flush-LockedOut w s h.closed)) (worker-Silent day rest s o a h)

  LockedOut-rotate :
      (w : World) (s : Worker F)
      → node.overrides_permissions ≡ false
      → same_date (today w) s.current_segment_date ≡ false
      → w.locks ≡ true
      → w.new_opens ≡ false
      → is_in s.log_path (s.current_segment_date ∷ s.read_only) ≡ true
      → LockedOut (today w) (rotate lib node w s)
  unfolding rotate lock_segment try_open_file
  LockedOut-rotate w s o d l n h =
      rw (d, l, n) (record { closed = refl; locked = h; current = refl })

  off_disk-rotate : (w : World) (s : Worker F) → off_disk (rotate lib node w s) ≡ off_disk s
  unfolding rotate
  off_disk-rotate w s = ground arith

  same_date_refl : (d : Date) → same_date d d ≡ true
  unfolding same_date
  same_date_refl (y, m, d) = ground arith

  rotate-same :
      (w : World) (s : Worker F)
      → same_date (today w) s.current_segment_date ≡ true
      → rotate lib node w s ≡ s
  unfolding rotate
  rotate-same w s d = rw d refl

  -- An event after the rotation that it would have made is the event before it.
  log_event-rotated :
      (w : World) (e : Event F) (s : Worker F)
      → same_date (today w) (rotate lib node w s).current_segment_date ≡ true
      → log_event lib node w e (rotate lib node w s) ≡ log_event lib node w e s
  unfolding log_event
  log_event-rotated w e s d =
      ap
        (λ (s1 : Worker F).
          let r : AuditRecord F = record_of lib node w e s1.last_hash in
          (
            write_record lib node w r
                (reconnect lib node w (record s1 { last_hash = r.current_hash })),
            r,
          ))
        (rotate-same w (rotate lib node w s) d)

  -- When a rotation locks the old segment and the new one does not open, and the process may not write
  -- read-only files, then no record reaches the disk in any run of that day, also when the file system
  -- would let the reconnect succeed: each record that is sent back is in memory or counted as dropped.
  -- The first segment is read-only by then, or is the one that is locked.
  pub background_worker-locked_out :
      (w : World) (e : Event F) (cs : List (World × Command F)) (s : Worker F)
      → node.overrides_permissions ≡ false
      → same_date (today w) s.current_segment_date ≡ false
      → w.locks ≡ true
      → w.new_opens ≡ false
      → is_in s.log_path (s.current_segment_date ∷ s.read_only) ≡ true
      → AllOn (today w) cs
      → let (t, rs) = background_worker lib node ((w, log e) ∷ cs) s in
        (record_lines t.written ≡ record_lines s.written)
        × (length t.spillover + t.dropped ≡ length s.spillover + s.dropped + length rs)
  unfolding background_worker
  background_worker-locked_out w e cs s o d l n h a =
      let s1 : Worker F = rotate lib node w s in
      let out : LockedOut (today w) s1 = LockedOut-rotate w s o d l n h in
      let (p, q, c) =
        worker-Silent (today w) ((w, log e) ∷ cs) s1 o (same_date_refl (today w), a) out in
      let again : log_event lib node w e s1 ≡ log_event lib node w e s =
        log_event-rotated w e s (rw out.current (same_date_refl (today w))) in
      let (p', c') =
        subst
          (λ u.
            ((background_worker lib node cs u.0).0.written ≡ s1.written)
            × (off_disk (background_worker lib node cs u.0).0
                ≡ off_disk s1 + length (u.1 ∷ (background_worker lib node cs u.0).1)))
          again (p, c) in
      (
        ap (λ t. record_lines t) p' ∙ record_lines-write_seal lib node w s,
        c'
            ∙ ap (λ t. t + length (background_worker lib node ((w, log e) ∷ cs) s).1)
                (off_disk-rotate w s),
      )
