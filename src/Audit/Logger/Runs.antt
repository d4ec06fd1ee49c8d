-- ===== src/Audit/Logger/Runs.antt =====
-- Whole runs of the worker of solomon-core/src/audit/logger.rs: nothing is lost in silence while open
-- files work, the memory stays bounded, and where that fails.
use project_solomon.Prelude.{◌≤◌, List, [], ◌∷◌, ◌++◌}
use project_solomon.Prelude.{length, length-append, append_assoc, append-nil}
use project_solomon.Prelude.{◌≡◌, sym, ap, ap₂, ◌∙◌, arith, inl, inr, All}
use project_solomon.Audit.Record.{AuditRecord, Library}
use project_solomon.Audit.Logger.{
  World, Event, Worker, Node, Command, log, flush_all, rotate, spill,
}
use project_solomon.Audit.Logger.{max_spillover_capacity}
use project_solomon.Audit.Logger.{record_of, reconnect, write_record, log_event, flush}
use project_solomon.Audit.Logger.{background_worker}
use project_solomon.Audit.Logger.Kept.{Works, kept, record_lines-write_seal}
use project_solomon.Audit.Logger.Kept.{
  spillover-rotate, kept-reconnect, kept-flush, Kept-write_record, Kept,
}

module _ {F : Type 0} (lib : Library F) (node : Node) where
  kept-rotate : (w : World) (s : Worker F) → kept lib node (rotate lib node w s) ≡ kept lib node s
  kept-rotate w s =
      ap₂ (λ xs ys. xs ++ ys) (record_lines-write_seal lib node w s) (spillover-rotate lib node w s)

  dropped-rotate : (w : World) (s : Worker F) → (rotate lib node w s).dropped ≡ s.dropped
  unfolding rotate
  dropped-rotate w s = ground arith

  dropped-reconnect : (w : World) (s : Worker F) → (reconnect lib node w s).dropped ≡ s.dropped
  unfolding reconnect
  dropped-reconnect w s = ground arith

  dropped-flush : (w : World) (s : Worker F) → (flush lib node w s).dropped ≡ s.dropped
  unfolding flush
  dropped-flush w s = ground arith

  Kept-log_event :
      (w : World) (e : Event F) (s : Worker F)
      → Works w
      → Kept lib node s (log_event lib node w e s).1 (log_event lib node w e s).0
  unfolding log_event
  Kept-log_event w e s h =
      let s1 : Worker F = rotate lib node w s in
      let r : AuditRecord F = record_of lib node w e s1.last_hash in
      let s2 : Worker F = record s1 { last_hash = r.current_hash } in
      let s3 : Worker F = reconnect lib node w s2 in
      let same : kept lib node s3 ≡ kept lib node s =
        kept-reconnect lib node w s2 ∙ kept-rotate w s in
      let count : s3.dropped ≡ s.dropped = dropped-reconnect w s2 ∙ dropped-rotate w s in
      elim (Kept-write_record lib node w r s3 h) [
        | inl (k, d) ↦ inl (k ∙ ap (λ t. t ++ (r ∷ [])) same, d ∙ count)
        | inr lost ↦ inr (omega (arith, count))
      ]

  abbrev pub AllWork : List (World × Command F) → Type 0
  AllWork cs = All (λ c. Works c.0) cs

  dropped-le :
      (cs : List (World × Command F)) (s : Worker F)
      → AllWork cs
      → s.dropped ≤ (background_worker lib node cs s).0.dropped
  unfolding background_worker
  dropped-le [] s h = omega arith
  dropped-le ((w, log e) ∷ rest) s (h, hs) = elim (Kept-log_event w e s h) [
    | inl (k, d) ↦ omega (arith, d, dropped-le rest (log_event lib node w e s).0 hs)
    | inr lost ↦ omega (arith, dropped-le rest (log_event lib node w e s).0 hs)
  ]
  dropped-le ((w, flush_all) ∷ rest) s (h, hs) =
      omega (arith, dropped-flush w s, dropped-le rest (flush lib node w s) hs)

  -- As long as an open file takes what is written to it, and unless the count of dropped records went
  -- up, the records on disk and then those in memory are the ones before the run followed by those
  -- that were sent back, each once and in order. Files may refuse to open, and days may change.
  pub background_worker_keeps :
      (cs : List (World × Command F)) (s : Worker F)
      → AllWork cs
      → (background_worker lib node cs s).0.dropped ≡ s.dropped
      → kept lib node (background_worker lib node cs s).0
        ≡ kept lib node s ++ (background_worker lib node cs s).1
  unfolding background_worker
  background_worker_keeps [] s h d = sym (append-nil (kept lib node s))
  background_worker_keeps ((w, log e) ∷ rest) s (h, hs) d =
      let t : Worker F = (log_event lib node w e s).0 in
      let r : AuditRecord F = (log_event lib node w e s).1 in
      let rs : List (AuditRecord F) = (background_worker lib node rest t).1 in
      elim (Kept-log_event w e s h) [
        | inl (k, c) ↦
            background_worker_keeps rest t hs (d ∙ sym c)
            ∙ ap (λ xs. xs ++ rs) k
            ∙ append_assoc (kept lib node s) (r ∷ []) rs
        | inr lost ↦ absurd (omega (arith, d, dropped-le rest t hs))
      ]
  background_worker_keeps ((w, flush_all) ∷ rest) s (h, hs) d =
      background_worker_keeps rest (flush lib node w s) hs (d ∙ sym (dropped-flush w s))
      ∙ ap (λ xs. xs ++ (background_worker lib node rest (flush lib node w s)).1)
          (kept-flush lib node w s h)

  abbrev pub IsBounded : Worker F → Type 0
  IsBounded s = length s.spillover ≤ max_spillover_capacity

  spill-IsBounded :
      (r : AuditRecord F) (s : Worker F) → IsBounded s → IsBounded (spill lib node r s)
  unfolding spill
  spill-IsBounded r s h = ground (arith, length-append s.spillover (r ∷ []))

  write_record-IsBounded :
      (w : World) (r : AuditRecord F) (s : Worker F)
      → IsBounded s
      → IsBounded (write_record lib node w r s)
  unfolding write_record spill
  write_record-IsBounded w r s h = ground (arith, length-append s.spillover (r ∷ []))

  reconnect-IsBounded :
      (w : World) (s : Worker F) → IsBounded s → IsBounded (reconnect lib node w s)
  unfolding reconnect
  reconnect-IsBounded w s h = ground arith

  log_event-IsBounded :
      (w : World) (e : Event F) (s : Worker F)
      → IsBounded s
      → IsBounded (log_event lib node w e s).0
  unfolding log_event
  log_event-IsBounded w e s h =
      let s1 : Worker F = rotate lib node w s in
      let r : AuditRecord F = record_of lib node w e s1.last_hash in
      let s2 : Worker F = record s1 { last_hash = r.current_hash } in
      let b : IsBounded s2 = omega (arith, ap (λ xs. length xs) (spillover-rotate lib node w s)) in
      write_record-IsBounded w r (reconnect lib node w s2) (reconnect-IsBounded w s2 b)

  flush-IsBounded : (w : World) (s : Worker F) → IsBounded s → IsBounded (flush lib node w s)
  unfolding flush
  flush-IsBounded w s h = ground arith

  -- From a worker within it, the memory for spilled records never passes its capacity of 5000, whatever
  -- the commands are and whatever the disk does.
  pub background_worker-IsBounded :
      (cs : List (World × Command F)) (s : Worker F)
      → IsBounded s
      → IsBounded (background_worker lib node cs s).0
  unfolding background_worker
  background_worker-IsBounded [] s h = h
  background_worker-IsBounded ((w, log e) ∷ rest) s h =
      background_worker-IsBounded rest (log_event lib node w e s).0 (log_event-IsBounded w e s h)
  background_worker-IsBounded ((w, flush_all) ∷ rest) s h =
      background_worker-IsBounded rest (flush lib node w s) (flush-IsBounded w s h)
