-- ===== src/Audit/Logger/Kept.antt =====
-- Where the records of solomon-core/src/audit/logger.rs go: to disk, to memory, or nowhere.

use project_solomon.Prelude.{ℕ, ◌+◌, ◌<◌, Bool, true, List, [], ◌∷◌, ◌++◌}
use project_solomon.Prelude.{ltb, length, append_assoc, append-nil}
use project_solomon.Prelude.{◌≡◌, refl, sym, ap, ◌∙◌, arith, ◌⊎◌, inl, inr}
use project_solomon.Prelude.{Option-cases, Bool-cases}
use project_solomon.Calendar.{Date}
use project_solomon.Audit.Record.{AuditRecord, Library}
use project_solomon.Audit.Logger.{World, Worker, Node, rotate, spill}
use project_solomon.Audit.Logger.{Line, record_line, seal_line, drain, max_spillover_capacity}
use project_solomon.Audit.Logger.{reconnect, write_to, write_record, flush}
use project_solomon.Audit.Logger.{write_seal, seal_of}

-- The records among the lines.
unfoldable pub record_lines : {F : Type 0} → List (Date × Line F) → List (AuditRecord F)
record_lines [] = []
record_lines ((p, record_line r) ∷ rest) = r ∷ record_lines rest
record_lines ((p, seal_line s) ∷ rest) = record_lines rest

-- An open file takes what is written to it.
pub record Works (w : World) : Type 0 where
  pub pending : (i : ℕ) → w.pending_written i ≡ true
  pub line : w.line_written ≡ true
  pub flushed : w.line_flushed ≡ true

module _ {F : Type 0} where
  record_lines-append :
      (xs ys : List (Date × Line F)) → record_lines (xs ++ ys) ≡ record_lines xs ++ record_lines ys
  unfolding record_lines
  record_lines-append [] ys = refl
  record_lines-append ((p, record_line r) ∷ rest) ys =
      ap (λ rs. r ∷ rs) (record_lines-append rest ys)
  record_lines-append ((p, seal_line s) ∷ rest) ys = record_lines-append rest ys

  -- A file that works takes all spilled lines, in order.
  record_lines-drain :
      (written : ℕ → Bool) (p : Date) (i : ℕ) (rs : List (AuditRecord F))
      → ((j : ℕ) → written j ≡ true)
      → record_lines (drain written p i rs).0 ≡ rs
  unfolding drain record_lines
  record_lines-drain written p i [] h = refl
  record_lines-drain written p i (r ∷ rs) h =
      rw (h i) (ap (λ xs. r ∷ xs) (record_lines-drain written p (i + 1) rs h))

module _ {F : Type 0} (lib : Library F) (node : Node) where
  -- What has been logged and is not lost, in order.
  abbrev pub kept : Worker F → List (AuditRecord F)
  kept s = record_lines s.written ++ s.spillover

  pub record_lines-write_seal :
      (w : World) (s : Worker F)
      → record_lines (rotate lib node w s).written ≡ record_lines s.written
  unfolding rotate write_seal record_lines
  record_lines-write_seal w s = elim (Option-cases s.file_opt) [
    | inl e ↦ ground (arith, e)
    | inr (p, e) ↦ ground (
      arith,
      e,
      record_lines-append s.written ((p, seal_line (seal_of lib node w s)) ∷ []),
      append-nil (record_lines s.written),
    )
  ]

  pub spillover-rotate : (w : World) (s : Worker F) → (rotate lib node w s).spillover ≡ s.spillover
  unfolding rotate
  spillover-rotate w s = ground arith

  pub kept-reconnect : (w : World) (s : Worker F) → kept (reconnect lib node w s) ≡ kept s
  unfolding reconnect
  kept-reconnect w s = ground arith

  kept-write_to :
      (w : World) (r : AuditRecord F) (p : Date) (s : Worker F)
      → Works w
      → kept (write_to lib node w r p s) ≡ kept s ++ (r ∷ [])
  unfolding write_to record_lines
  kept-write_to w r p s h =
      let lines : List (Date × Line F) = (drain w.pending_written p 0 s.spillover).0 in
      let line : List (Date × Line F) = (p, record_line r) ∷ [] in
      rw (h.line, h.flushed)
        (append-nil _
          ∙ record_lines-append s.written (lines ++ line)
          ∙ ap (λ t. record_lines s.written ++ t)
              (record_lines-append lines line
                ∙ ap (λ t. t ++ (r ∷ []))
                    (record_lines-drain w.pending_written p 0 s.spillover h.pending))
          ∙ sym (append_assoc (record_lines s.written) s.spillover (r ∷ [])))

  pub kept-flush : (w : World) (s : Worker F) → Works w → kept (flush lib node w s) ≡ kept s
  unfolding flush
  kept-flush w s h = elim (Option-cases s.file_opt) [
    | inl e ↦ ground (arith, e)
    | inr (p, e) ↦
        let lines : List (Date × Line F) = (drain w.pending_written p 0 s.spillover).0 in
        ground (
          arith,
          e,
          append-nil (record_lines (s.written ++ lines)),
          record_lines-append s.written lines,
          record_lines-drain w.pending_written p 0 s.spillover h.pending,
        )
  ]

  -- A record goes behind what is kept, or the count of dropped records goes up.
  abbrev pub Kept : Worker F → AuditRecord F → Worker F → Type 0
  Kept s r t = ((kept t ≡ kept s ++ (r ∷ [])) × (t.dropped ≡ s.dropped)) ⊎ (s.dropped < t.dropped)

  Kept-spill : (r : AuditRecord F) (s : Worker F) → Kept s r (spill lib node r s)
  unfolding spill
  Kept-spill r s = elim (Bool-cases (ltb (length s.spillover) max_spillover_capacity)) [
    | inl room ↦
        inl (rw room (sym (append_assoc (record_lines s.written) s.spillover (r ∷ []))), rw room)
    | inr full ↦ inr (rw full (omega arith))
  ]

  dropped-write_to :
      (w : World) (r : AuditRecord F) (p : Date) (s : Worker F)
      → Works w
      → (write_to lib node w r p s).dropped ≡ s.dropped
  unfolding write_to
  dropped-write_to w r p s h = rw (h.line, h.flushed)

  pub Kept-write_record :
      (w : World) (r : AuditRecord F) (s : Worker F)
      → Works w
      → Kept s r (write_record lib node w r s)
  unfolding write_record
  Kept-write_record w r s h = elim (Option-cases s.file_opt) [
    | inl e ↦ rw (e, write_record) (Kept-spill r s)
    | inr (p, e) ↦ rw (e, write_record) (inl (kept-write_to w r p s h, dropped-write_to w r p s h))
  ]
