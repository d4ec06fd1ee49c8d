-- ===== src/Audit/Logger/Faults.antt =====
-- Where solomon-core/src/audit/logger.rs loses records.
use project_solomon.Prelude.{ℕ, ◌+◌, Bool, false, List, [], ◌∷◌}
use project_solomon.Prelude.{some, append-nil}
use project_solomon.Prelude.{◌≡◌, refl, ap, ◌∙◌, arith}
use project_solomon.Calendar.{Date}
use project_solomon.Audit.Record.{AuditRecord, Library}
use project_solomon.Audit.Logger.{World, Worker, Node, drain}
use project_solomon.Audit.Logger.{flush}
use project_solomon.Audit.Logger.Kept.{record_lines, kept}

module _ {F : Type 0} where
  drain_refused :
      (written : ℕ → Bool) (p : Date) (i : ℕ) (rs : List (AuditRecord F))
      → ((j : ℕ) → written j ≡ false)
      → drain written p i rs ≡ ([], 0)
  unfolding drain
  drain_refused written p i [] h = refl
  drain_refused written p i (r ∷ rs) h = rw (h i) (drain_refused written p (i + 1) rs h)

module _ {F : Type 0} (lib : Library F) (node : Node) where
  -- A flush while an open file refuses every line empties the memory without writing anything: all
  -- spilled records are gone, and neither the dropped nor the recovered count shows it.
  pub flush_loses :
      (w : World) (s : Worker F) (p : Date)
      → s.file_opt ≡ some p
      → ((i : ℕ) → w.pending_written i ≡ false)
      → (kept lib node (flush lib node w s) ≡ record_lines s.written)
        × ((flush lib node w s).dropped ≡ s.dropped)
        × ((flush lib node w s).recovered ≡ s.recovered)
  unfolding flush
  flush_loses w s p e h =
      rw (e, flush, drain_refused w.pending_written p 0 s.spillover h)
        (append-nil _ ∙ ap (λ t. record_lines t) (append-nil s.written), refl, omega arith)
