-- ===== src/Audit/Chain.antt =====
-- solomon-core/src/audit/chain.rs: verification of the hash chain.
pub mod Valid
pub mod Evidence
use project_solomon.Prelude.{ℕ, zero, suc, ◌+◌, Bool, true, false, not, List, [], ◌∷◌, replicate}
use project_solomon.Prelude.{Result, ok, err, if◌then◌else◌}
use project_solomon.Prelude.Bytes.{bytes_eq}
use project_solomon.Audit.Record.{AuditRecord, Library, recomputed}

pub data AuditChainError : Type 0 where
  invalid_genesis_previous : ℕ → AuditChainError
  broken_previous_hash : ℕ → List ℕ → List ℕ → AuditChainError
  record_hash_mismatch : ℕ → List ℕ → List ℕ → AuditChainError

-- Sixty-four zero digits.
unfoldable pub genesis_hash : List ℕ
genesis_hash = replicate 64 b'0'

module _ {F : Type 0} (lib : Library F) where
  -- The loop over `1..records.len()`; `prev` is the record before the list, `i` the index.
  pub verify_links : ℕ → AuditRecord F → List (AuditRecord F) → Result AuditChainError (Unit {0})
  verify_links i prev [] = ok tt
  verify_links i prev (curr ∷ rest) =
      let expected = recomputed lib curr in
      let go_on = verify_links (i + 1) curr rest in
      if not (bytes_eq curr.previous_hash prev.current_hash)
      then err (broken_previous_hash i prev.current_hash curr.previous_hash)
      else if not (bytes_eq curr.current_hash expected)
      then err (record_hash_mismatch i expected curr.current_hash)
      else go_on

  pub verify_chain_with_initial_hash :
      List (AuditRecord F) → List ℕ → Result AuditChainError (Unit {0})
  unfolding verify_links
  verify_chain_with_initial_hash [] initial = ok tt
  verify_chain_with_initial_hash (first ∷ rest) initial =
      let expected = recomputed lib first in
      if not (bytes_eq first.previous_hash initial)
      then err (invalid_genesis_previous 0)
      else if not (bytes_eq first.current_hash expected)
      then err (record_hash_mismatch 0 expected first.current_hash)
      else verify_links 1 first rest

  pub verify_chain : List (AuditRecord F) → Result AuditChainError (Unit {0})
  verify_chain records = verify_chain_with_initial_hash records genesis_hash
