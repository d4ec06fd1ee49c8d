-- ===== src/Audit/Tests.antt =====
-- The theorems on solomon-core/src/audit at concrete records, commands and states.
use project_solomon.Prelude.{if◌then◌else◌, ◌&&◌, leb, map, ◌+◌, ◌↔◌}
use project_solomon.Audit.Localization.{
  codes, LocalizationResult, contains_any, approved_india_regions, blocked_foreign_regions,
  check_data_localization,
}
use project_solomon.Audit.Localization.Rules.{check_data_localization_iff}
use project_solomon.Prelude.{ℕ, ◌≤◌, ◌≡◌, refl, arith, ◌↔◌, ◌⊎◌}
use project_solomon.Prelude.{List, [], ◌∷◌, ◌++◌, some, map, length, replicate, true, false}
use project_solomon.Prelude.{ok}
use project_solomon.Calendar.{days_to_ymd, date_of, year_of_era}
use project_solomon.Audit.Record.{
  AuditRecord, CryptoAuditMeta, Library, success_forwarded, content, recomputed,
}
use project_solomon.Audit.Record.{compute_hash, hex_digest}
use project_solomon.Audit.Chain.{verify_chain_with_initial_hash}
use project_solomon.Audit.Chain.Valid.{IsChained, verify_chain_iff}
use project_solomon.Audit.Chain.Evidence.{Collision, tamper_evidence}
use project_solomon.Audit.Logger.{
  World, Event, Command, log, flush_all, Worker, Node, background_worker,
}
use project_solomon.Audit.Logger.{
  flush, rotate, log_event, max_spillover_capacity, same_date, is_in,
}
use project_solomon.Audit.Logger.{record_of, reconnect, write_record, write_to, drain}
use project_solomon.Audit.Logger.Kept.{Works, kept, record_lines}
use project_solomon.Audit.Logger.Chained.{background_worker_verifies}
use project_solomon.Audit.Logger.Runs.{background_worker_keeps, background_worker-IsBounded}
use project_solomon.Audit.Logger.Faults.{flush_loses}
use project_solomon.Audit.Logger.LockedOut.{background_worker-locked_out}

-- Stand-ins: floats are numbers, and every digest is 64 zeros.
abbrev library : Library ℕ
library = record {
  digest = λ text. replicate 64 b'0';
  crypto_json = λ meta. [];
  action_json = λ action. [];
}

abbrev meta : CryptoAuditMeta ℕ
meta = record {
  algorithm_suite = b'M' ∷ [];
  hybrid_verified = true;
  starks_proven = false;
  proof_latency_ms = 12;
}

abbrev entry : ℕ → List ℕ → List ℕ → AuditRecord ℕ
entry time previous current = record {
  timestamp_utc = time;
  event_id = b'E' ∷ [];
  route_target = b'R' ∷ [];
  crypto_profile = meta;
  localization_region = b'I' ∷ b'N' ∷ [];
  system_action = success_forwarded;
  previous_hash = previous;
  current_hash = current;
}

abbrev zeros : List ℕ
zeros = replicate 64 b'0'

abbrev two_entries : List (AuditRecord ℕ)
two_entries = entry 1 zeros zeros ∷ entry 2 zeros zeros ∷ []

two_entries-IsChained : IsChained library zeros two_entries
unfolding recomputed compute_hash hex_digest
two_entries-IsChained = (refl, refl, (refl, refl, tt))

verify_chain_iff_example :
    (verify_chain_with_initial_hash library two_entries zeros ≡ ok tt)
    ↔ IsChained library zeros two_entries
verify_chain_iff_example = verify_chain_iff library two_entries zeros

accepted : verify_chain_with_initial_hash library two_entries zeros ≡ ok tt
accepted = (verify_chain_iff library two_entries zeros).1 two_entries-IsChained

tamper_evidence_example :
    ((zeros ≡ zeros) × (map (content library) two_entries ≡ map (content library) two_entries))
    ⊎ Collision library
tamper_evidence_example =
    tamper_evidence library (λ x. refl) zeros zeros two_entries two_entries refl refl refl accepted
      accepted refl

one-IsChained : IsChained library zeros (entry 1 zeros zeros ∷ [])
unfolding recomputed compute_hash hex_digest
one-IsChained = (refl, refl, tt)

-- A node, a quiet world, and a worker at the start of its first segment.
abbrev node : Node
node = record {
  sign_hex = λ payload. payload;
  date_text = λ date. [];
  node_identity_hex = b'N' ∷ [];
  overrides_permissions = false;
}

abbrev quiet : World
quiet = record {
  now_us = 1000000;
  now_secs = 1;
  locks = true;
  seal_written = true;
  new_opens = true;
  reopens = true;
  pending_written = λ i. true;
  line_written = true;
  line_flushed = true;
}

abbrev full_disk : World
full_disk = record quiet { pending_written = λ i. false }

abbrev next_day : World
next_day = record quiet { now_us = 86401000000; now_secs = 86401; new_opens = false }

abbrev worker : Worker ℕ
worker = record {
  last_hash = zeros;
  current_segment_date = (1970, 1, 1);
  log_path = (1970, 1, 1);
  file_opt = some (1970, 1, 1);
  read_only = [];
  written = [];
  spillover = [];
  dropped = 0;
  recovered = 0;
  worker_healthy = true;
}

abbrev event : Event ℕ
event = record {
  event_id = b'E' ∷ [];
  route_target = b'R' ∷ [];
  crypto_profile = meta;
  localization_region = b'I' ∷ b'N' ∷ [];
  system_action = success_forwarded;
}

abbrev commands : List (World × Command ℕ)
commands = (quiet, log event) ∷ (quiet, flush_all) ∷ (quiet, log event) ∷ []

background_worker_verifies_example :
    verify_chain_with_initial_hash library (background_worker library node commands worker).1 zeros
    ≡ ok tt
background_worker_verifies_example = background_worker_verifies library node commands worker

none_dropped : (background_worker library node commands worker).0.dropped ≡ 0
unfolding background_worker log_event flush rotate record_of reconnect write_record write_to drain
    same_date days_to_ymd date_of year_of_era
none_dropped = refl

quiet-Works : Works quiet
quiet-Works = record { pending = λ i. refl; line = refl; flushed = refl }

background_worker_keeps_example :
    kept library node (background_worker library node commands worker).0
    ≡ kept library node worker ++ (background_worker library node commands worker).1
background_worker_keeps_example =
    background_worker_keeps library node commands worker
      (quiet-Works, (quiet-Works, (quiet-Works, tt))) none_dropped

background_worker-IsBounded_example :
    length (background_worker library node commands worker).0.spillover ≤ max_spillover_capacity
background_worker-IsBounded_example =
    background_worker-IsBounded library node commands worker (omega arith)

abbrev waiting : Worker ℕ
waiting = record worker { spillover = two_entries }

flush_loses_example :
    (kept library node (flush library node full_disk waiting) ≡ record_lines worker.written)
    × ((flush library node full_disk waiting).dropped ≡ 0)
    × ((flush library node full_disk waiting).recovered ≡ 0)
flush_loses_example = flush_loses library node full_disk waiting (1970, 1, 1) refl (λ i. refl)

abbrev next_day_again : World
next_day_again = record next_day { now_us = 86500000000; now_secs = 86500 }

background_worker-locked_out_example :
    let (t, rs) =
      background_worker library node
        ((next_day, log event) ∷ (next_day_again, log event) ∷ [])
        worker in
    (record_lines t.written ≡ []) × (length t.spillover + t.dropped ≡ 0 + 0 + length rs)
unfolding same_date is_in days_to_ymd date_of year_of_era record_lines
background_worker-locked_out_example =
    background_worker-locked_out library node next_day event ((next_day_again, log event) ∷ [])
      worker refl refl refl refl refl (refl, tt)

ascii_lower : ℕ → ℕ
ascii_lower c = if leb b'A' c && leb c b'Z' then c + 32 else c

lower_text : List ℕ → List ℕ
unfolding ascii_lower
lower_text text = map ascii_lower text

-- An address outside the private networks that has their prefix in its middle.
public_address :
    check_data_localization lower_text (codes "110.5.5.5") ≡ LocalizationResult.approved
unfolding lower_text check_data_localization
public_address = refl

check_data_localization_iff_example :
    (check_data_localization lower_text (codes "s3.US-EAST-1.amazonaws.com")
      ≡ LocalizationResult.approved)
    ↔ ((contains_any (lower_text (codes "s3.US-EAST-1.amazonaws.com")) blocked_foreign_regions
          ≡ false)
        × (contains_any (lower_text (codes "s3.US-EAST-1.amazonaws.com")) approved_india_regions
            ≡ true))
check_data_localization_iff_example =
    check_data_localization_iff lower_text (codes "s3.US-EAST-1.amazonaws.com")
