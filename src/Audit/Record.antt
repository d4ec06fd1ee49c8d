-- ===== src/Audit/Record.antt =====
-- solomon-core/src/audit/record.rs and the hashers of crypto_traits.rs. A string is its bytes.
-- The digest of the hash library, the JSON that serde writes, and the type of floats are parameters.
use project_solomon.Prelude.{ℕ, Bool, List, [], ◌∷◌}
use project_solomon.Prelude.Bytes.{concat, le_bytes, be_bytes}

pub data SystemAction : Type 0 where
  success_forwarded fail_closed_bypassed circuit_breaker_tripped : SystemAction
  validation_error_rejected : SystemAction

pub record CryptoAuditMeta (F : Type 0) : Type 0 where
  pub algorithm_suite : List ℕ
  pub hybrid_verified : Bool
  pub starks_proven : Bool
  pub proof_latency_ms : F

pub record AuditRecord (F : Type 0) : Type 0 where
  pub timestamp_utc : ℕ
  pub event_id : List ℕ
  pub route_target : List ℕ
  pub crypto_profile : CryptoAuditMeta F
  pub localization_region : List ℕ
  pub system_action : SystemAction
  pub previous_hash : List ℕ
  pub current_hash : List ℕ

-- What the module takes from other crates: the digest of a byte string as hex text, and JSON texts.
pub record Library (F : Type 0) : Type 0 where
  pub digest : List ℕ → List ℕ
  pub crypto_json : CryptoAuditMeta F → List ℕ
  pub action_json : SystemAction → List ℕ

module _ {F : Type 0} (lib : Library F) where
  -- Both hashers feed the chunks one by one, so the digest is that of their concatenation.
  unfoldable pub hex_digest : List (List ℕ) → List ℕ
  hex_digest inputs = lib.digest (concat inputs)

  unfoldable pub preimage :
      ℕ → List ℕ → List ℕ → CryptoAuditMeta F → List ℕ → SystemAction → List ℕ → List (List ℕ)
  preimage timestamp_utc event_id route_target crypto_profile region system_action previous_hash =
      previous_hash
      ∷ le_bytes 8 timestamp_utc
      ∷ event_id
      ∷ route_target
      ∷ lib.crypto_json crypto_profile
      ∷ region
      ∷ lib.action_json system_action
      ∷ []

  unfoldable pub compute_hash :
      ℕ → List ℕ → List ℕ → CryptoAuditMeta F → List ℕ → SystemAction → List ℕ → List ℕ
  unfolding hex_digest preimage
  compute_hash timestamp_utc event_id route_target crypto_profile region system_action
        previous_hash =
      hex_digest (
        preimage timestamp_utc event_id route_target crypto_profile region system_action
          previous_hash)

  -- The text that the hash of a record covers, and that hash recomputed from its fields.
  unfoldable pub content : AuditRecord F → List ℕ
  unfolding preimage
  content r = concat (
      preimage r.timestamp_utc r.event_id r.route_target r.crypto_profile r.localization_region
        r.system_action r.previous_hash)

  unfoldable pub recomputed : AuditRecord F → List ℕ
  unfolding compute_hash
  recomputed r =
      compute_hash r.timestamp_utc r.event_id r.route_target r.crypto_profile r.localization_region
        r.system_action r.previous_hash

-- The footer of a finished segment.
pub record AuditSegmentSeal : Type 0 where
  pub record_type : List ℕ
  pub segment_date : List ℕ
  pub last_record_hash : List ℕ
  pub sealed_at_utc_us : ℕ
  pub node_identity : List ℕ
  pub seal_signature : List ℕ

-- "SEGMENT_SEAL"
abbrev pub segment_seal_tag : List ℕ
segment_seal_tag =
    b'S' ∷ b'E' ∷ b'G' ∷ b'M' ∷ b'E' ∷ b'N' ∷ b'T' ∷ b'_' ∷ b'S' ∷ b'E' ∷ b'A' ∷ b'L' ∷ []

unfoldable pub signable_payload : {F : Type 0} → Library F → List ℕ → List ℕ → ℕ → List ℕ → List ℕ
signable_payload lib segment_date last_hash sealed_at node_identity =
    hex_digest lib
      (segment_seal_tag ∷ segment_date ∷ last_hash ∷ be_bytes 8 sealed_at ∷ node_identity ∷ [])
