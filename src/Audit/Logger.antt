-- ===== src/Audit/Logger.antt =====
-- solomon-core/src/audit/logger.rs: the background worker's handling of `LogEvent` and `Flush`.
-- Each command comes with what the clock and the file system do during it. What `writeln!` put into
-- the segment files is kept as one history of lines with their segment. A segment's date text is
-- its date. The state knows which segments the worker has made read-only. The metadata file is not
-- modelled, nor the purge that starts above 3650 segments.
pub mod Chained
pub mod Kept
pub mod Faults
pub mod Runs
pub mod LockedOut
use project_solomon.Prelude.{
  ℕ, zero, suc, ◌+◌, ◌/◌, ◌%◌, ◌^◌, Bool, true, false, not, ◌&&◌, ◌||◌, ltb, ◌==◌, if◌then◌else◌,
}
use project_solomon.Prelude.{List, [], ◌∷◌, ◌++◌, Option, none, some, length}
use project_solomon.Calendar.{Date, days_to_ymd}
use project_solomon.Audit.Record.{AuditRecord, CryptoAuditMeta, SystemAction, Library, compute_hash}
use project_solomon.Audit.Record.{AuditSegmentSeal, segment_seal_tag, signable_payload}

abbrev pub max_spillover_capacity : ℕ
max_spillover_capacity = 5000

-- A line of a segment file.
pub data Line (F : Type 0) : Type 0 where
  record_line : AuditRecord F → Line F
  seal_line : AuditSegmentSeal → Line F

-- `LogEvent` without its channel.
pub record Event (F : Type 0) : Type 0 where
  pub event_id : List ℕ
  pub route_target : List ℕ
  pub crypto_profile : CryptoAuditMeta F
  pub localization_region : List ℕ
  pub system_action : SystemAction

-- The commands of the channel.
pub data Command (F : Type 0) : Type 0 where
  log : Event F → Command F
  flush_all : Command F

-- The clock, and the success of each call of the file system that a command makes.
pub record World : Type 0 where
  pub now_us : ℕ
  pub now_secs : ℕ
  -- the old segment is there and its permissions can be set
  pub locks : Bool
  pub seal_written : Bool
  pub new_opens : Bool
  pub reopens : Bool
  pub pending_written : ℕ → Bool
  pub line_written : Bool
  pub line_flushed : Bool

pub record Worker (F : Type 0) : Type 0 where
  pub last_hash : List ℕ
  pub current_segment_date : Date
  -- the segment of `log_path`, which is set once, before the loop
  pub log_path : Date
  pub file_opt : Option Date
  pub read_only : List Date
  pub written : List (Date × Line F)
  pub spillover : List (AuditRecord F)
  pub dropped : ℕ
  pub recovered : ℕ
  pub worker_healthy : Bool

-- The signer, the node's identity, and whether the process may write read-only files, as root may:
-- fixed for a worker.
pub record Node : Type 0 where
  pub sign_hex : List ℕ → List ℕ
  pub date_text : Date → List ℕ
  pub node_identity_hex : List ℕ
  pub overrides_permissions : Bool

unfoldable pub same_date : Date → Date → Bool
same_date (y, m, d) (y', m', d') = y == y' && (m == m' && d == d')

unfoldable pub is_in : Date → List Date → Bool
unfolding same_date
is_in date [] = false
is_in date (d ∷ dates) = same_date date d || is_in date dates

-- The spilled lines written to the segment `p`, and how many of them were.
unfoldable pub drain :
    {F : Type 0} → (ℕ → Bool) → Date → ℕ → List (AuditRecord F) → List (Date × Line F) × ℕ
drain written p i [] = ([], 0)
drain written p i (r ∷ rs) =
    let (lines, n) = drain written p (i + 1) rs in
    if written i then ((p, record_line r) ∷ lines, n + 1) else (lines, n)

-- `now.as_micros() as u64`
abbrev timestamp : World → ℕ
timestamp w = w.now_us % 2 ^ 64

module _ {F : Type 0} (lib : Library F) (node : Node) where
  abbrev seal_of : World → Worker F → AuditSegmentSeal
  seal_of w s =
      let date = node.date_text s.current_segment_date in
      let payload = signable_payload lib date s.last_hash (timestamp w) node.node_identity_hex in
      record {
        record_type = segment_seal_tag;
        segment_date = date;
        last_record_hash = s.last_hash;
        sealed_at_utc_us = timestamp w;
        node_identity = node.node_identity_hex;
        seal_signature = node.sign_hex payload;
      }

  write_seal : World → AuditSegmentSeal → Option Date → List (Date × Line F) → List (Date × Line F)
  write_seal w seal none written = written
  write_seal w seal (some path) written =
      if w.seal_written then written ++ ((path, seal_line seal) ∷ []) else written

  -- Whether `try_open_file` on a segment gives a file, when the file system would let it: not on a
  -- segment that is read-only, unless the process overrides that.
  unfoldable pub try_open_file : Bool → List Date → Date → Bool
  unfolding is_in
  try_open_file lets read_only path =
      lets && (node.overrides_permissions || not (is_in path read_only))

  -- The old segment after the rotation.
  unfoldable pub lock_segment : World → Worker F → List Date
  lock_segment w s = if w.locks then s.current_segment_date ∷ s.read_only else s.read_only

  -- The new segment, under the lock of the old one.
  abbrev open_segment : World → Date → Worker F → Worker F
  open_segment w today s =
      let opened : Bool = try_open_file w.new_opens s.read_only today in
      record s {
        current_segment_date = today;
        file_opt = if opened then some today else none;
        worker_healthy = opened;
      }

  -- The block `if today_str != current_segment_date`.
  unfoldable pub rotate : World → Worker F → Worker F
  unfolding same_date days_to_ymd write_seal try_open_file lock_segment
  rotate w s =
      let today = days_to_ymd (w.now_secs / 86400) in
      if same_date today s.current_segment_date
      then s
      else open_segment w today (record s {
        read_only = lock_segment w s;
        written = write_seal w (seal_of w s) s.file_opt s.written;
      })

  -- The record of an event under the hash before it.
  unfoldable pub record_of : World → Event F → List ℕ → AuditRecord F
  unfolding compute_hash
  record_of w e prev_hash = record {
    timestamp_utc = timestamp w;
    event_id = e.event_id;
    route_target = e.route_target;
    crypto_profile = e.crypto_profile;
    localization_region = e.localization_region;
    system_action = e.system_action;
    previous_hash = prev_hash;
    current_hash =
        compute_hash lib (timestamp w) e.event_id e.route_target e.crypto_profile
          e.localization_region e.system_action prev_hash;
  }

  -- The opportunistic reconnect, which opens `log_path`.
  unfoldable pub reconnect : World → Worker F → Worker F
  unfolding try_open_file
  reconnect w s = elim s.file_opt [
    | some path ↦ s
    | none ↦
        if try_open_file w.reopens s.read_only s.log_path
        then record s { file_opt = some s.log_path; worker_healthy = true }
        else s
  ]

  -- A record that is not on disk waits in memory, while there is room.
  unfoldable pub spill : AuditRecord F → Worker F → Worker F
  spill r s =
      if ltb (length s.spillover) max_spillover_capacity
      then record s { spillover = s.spillover ++ (r ∷ []) }
      else record s { dropped = s.dropped + 1 }

  -- The spilled lines first, then the record.
  unfoldable pub write_to : World → AuditRecord F → Date → Worker F → Worker F
  unfolding drain spill
  write_to w r path s =
      let (lines, n) = drain w.pending_written path 0 s.spillover in
      let line = if w.line_written then (path, record_line r) ∷ [] else [] in
      let s' = record s {
        written = s.written ++ (lines ++ line);
        spillover = [];
        recovered = s.recovered + n;
      } in
      if w.line_written && w.line_flushed then s' else spill r s'

  unfoldable pub write_record : World → AuditRecord F → Worker F → Worker F
  unfolding write_to
  write_record w r s = elim s.file_opt [ none ↦ spill r s | some path ↦ write_to w r path s ]

  -- The whole branch `LogEvent`, with the record that is sent back.
  unfoldable pub log_event : World → Event F → Worker F → Worker F × AuditRecord F
  unfolding rotate record_of reconnect write_record
  log_event w e s =
      let s1 = rotate w s in
      let r = record_of w e s1.last_hash in
      let s2 = reconnect w (record s1 { last_hash = r.current_hash }) in (write_record w r s2, r)

  -- The branch `Flush`.
  unfoldable pub flush : World → Worker F → Worker F
  unfolding drain
  flush w s = elim s.file_opt [
    | none ↦ s
    | some path ↦
        let (lines, n) = drain w.pending_written path 0 s.spillover in
        record s { written = s.written ++ lines; spillover = []; recovered = s.recovered + n }
  ]

  -- The records that were sent back come with the state.
  unfoldable pub background_worker :
      List (World × Command F) → Worker F → Worker F × List (AuditRecord F)
  background_worker [] s = (s, [])
  background_worker ((w, log e) ∷ rest) s =
      let (s', r) = log_event w e s in let (s'', rs) = background_worker rest s' in (s'', r ∷ rs)
  background_worker ((w, flush_all) ∷ rest) s = background_worker rest (flush w s)
