-- ===== src/Heartbeat.antt =====
-- solomon-core/src/heartbeat.rs: the state of the licence, its cache file, and its status at a time.
-- Two parts of the repository are parameters: `shake`, 32 bytes of the SHAKE256 sponge of
-- solomon-core/src/crypto/shake.rs over the joined input, and `token_is_valid`, whether
-- `verify_and_apply_epoch_token` of solomon-core/src/crypto/heartbeat.rs accepts a token.
-- The salt that an accepted token sets is state of that other module. The clock is an argument. The cache file is its content, or `none` where there is no file to read.
pub mod Status
pub mod Cache
mod Tests
use project_solomon.Prelude.{ℕ, ◌+◌, ◌-◌, ◌*◌, ◌^◌, min, ◌&&◌, Bool, true, false, not}
use project_solomon.Prelude.{List, [], ◌∷◌, ◌++◌, Option, none, some, length, take, drop}
use project_solomon.Prelude.{ltb, leb, ◌==◌, if◌then◌else◌}
use project_solomon.Prelude.Bytes.{be_bytes, from_be}
use project_solomon.Prelude.Xor.{fold_diff}

abbrev pub active_window_secs : ℕ
active_window_secs = 24 * 60 * 60

abbrev pub grace_window_secs : ℕ
grace_window_secs = 72 * 60 * 60

abbrev pub total_expiry_secs : ℕ
total_expiry_secs = active_window_secs + grace_window_secs

-- `a.saturating_add(b)` on u64.
abbrev pub saturating_add : ℕ → ℕ → ℕ
saturating_add a b = min (a + b) (2 ^ 64 - 1)

pub data HeartbeatStatus : Type 0 where
  active : (last_synced valid_until : ℕ) → HeartbeatStatus
  grace_period : (last_synced grace_until remaining_seconds : ℕ) → HeartbeatStatus
  expired_fail_closed : (last_synced expired_at : ℕ) → HeartbeatStatus

unfoldable pub status_is_operational : HeartbeatStatus → Bool
status_is_operational (active last until) = true
status_is_operational (grace_period last until remaining) = true
status_is_operational (expired_fail_closed last at) = false

pub record HeartbeatManager : Type 0 where
  pub last_synced_epoch : ℕ
  pub hardware_fingerprint : List ℕ
  pub cache : Option (List ℕ)
  pub state_code : ℕ

-- The status, and the manager with the code of the status stored.
unfoldable pub get_status : ℕ → HeartbeatManager → HeartbeatStatus × HeartbeatManager
get_status now mgr =
    let last = mgr.last_synced_epoch in
    let valid_until = saturating_add last active_window_secs in
    let grace_until = saturating_add last total_expiry_secs in
    if last == 0
    then (expired_fail_closed 0 0, mgr)
    else if leb now valid_until
    then (active last valid_until, record mgr { state_code = 0 })
    else if leb now grace_until
    then (grace_period last grace_until (grace_until - now), record mgr { state_code = 1 })
    else (expired_fail_closed last grace_until, record mgr { state_code = 2 })

unfoldable pub is_operational : ℕ → HeartbeatManager → Bool
unfolding get_status status_is_operational
is_operational now mgr = status_is_operational (get_status now mgr).0

-- The hook of the test harnesses.
pub set_last_synced_for_testing : ℕ → HeartbeatManager → HeartbeatManager
set_last_synced_for_testing timestamp mgr = record mgr { last_synced_epoch = timestamp }

module _ (shake : List ℕ → List ℕ) (token_is_valid : List ℕ → Bool) where
  -- The content of the cache file: timestamp, token, and their MAC under the fingerprint.
  unfoldable pub cache_of : List ℕ → List ℕ → ℕ → List ℕ
  cache_of fingerprint token timestamp =
      let buf = be_bytes 8 timestamp ++ token in buf ++ shake (fingerprint ++ buf)

  unfoldable pub save_to_cache : List ℕ → ℕ → HeartbeatManager → HeartbeatManager
  unfolding cache_of
  save_to_cache token timestamp mgr = record mgr {
    cache = some (cache_of mgr.hardware_fingerprint token timestamp);
  }

  -- What a successful handshake at the time `ts` leaves, and whether it was accepted.
  unfoldable pub record_successful_sync : List ℕ → ℕ → HeartbeatManager → Bool × HeartbeatManager
  unfolding save_to_cache
  record_successful_sync token ts mgr =
      if token_is_valid token
      then (true, save_to_cache token ts (record mgr { last_synced_epoch = ts; state_code = 0 }))
      else (false, mgr)

  unfoldable pub mac_matches : List ℕ → List ℕ → Bool
  mac_matches fingerprint content =
      fold_diff 0 (take 32 (drop 88 content)) (shake (fingerprint ++ take 88 content)) == 0

  -- The cache's content `content` after the file has been read.
  unfoldable pub recover_from : ℕ → List ℕ → HeartbeatManager → HeartbeatManager
  unfolding get_status mac_matches
  recover_from now content mgr =
      let timestamp = from_be (take 8 content) in
      let token = take 80 (drop 8 content) in
      if not (length content == 120)
      then mgr
      else if not (mac_matches mgr.hardware_fingerprint content)
      then mgr
      else if leb now (saturating_add timestamp total_expiry_secs) && token_is_valid token
      then (get_status now (record mgr { last_synced_epoch = timestamp })).1
      else mgr

  unfoldable pub recover_from_cache : ℕ → HeartbeatManager → HeartbeatManager
  unfolding recover_from
  recover_from_cache now mgr = elim mgr.cache [
    | none ↦ mgr
    | some content ↦ recover_from now content mgr
  ]

  -- A manager that starts at the time `now` beside the cache file `cache`.
  unfoldable pub start : ℕ → List ℕ → Option (List ℕ) → HeartbeatManager
  unfolding recover_from_cache
  start now fingerprint cache = recover_from_cache now (record {
    last_synced_epoch = 0;
    hardware_fingerprint = fingerprint;
    cache = cache;
    state_code = 2;
  })
