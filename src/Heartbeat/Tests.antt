-- ===== src/Heartbeat/Tests.antt =====
-- The theorems on solomon-core/src/heartbeat.rs at a concrete licence.
use project_solomon.Prelude.{ℕ, ◌+◌, ◌≤◌, ◌≡◌, refl, arith, List, ◌++◌, Option, some}
use project_solomon.Prelude.{length, replicate, take, drop, Bool, true}
use project_solomon.Prelude.Bytes.{from_be, be_bytes}
use project_solomon.Heartbeat.{
  HeartbeatManager, is_operational, start, record_successful_sync, get_status,
}
use project_solomon.Heartbeat.{
  status_is_operational, cache_of, recover_from_cache, recover_from, mac_matches,
}
use project_solomon.Prelude.Xor.{fold_diff}
use project_solomon.Heartbeat.Cache.{start-record_successful_sync, start-fail_closed}

abbrev synced : HeartbeatManager
synced = record {
  last_synced_epoch = 1000000;
  hardware_fingerprint = replicate 32 7;
  cache = Option.none;
  state_code = 0;
}

-- A stand-in for the MAC, and a test that accepts every token.
abbrev fixed_mac : List ℕ → List ℕ
fixed_mac text = replicate 32 9

abbrev accept : List ℕ → Bool
accept token = true

abbrev token : List ℕ
token = replicate 80 1

length-fixed_mac : (text : List ℕ) → length (fixed_mac text) ≡ 32
length-fixed_mac text = refl

start-record_successful_sync_example :
    is_operational 1200000 (
      start fixed_mac accept 1200000 synced.hardware_fingerprint
        (record_successful_sync fixed_mac accept token 1100000 synced).1.cache)
    ≡ is_operational 1200000 (record_successful_sync fixed_mac accept token 1100000 synced).1
start-record_successful_sync_example =
    start-record_successful_sync fixed_mac accept length-fixed_mac 1200000 1100000 token synced refl
      (omega arith) refl

abbrev file : List ℕ
file = cache_of fixed_mac accept (replicate 32 7) token 1100000

operational :
    is_operational 1200000 (start fixed_mac accept 1200000 (replicate 32 7) (some file)) ≡ true
unfolding is_operational start recover_from_cache recover_from mac_matches cache_of get_status
    status_is_operational fold_diff from_be be_bytes
operational = refl

start-fail_closed_example :
    (content : List ℕ) × (some file ≡ some content)
    × (length content ≡ 120)
    × (drop 88 content ≡ fixed_mac (replicate 32 7 ++ take 88 content))
    × (accept (take 80 (drop 8 content)) ≡ true)
    × (1200000 ≤ from_be (take 8 content) + 345600)
start-fail_closed_example =
    start-fail_closed fixed_mac accept length-fixed_mac 1200000 (replicate 32 7) (some file)
      operational
