-- ===== src/Heartbeat/Status.antt =====
-- The status of the licence of solomon-core/src/heartbeat.rs over time.
use project_solomon.Prelude.{ℕ, ◌+◌, ◌^◌, ◌≤◌, ◌<◌, ◌≡◌, arith, ◌↔◌, true}
use project_solomon.Heartbeat.{HeartbeatManager}
use project_solomon.Heartbeat.{get_status, is_operational, status_is_operational}

-- Transactions are permitted exactly if there was a sync and at most 345,600 seconds (24 hours and 72
-- more) have gone by since it, for a sync at a time below 2^64 - 345,600.
pub is_operational_iff :
    (now : ℕ) (mgr : HeartbeatManager)
    → mgr.last_synced_epoch + 345600 < 2 ^ 64
    → (is_operational now mgr ≡ true)
      ↔ ((0 < mgr.last_synced_epoch) × (now ≤ mgr.last_synced_epoch + 345600))
unfolding is_operational get_status status_is_operational
is_operational_iff now mgr h = ground arith

-- The licence does not come back by itself: a manager that permits transactions at a time permitted
-- them at every earlier time.
pub is_operational-earlier :
    (now earlier : ℕ) (mgr : HeartbeatManager)
    → earlier ≤ now
    → is_operational now mgr ≡ true
    → is_operational earlier mgr ≡ true
unfolding is_operational get_status status_is_operational
is_operational-earlier now earlier mgr h e = ground arith
