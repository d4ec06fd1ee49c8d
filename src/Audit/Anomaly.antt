-- ===== src/Audit/Anomaly.antt =====
-- solomon-core/src/audit/anomaly.rs: the alerts on the stream of audit events.
-- A map is the list of its entries in the order in which the map is iterated. Keys of alerts are values
-- of a type of their own, one for each text that the code formats. The locks are held for the whole of
-- their use, so a call is one step; what an alert prints is not modelled.
pub mod Windows
mod Tests
use project_solomon.Prelude.{
  ℕ, zero, suc, ◌+◌, ◌-◌, ◌*◌, ◌/◌, ◌%◌, ◌^◌, min, Bool, true, false, not, ◌&&◌, ◌||◌,
}
use project_solomon.Prelude.{
  List, [], ◌∷◌, ◌++◌, Option, none, some, length, drop, ltb, leb, ◌==◌, if◌then◌else◌,
}
use project_solomon.Prelude.Bytes.{bytes_eq}
use project_solomon.Audit.Record.{SystemAction, success_forwarded, fail_closed_bypassed}
use project_solomon.Audit.Record.{circuit_breaker_tripped, validation_error_rejected}

abbrev pub burst_failure_threshold : ℕ
burst_failure_threshold = 10

abbrev pub burst_failure_window_secs : ℕ
burst_failure_window_secs = 60

abbrev pub max_failure_timestamps : ℕ
max_failure_timestamps = 1000

abbrev pub route_saturation_threshold : ℕ
route_saturation_threshold = 100

abbrev pub route_saturation_window_secs : ℕ
route_saturation_window_secs = 10

abbrev pub max_tracked_routes : ℕ
max_tracked_routes = 1024

abbrev pub alert_dedup_window_secs : ℕ
alert_dedup_window_secs = 300

-- "BURST_FAILURE", "AFTER_HOURS_{}" and "ROUTE_SAT_{}".
pub data AlertKey : Type 0 where
  burst_failure : AlertKey
  after_hours : ℕ → AlertKey
  route_sat : List ℕ → AlertKey

unfoldable pub same_key : AlertKey → AlertKey → Bool
same_key burst_failure burst_failure = true
same_key (after_hours h) (after_hours h') = h == h'
same_key (route_sat r) (route_sat r') = bytes_eq r r'
same_key burst_failure (after_hours h) = false
same_key burst_failure (route_sat r) = false
same_key (after_hours h) burst_failure = false
same_key (after_hours h) (route_sat r) = false
same_key (route_sat r) burst_failure = false
same_key (route_sat r) (after_hours h) = false

abbrev pub Routes : Type 0
Routes = List (List ℕ × List ℕ)

pub record AnomalyDetector : Type 0 where
  pub failure_timestamps : List ℕ
  pub route_timestamps : Routes
  pub last_alert_times : List (AlertKey × ℕ)
  pub alert_count : ℕ

-- `times.get(key).copied().unwrap_or(0)` and `insert`.
unfoldable pub last_alert : AlertKey → List (AlertKey × ℕ) → ℕ
last_alert key [] = 0
last_alert key ((k, t) ∷ times) = if same_key key k then t else last_alert key times

unfoldable pub put_alert : AlertKey → ℕ → List (AlertKey × ℕ) → List (AlertKey × ℕ)
put_alert key now [] = (key, now) ∷ []
put_alert key now ((k, t) ∷ times) =
    if same_key key k then (k, now) ∷ times else (k, t) ∷ put_alert key now times

unfoldable pub fire_alert : AlertKey → ℕ → AnomalyDetector → AnomalyDetector
unfolding last_alert put_alert
fire_alert key now d =
    if ltb (now - last_alert key d.last_alert_times) alert_dedup_window_secs then d else record d {
      last_alert_times = put_alert key now d.last_alert_times;
      alert_count = d.alert_count + 1;
    }

-- `retain(|&t| t >= cutoff)`
unfoldable pub retain_from : ℕ → List ℕ → List ℕ
retain_from cutoff [] = []
retain_from cutoff (t ∷ ts) =
    let rest = retain_from cutoff ts in if leb cutoff t then t ∷ rest else rest

unfoldable pub is_failure : SystemAction → Bool
is_failure success_forwarded = false
is_failure fail_closed_bypassed = true
is_failure circuit_breaker_tripped = true
is_failure validation_error_rejected = true

-- The window of failures after one more.
unfoldable pub push_failure : ℕ → List ℕ → List ℕ
unfolding retain_from
push_failure now failures =
    let kept = retain_from (now - burst_failure_window_secs) (failures ++ (now ∷ [])) in
    if ltb max_failure_timestamps (length kept)
    then drop (length kept - max_failure_timestamps) kept
    else kept

unfoldable pub check_burst : SystemAction → ℕ → AnomalyDetector → AnomalyDetector
unfolding push_failure is_failure fire_alert
check_burst action now d =
    let failures = push_failure now d.failure_timestamps in
    let d' = record d { failure_timestamps = failures } in
    if is_failure action
    then (if leb burst_failure_threshold (length failures)
        then fire_alert burst_failure now d'
        else d')
    else d

-- Indian Standard Time is 19,800 seconds ahead; the sum saturates at the end of u64.
unfoldable pub hour_ist : ℕ → ℕ
hour_ist now = min (now + 19800) (2 ^ 64 - 1) % 86400 / 3600

unfoldable pub check_hours : ℕ → AnomalyDetector → AnomalyDetector
unfolding hour_ist fire_alert
check_hours now d =
    let hour = hour_ist now in
    if ltb hour 6 || leb 22 hour then fire_alert (after_hours hour) now d else d

unfoldable pub has_route : List ℕ → Routes → Bool
has_route route [] = false
has_route route ((r, ts) ∷ routes) = bytes_eq route r || has_route route routes

-- `iter().copied().min().unwrap_or(u64::MAX)`
unfoldable pub oldest : List ℕ → ℕ
oldest [] = 2 ^ 64 - 1
oldest (t ∷ ts) = min t (oldest ts)

-- The key of the first entry that is the stalest.
unfoldable pub stalest : (List ℕ × List ℕ) → Routes → List ℕ × List ℕ
unfolding oldest
stalest best [] = best
stalest best (entry ∷ routes) =
    stalest (if ltb (oldest entry.1) (oldest best.1) then entry else best) routes

unfoldable pub remove_route : List ℕ → Routes → Routes
remove_route route [] = []
remove_route route ((r, ts) ∷ routes) =
    if bytes_eq route r then routes else (r, ts) ∷ remove_route route routes

unfoldable pub evict : Routes → Routes
unfolding stalest remove_route
evict [] = []
evict (entry ∷ routes) = remove_route (stalest entry routes).0 (entry ∷ routes)

-- The entry of a route with one more timestamp, and the ones inside the window.
unfoldable pub push_route : List ℕ → ℕ → Routes → Routes × List ℕ
unfolding retain_from
push_route route now [] =
    let ts = retain_from (now - route_saturation_window_secs) (now ∷ []) in ((route, ts) ∷ [], ts)
push_route route now ((r, ts) ∷ routes) =
    let ts' = retain_from (now - route_saturation_window_secs) (ts ++ (now ∷ [])) in
    let (routes', found) = push_route route now routes in
    if bytes_eq route r then ((r, ts') ∷ routes, ts') else ((r, ts) ∷ routes', found)

unfoldable pub check_route : List ℕ → ℕ → AnomalyDetector → AnomalyDetector
unfolding has_route evict push_route fire_alert
check_route route now d =
    let full = leb max_tracked_routes (length d.route_timestamps) in
    let routes =
      if full && not (has_route route d.route_timestamps)
      then evict d.route_timestamps
      else d.route_timestamps in
    let (routes', times) = push_route route now routes in
    let d' = record d { route_timestamps = routes' } in
    if leb route_saturation_threshold (length times)
    then fire_alert (route_sat route) now d'
    else d'

unfoldable pub observe : SystemAction → List ℕ → ℕ → AnomalyDetector → AnomalyDetector
unfolding check_burst check_hours check_route
observe action route now d = check_route route now (check_hours now (check_burst action now d))
