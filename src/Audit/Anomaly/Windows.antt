-- ===== src/Audit/Anomaly/Windows.antt =====
-- The memory of the detector in solomon-core/src/audit/anomaly.rs, and the pause between its alerts.
use project_solomon.Prelude.{ℕ, ◌+◌, ◌-◌, ◌≤◌, ◌<◌, ◌≡◌, refl, arith}
use project_solomon.Prelude.{
  Bool, true, false, not, ◌&&◌, ◌||◌, Bool-cases, inl, inr, ltb, leb, if◌then◌else◌,
}
use project_solomon.Prelude.{List, [], ◌∷◌, ◌++◌, length, length-drop}
use project_solomon.Prelude.Bytes.{bytes_eq, bytes_eq_refl}
use project_solomon.Audit.Record.{SystemAction}
use project_solomon.Audit.Anomaly.{
  AlertKey, burst_failure, after_hours, route_sat, same_key, Routes,
}
use project_solomon.Audit.Anomaly.{
  AnomalyDetector, last_alert, put_alert, fire_alert, retain_from, is_failure,
}
use project_solomon.Audit.Anomaly.{
  push_failure, check_burst, hour_ist, check_hours, has_route, oldest,
}
use project_solomon.Audit.Anomaly.{stalest, remove_route, evict, push_route, check_route, observe}

same_key_refl : (key : AlertKey) → same_key key key ≡ true
unfolding same_key
same_key_refl burst_failure = refl
same_key_refl (after_hours h) = ground arith
same_key_refl (route_sat r) = bytes_eq_refl r

last_alert-put_alert :
    (key : AlertKey) (now : ℕ) (times : List (AlertKey × ℕ))
    → last_alert key (put_alert key now times) ≡ now
unfolding last_alert put_alert
last_alert-put_alert key now [] = rw (same_key_refl key) refl
last_alert-put_alert key now ((k, t) ∷ times) = elim (Bool-cases (same_key key k)) [
  | inl e ↦ rw (e, last_alert, e) refl
  | inr e ↦ rw (e, last_alert, e) (last_alert-put_alert key now times)
]

-- An alert that was fired is not fired again under the same key in the 300 seconds from then on: the
-- detector stays what it is.
pub fire_alert-fire_alert :
    (key : AlertKey) (now later : ℕ) (d : AnomalyDetector)
    → (fire_alert key now d).alert_count ≡ d.alert_count + 1
    → later < now + 300
    → fire_alert key later (fire_alert key now d) ≡ fire_alert key now d
unfolding fire_alert
fire_alert-fire_alert key now later d fired h =
    elim (Bool-cases (ltb (now - last_alert key d.last_alert_times) 300)) [
      | inl quiet ↦ absurd (omega (arith, rw quiet at fired))
      | inr fires ↦
          let soon : ltb (later - last_alert key (put_alert key now d.last_alert_times)) 300
              ≡ true =
            ground (arith, last_alert-put_alert key now d.last_alert_times) in
          rw (fires, soon) refl
    ]

-- What the detector may keep in memory.
pub record IsSmall (d : AnomalyDetector) : Type 0 where
  pub failures : length d.failure_timestamps ≤ 1000
  pub routes : length d.route_timestamps ≤ 1024

fire_alert-IsSmall :
    (key : AlertKey) (now : ℕ) (d : AnomalyDetector) → IsSmall d → IsSmall (fire_alert key now d)
unfolding fire_alert
fire_alert-IsSmall key now d h =
    elim (Bool-cases (ltb (now - last_alert key d.last_alert_times) 300)) [
      | inl e ↦ rw e h
      | inr e ↦ rw e (record { failures = h.failures; routes = h.routes })
    ]

push_failure-le : (now : ℕ) (failures : List ℕ) → length (push_failure now failures) ≤ 1000
unfolding push_failure
push_failure-le now failures =
    let kept : List ℕ = retain_from (now - 60) (failures ++ (now ∷ [])) in
    ground (arith, length-drop (length kept - 1000) kept)

check_burst-IsSmall :
    (action : SystemAction) (now : ℕ) (d : AnomalyDetector)
    → IsSmall d
    → IsSmall (check_burst action now d)
unfolding check_burst
check_burst-IsSmall action now d h =
    let failures : List ℕ = push_failure now d.failure_timestamps in
    let d' : AnomalyDetector = record d { failure_timestamps = failures } in
    let h' : IsSmall d' = record {
      failures = push_failure-le now d.failure_timestamps;
      routes = h.routes;
    } in
    elim (Bool-cases (is_failure action)) [
      | inr e ↦ rw e h
      | inl e ↦ elim (Bool-cases (leb 10 (length failures))) [
        | inl f ↦ rw (e, f) (fire_alert-IsSmall burst_failure now d' h')
        | inr f ↦ rw (e, f) h'
      ]
    ]

check_hours-IsSmall : (now : ℕ) (d : AnomalyDetector) → IsSmall d → IsSmall (check_hours now d)
unfolding check_hours
check_hours-IsSmall now d h = elim (Bool-cases (ltb (hour_ist now) 6 || leb 22 (hour_ist now))) [
  | inl e ↦ rw e (fire_alert-IsSmall (after_hours (hour_ist now)) now d h)
  | inr e ↦ rw e h
]

-- A route that is tracked keeps its place; another takes one more.
length-push_route :
    (route : List ℕ) (now : ℕ) (routes : Routes)
    → length (push_route route now routes).0
      ≡ (if has_route route routes then length routes else length routes + 1)
unfolding push_route has_route
length-push_route route now [] = refl
length-push_route route now ((r, ts) ∷ routes) = elim (Bool-cases (bytes_eq route r)) [
  | inl e ↦ rw e refl
  | inr e ↦ rw e (ground (arith, length-push_route route now routes))
]

length-remove_route :
    (route : List ℕ) (routes : Routes)
    → has_route route routes ≡ true
    → length (remove_route route routes) + 1 ≡ length routes
unfolding remove_route has_route
length-remove_route route [] h = absurd ground arith
length-remove_route route ((r, ts) ∷ routes) h = elim (Bool-cases (bytes_eq route r)) [
  | inl e ↦ rw e (omega arith)
  | inr e ↦ rw e (omega (arith, length-remove_route route routes (rw e at h)))
]

or_second : (a b : Bool) → b ≡ true → (a || b) ≡ true
or_second true b h = refl
or_second false b h = h

or_third : (a b c : Bool) → (a || c) ≡ true → (a || (b || c)) ≡ true
or_third true b c h = refl
or_third false true c h = refl
or_third false false c h = h

stalest_among :
    (newer : Bool) (best entry : List ℕ × List ℕ) (routes : Routes)
    → ((other : List ℕ × List ℕ) → has_route (stalest other routes).0 (other ∷ routes) ≡ true)
    → has_route (stalest (if newer then entry else best) routes).0 (best ∷ entry ∷ routes) ≡ true
unfolding has_route
stalest_among true best entry routes rec =
    or_second (bytes_eq (stalest entry routes).0 best.0) _ (rec entry)
stalest_among false best entry routes rec =
    or_third (bytes_eq (stalest best routes).0 best.0) (bytes_eq (stalest best routes).0 entry.0)
      (has_route (stalest best routes).0 routes) (rec best)

-- The stalest route is one of those that are tracked.
stalest-has_route :
    (best : List ℕ × List ℕ) (routes : Routes)
    → has_route (stalest best routes).0 (best ∷ routes) ≡ true
unfolding has_route stalest
stalest-has_route best [] = rw (bytes_eq_refl best.0) refl
stalest-has_route best (entry ∷ routes) =
    stalest_among (ltb (oldest entry.1) (oldest best.1)) best entry routes
      (λ other. stalest-has_route other routes)

length-evict : (routes : Routes) → 1 ≤ length routes → length (evict routes) + 1 ≡ length routes
unfolding evict
length-evict [] h = absurd (omega arith)
length-evict (entry ∷ routes) h =
    length-remove_route (stalest entry routes).0 (entry ∷ routes) (stalest-has_route entry routes)

-- A new route is let in only after another one has left, once 1024 are tracked.
push_route-le :
    (route : List ℕ) (now : ℕ) (routes : Routes)
    → length routes ≤ 1024
    → length
        (push_route route now (
          if leb 1024 (length routes) && not (has_route route routes)
          then evict routes
          else routes)).0
      ≤ 1024
push_route-le route now routes h =
    elim (Bool-cases (leb 1024 (length routes) && not (has_route route routes))) [
      | inl e ↦ rw e (
          ground
            (arith, length-push_route route now (evict routes), length-evict routes (ground arith)))
      | inr e ↦ rw e (ground (arith, length-push_route route now routes))
    ]

check_route-IsSmall :
    (route : List ℕ) (now : ℕ) (d : AnomalyDetector) → IsSmall d → IsSmall (check_route route now d)
unfolding check_route
check_route-IsSmall route now d h =
    let before : Routes = d.route_timestamps in
    let routes : Routes =
      if leb 1024 (length before) && not (has_route route before) then evict before else before in
    let d' : AnomalyDetector = record d { route_timestamps = (push_route route now routes).0 } in
    let h' : IsSmall d' = record {
      failures = h.failures;
      routes = push_route-le route now before h.routes;
    } in
    elim (Bool-cases (leb 100 (length (push_route route now routes).1))) [
      | inl e ↦ rw e (fire_alert-IsSmall (route_sat route) now d' h')
      | inr e ↦ rw e h'
    ]

-- From a detector within them, no event takes the failures that are kept above 1000 or the routes that
-- are tracked above 1024.
pub observe-IsSmall :
    (action : SystemAction) (route : List ℕ) (now : ℕ) (d : AnomalyDetector)
    → IsSmall d
    → IsSmall (observe action route now d)
unfolding observe
observe-IsSmall action route now d h =
    check_route-IsSmall route now (check_hours now (check_burst action now d))
      (check_hours-IsSmall now (check_burst action now d) (check_burst-IsSmall action now d h))
