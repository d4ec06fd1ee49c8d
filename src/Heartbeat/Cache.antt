-- ===== src/Heartbeat/Cache.antt =====
-- The cache file of solomon-core/src/heartbeat.rs across a restart.
use project_solomon.Prelude.{ℕ, ◌+◌, ◌^◌, ◌≤◌, ◌<◌, ◌≡◌, refl, sym, ap, ◌∙◌, arith}
use project_solomon.Prelude.{
  leb, ◌==◌, if◌then◌else◌, Bool, true, false, ◌&&◌, Bool-cases, inl, inr,
}
use project_solomon.Prelude.{List, ◌++◌, Option, none, some, length, take, drop, length-append}
use project_solomon.Prelude.{take-append, drop-append, take_all, append_assoc}
use mathlib.Core.Bool.{true≢false}
use project_solomon.Prelude.{true_of_and, ==_iff, leb→le, length-drop}
use project_solomon.Prelude.Bytes.{be_bytes, from_be, length-be_bytes, from_be-be_bytes8}
use project_solomon.Prelude.Xor.{fold_diff, fold_diff_self, eq_of_fold_diff}
use project_solomon.Heartbeat.{HeartbeatManager}
use project_solomon.Heartbeat.{get_status, is_operational, status_is_operational}
use project_solomon.Heartbeat.{total_expiry_secs, saturating_add, cache_of}
use project_solomon.Heartbeat.{
  save_to_cache, record_successful_sync, mac_matches, recover_from, recover_from_cache, start,
}

-- A manager as it is before the recovery.
abbrev fresh : List ℕ → Option (List ℕ) → HeartbeatManager
fresh fingerprint cache = record {
  last_synced_epoch = 0;
  hardware_fingerprint = fingerprint;
  cache = cache;
  state_code = 2;
}

fresh_fails :
    (now : ℕ) (fp : List ℕ) (cache : Option (List ℕ)) → is_operational now (fresh fp cache) ≡ false
unfolding is_operational get_status status_is_operational
fresh_fails now fp cache = refl

refuted :
    (now : ℕ) (r : HeartbeatManager) (fp : List ℕ) (cache : Option (List ℕ))
    → r ≡ fresh fp cache
    → is_operational now r ≡ true
    → ⊥
refuted now r fp cache e h =
    true≢false (sym h ∙ ap (is_operational now) e ∙ fresh_fails now fp cache)

and_true : (b : Bool) → (b && true) ≡ b
and_true true = refl
and_true false = refl

-- Storing the code of the status leaves the status.
recovered_status :
    (now ts : ℕ) (a b c : HeartbeatManager)
    → a.last_synced_epoch ≡ 0
    → b.last_synced_epoch ≡ ts
    → c.last_synced_epoch ≡ ts
    → is_operational now
        (if leb now (saturating_add ts total_expiry_secs) then (get_status now b).1 else a)
      ≡ is_operational now c
unfolding is_operational get_status status_is_operational
recovered_status now ts a b c ea eb ec = ground arith

module _ (shake : List ℕ → List ℕ) (token_is_valid : List ℕ → Bool)
    (length-shake : (xs : List ℕ) → length (shake xs) ≡ 32) where
  module _ (now : ℕ) (content : List ℕ) (mgr : HeartbeatManager) where
    recover_from_short :
        (length content == 120) ≡ false → recover_from shake token_is_valid now content mgr ≡ mgr
    unfolding recover_from
    recover_from_short e = rw e refl

    recover_from_forged :
        (length content == 120) ≡ true
        → mac_matches shake token_is_valid mgr.hardware_fingerprint content ≡ false
        → recover_from shake token_is_valid now content mgr ≡ mgr
    unfolding recover_from
    recover_from_forged l e = rw (l, e) refl

    recover_from_signed :
        (length content == 120) ≡ true
        → mac_matches shake token_is_valid mgr.hardware_fingerprint content ≡ true
        → recover_from shake token_is_valid now content mgr ≡ (
            if leb now (saturating_add (from_be (take 8 content)) total_expiry_secs)
              && token_is_valid (take 80 (drop 8 content))
            then (get_status now (record mgr { last_synced_epoch = from_be (take 8 content) })).1
            else mgr)
    unfolding recover_from
    recover_from_signed l e = rw (l, e) refl

  module _ (fingerprint token : List ℕ) (ts : ℕ) (long : length token ≡ 80)
      (fits : ts < 2 ^ 64) where
    abbrev content : List ℕ
    content = cache_of shake token_is_valid fingerprint token ts

    abbrev signed : List ℕ
    signed = be_bytes 8 ts ++ token

    length-signed : length signed ≡ 88
    length-signed = omega (arith, length-append (be_bytes 8 ts) token, length-be_bytes 8 ts)

    length-content : length content ≡ 120
    unfolding cache_of
    length-content = omega (
      arith,
      length-append signed (shake (fingerprint ++ signed)),
      length-signed,
      length-shake (fingerprint ++ signed),
    )

    signed-content : take 88 content ≡ signed
    unfolding cache_of
    signed-content = take-append 88 signed (shake (fingerprint ++ signed)) length-signed

    mac-content : take 32 (drop 88 content) ≡ shake (fingerprint ++ signed)
    unfolding cache_of
    mac-content =
        ap (λ t. take 32 t) (drop-append 88 signed (shake (fingerprint ++ signed)) length-signed)
        ∙ take_all 32 (shake (fingerprint ++ signed))
            (omega (arith, length-shake (fingerprint ++ signed)))

    mac_matches-content : mac_matches shake token_is_valid fingerprint content ≡ true
    unfolding mac_matches
    mac_matches-content =
        rw (mac-content, signed-content, fold_diff_self (shake (fingerprint ++ signed))) refl

    behind_signed : content ≡ be_bytes 8 ts ++ (token ++ shake (fingerprint ++ signed))
    unfolding cache_of
    behind_signed = append_assoc (be_bytes 8 ts) token (shake (fingerprint ++ signed))

    timestamp-content : from_be (take 8 content) ≡ ts
    timestamp-content =
        ap (λ t. from_be (take 8 t)) behind_signed
        ∙ ap from_be (take-append 8 (be_bytes 8 ts) _ (length-be_bytes 8 ts))
        ∙ from_be-be_bytes8 ts fits

    token-content : take 80 (drop 8 content) ≡ token
    token-content =
        ap (λ t. take 80 (drop 8 t)) behind_signed
        ∙ ap (λ t. take 80 t) (drop-append 8 (be_bytes 8 ts) _ (length-be_bytes 8 ts))
        ∙ take-append 80 token _ long

  mac_of_matches :
      (fingerprint file : List ℕ)
      → length file ≡ 120
      → mac_matches shake token_is_valid fingerprint file ≡ true
      → drop 88 file ≡ shake (fingerprint ++ take 88 file)
  unfolding mac_matches
  mac_of_matches fingerprint file l e =
      let mac : List ℕ = drop 88 file in
      let expected : List ℕ = shake (fingerprint ++ take 88 file) in
      let thirty_two : length mac ≡ 32 = omega (arith, length-drop 88 file) in
      let all : take 32 mac ≡ mac = take_all 32 mac (omega arith) in
      sym all
      ∙ eq_of_fold_diff (take 32 mac) expected
          (ap (λ t. length t) all ∙ thirty_two ∙ sym (length-shake (fingerprint ++ take 88 file)))
          ((==_iff (fold_diff 0 (take 32 mac) expected) 0).0 e)

  -- A manager that starts beside the cache file that a successful sync has written, with the same
  -- fingerprint, permits transactions at its start exactly if the one that synced would, whatever the
  -- clock shows; the token is accepted and has 80 bytes, a MAC has 32, and the timestamp fits 64 bits.
  pub start-record_successful_sync :
      (now ts : ℕ) (token : List ℕ) (mgr : HeartbeatManager)
      → length token ≡ 80
      → ts < 2 ^ 64
      → token_is_valid token ≡ true
      → is_operational now (
          start shake token_is_valid now mgr.hardware_fingerprint
            (record_successful_sync shake token_is_valid token ts mgr).1.cache)
        ≡ is_operational now (record_successful_sync shake token_is_valid token ts mgr).1
  unfolding start recover_from_cache record_successful_sync save_to_cache
  start-record_successful_sync now ts token mgr long fits valid =
      let fp : List ℕ = mgr.hardware_fingerprint in
      let file : List ℕ = content fp token ts long fits in
      let before : HeartbeatManager = fresh fp (some file) in
      let whole : (length file == 120) ≡ true =
        ground (arith, length-content fp token ts long fits) in
      rw valid (
        ap (is_operational now) (
          recover_from_signed now file before whole (mac_matches-content fp token ts long fits)
          ∙ rw (timestamp-content fp token ts long fits, token-content fp token ts long fits, valid)
              (ap
                (λ c.
                  if c
                  then (get_status now (record before { last_synced_epoch = ts })).1
                  else before)
                (and_true (leb now (saturating_add ts total_expiry_secs)))))
        ∙ recovered_status now ts before (record before { last_synced_epoch = ts }) _ refl refl
            refl)

  -- A manager that permits transactions right after its start has found a cache file of 120 bytes whose
  -- last 32 are the MAC of the first 88 under its own fingerprint, whose token is accepted, and whose
  -- timestamp is at most 345,600 seconds old; a MAC has 32 bytes. Anything else fails closed.
  pub start-fail_closed :
      (now : ℕ) (fingerprint : List ℕ) (cache : Option (List ℕ))
      → is_operational now (start shake token_is_valid now fingerprint cache) ≡ true
      → (file : List ℕ) × (cache ≡ some file)
        × (length file ≡ 120)
        × (drop 88 file ≡ shake (fingerprint ++ take 88 file))
        × (token_is_valid (take 80 (drop 8 file)) ≡ true)
        × (now ≤ from_be (take 8 file) + 345600)
  unfolding start recover_from_cache
  start-fail_closed now fingerprint none e =
      absurd (refuted now (fresh fingerprint none) fingerprint none refl e)
  start-fail_closed now fingerprint (some file) e =
      let before : HeartbeatManager = fresh fingerprint (some file) in
      let timely : Bool = leb now (saturating_add (from_be (take 8 file)) total_expiry_secs) in
      let valid : Bool = token_is_valid (take 80 (drop 8 file)) in
      elim (Bool-cases (length file == 120)) [
        | inr short ↦
            absurd
              (refuted now _ fingerprint (some file) (recover_from_short now file before short) e)
        | inl whole ↦ elim (Bool-cases (mac_matches shake token_is_valid fingerprint file)) [
          | inr forged ↦ absurd (
              refuted now _ fingerprint (some file)
                (recover_from_forged now file before whole forged) e)
          | inl mac ↦ elim (Bool-cases (timely && valid)) [
            | inr stale ↦ absurd (
                refuted now _ fingerprint (some file)
                  (recover_from_signed now file before whole mac ∙ rw stale refl) e)
            | inl good ↦
                let l : length file ≡ 120 = (==_iff (length file) 120).0 whole in
                let le : now ≤ saturating_add (from_be (take 8 file)) total_expiry_secs =
                  leb→le now (saturating_add (from_be (take 8 file)) total_expiry_secs)
                    (true_of_and timely valid good).0 in
                (
                  file,
                  refl,
                  l,
                  mac_of_matches fingerprint file l mac,
                  (true_of_and timely valid good).1,
                  omega arith,
                )
          ]
        ]
      ]
