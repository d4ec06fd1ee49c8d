-- ===== src/Audit/Chain/Valid.antt =====
-- What a chain that `verify_chain` accepts is, and where it reports the first fault.
use project_solomon.Prelude.{ℕ, ◌+◌, List, [], ◌∷◌, ◌++◌, length}
use project_solomon.Prelude.{ok, err, ◌≡◌, refl, ◌↔◌, ◌≢◌, arith}
use project_solomon.Prelude.Bytes.{eq_of_bytes_eq, bytes_eq_of_eq}
use project_solomon.Audit.Record.{AuditRecord, Library, recomputed}
use project_solomon.Audit.Chain.{broken_previous_hash, record_hash_mismatch}
use project_solomon.Audit.Chain.{verify_links, verify_chain_with_initial_hash}

module _ {F : Type 0} (lib : Library F) where
  -- Each record links to the hash before it and carries the hash of its own fields.
  abbrev pub IsChained : List ℕ → List (AuditRecord F) → Type 0
  IsChained h [] = Unit {0}
  IsChained h (r ∷ rs) =
      (r.previous_hash ≡ h) × (r.current_hash ≡ recomputed lib r) × IsChained r.current_hash rs

  verify_links-ok :
      (i : ℕ) (prev : AuditRecord F) (rs : List (AuditRecord F))
      → IsChained prev.current_hash rs
      → verify_links lib i prev rs ≡ ok tt
  unfolding verify_links
  verify_links-ok i prev [] h = refl
  verify_links-ok i prev (r ∷ rs) (hp, hc, hs) =
      rw
        (
          bytes_eq_of_eq r.previous_hash prev.current_hash hp,
          bytes_eq_of_eq r.current_hash (recomputed lib r) hc,
        )
        (verify_links-ok (i + 1) r rs hs)

  ok-verify_links :
      (i : ℕ) (prev : AuditRecord F) (rs : List (AuditRecord F))
      → verify_links lib i prev rs ≡ ok tt
      → IsChained prev.current_hash rs
  unfolding verify_links
  ok-verify_links i prev [] h = tt
  ok-verify_links i prev (r ∷ rs) h = ground (
    arith,
    eq_of_bytes_eq r.previous_hash prev.current_hash,
    eq_of_bytes_eq r.current_hash (recomputed lib r),
    ok-verify_links (i + 1) r rs,
  )

  -- `verify_chain_with_initial_hash` accepts exactly the lists in which the first record links to the
  -- given hash, each other record to the hash of the one before, and each carries the hash
  -- recomputed from its own fields.
  pub verify_chain_iff :
      (rs : List (AuditRecord F)) (h : List ℕ)
      → (verify_chain_with_initial_hash lib rs h ≡ ok tt) ↔ IsChained h rs
  unfolding verify_chain_with_initial_hash
  verify_chain_iff [] h = (λ _. tt, λ _. refl)
  verify_chain_iff (r ∷ rs) h = (
    λ e. ground (
      arith,
      eq_of_bytes_eq r.previous_hash h,
      eq_of_bytes_eq r.current_hash (recomputed lib r),
      ok-verify_links 1 r rs,
    ),
    λ c.
        rw
          (
            bytes_eq_of_eq r.previous_hash h c.0,
            bytes_eq_of_eq r.current_hash (recomputed lib r) c.1,
          )
          (verify_links-ok 1 r rs c.2),
  )

  -- The hash that the next record has to link to.
  unfoldable pub head_hash : List ℕ → List (AuditRecord F) → List ℕ
  head_hash h [] = h
  head_hash h (r ∷ rs) = head_hash r.current_hash rs

  verify_links-append :
      (i : ℕ) (prev : AuditRecord F) (good rest : List (AuditRecord F)) (bad : AuditRecord F)
      → IsChained prev.current_hash good
      → bad.previous_hash ≢ head_hash prev.current_hash good
      → verify_links lib i prev (good ++ bad ∷ rest)
        ≡ err (
            broken_previous_hash
              (i + length good)
              (head_hash prev.current_hash good)
              bad.previous_hash)
  unfolding verify_links head_hash
  verify_links-append i prev [] rest bad c n =
      ground (arith, eq_of_bytes_eq bad.previous_hash prev.current_hash)
  verify_links-append i prev (r ∷ rs) rest bad (hp, hc, hs) n =
      rw
        (
          bytes_eq_of_eq r.previous_hash prev.current_hash hp,
          bytes_eq_of_eq r.current_hash (recomputed lib r) hc,
        )
        (ground (arith, verify_links-append (i + 1) r rs rest bad hs n))

  verify_links-append_forged :
      (i : ℕ) (prev : AuditRecord F) (good rest : List (AuditRecord F)) (bad : AuditRecord F)
      → IsChained prev.current_hash good
      → bad.previous_hash ≡ head_hash prev.current_hash good
      → bad.current_hash ≢ recomputed lib bad
      → verify_links lib i prev (good ++ bad ∷ rest)
        ≡ err (record_hash_mismatch (i + length good) (recomputed lib bad) bad.current_hash)
  unfolding verify_links head_hash
  verify_links-append_forged i prev [] rest bad c p n =
      rw (bytes_eq_of_eq bad.previous_hash prev.current_hash p)
        (ground (arith, eq_of_bytes_eq bad.current_hash (recomputed lib bad)))
  verify_links-append_forged i prev (r ∷ rs) rest bad (hp, hc, hs) p n =
      rw
        (
          bytes_eq_of_eq r.previous_hash prev.current_hash hp,
          bytes_eq_of_eq r.current_hash (recomputed lib r) hc,
        )
        (ground (arith, verify_links-append_forged (i + 1) r rs rest bad hs p n))

  -- Behind a good first part that is not empty, a record that does not link to the hash before it is
  -- reported as a broken link at its own index, with the two hashes, whatever follows.
  pub verify_chain_broken_link :
      (h : List ℕ) (r : AuditRecord F) (good rest : List (AuditRecord F)) (bad : AuditRecord F)
      → IsChained h (r ∷ good)
      → bad.previous_hash ≢ head_hash h (r ∷ good)
      → verify_chain_with_initial_hash lib ((r ∷ good) ++ bad ∷ rest) h
        ≡ err (broken_previous_hash (length (r ∷ good)) (head_hash h (r ∷ good)) bad.previous_hash)
  unfolding verify_chain_with_initial_hash head_hash
  verify_chain_broken_link h r good rest bad (hp, hc, hs) n =
      rw (bytes_eq_of_eq r.previous_hash h hp, bytes_eq_of_eq r.current_hash (recomputed lib r) hc)
        (ground (arith, verify_links-append 1 r good rest bad hs n))

  -- Behind a good first part that is not empty, a record that links but whose hash is not that of its fields is reported as a
  -- mismatch at its own index, with the recomputed and the recorded hash, whatever follows.
  pub verify_chain_forged :
      (h : List ℕ) (r : AuditRecord F) (good rest : List (AuditRecord F)) (bad : AuditRecord F)
      → IsChained h (r ∷ good)
      → bad.previous_hash ≡ head_hash h (r ∷ good)
      → bad.current_hash ≢ recomputed lib bad
      → verify_chain_with_initial_hash lib ((r ∷ good) ++ bad ∷ rest) h
        ≡ err (record_hash_mismatch (length (r ∷ good)) (recomputed lib bad) bad.current_hash)
  unfolding verify_chain_with_initial_hash head_hash
  verify_chain_forged h r good rest bad (hp, hc, hs) p n =
      rw (bytes_eq_of_eq r.previous_hash h hp, bytes_eq_of_eq r.current_hash (recomputed lib r) hc)
        (ground (arith, verify_links-append_forged 1 r good rest bad hs p n))

  -- Chains join where the second begins at the head of the first.
  pub IsChained-append :
      (h : List ℕ) (rs ss : List (AuditRecord F))
      → IsChained h rs
      → IsChained (head_hash h rs) ss
      → IsChained h (rs ++ ss)
  unfolding head_hash
  IsChained-append h [] ss c d = d
  IsChained-append h (r ∷ rs) ss (hp, hc, hs) d =
      (hp, hc, IsChained-append r.current_hash rs ss hs d)

  pub head_hash-append :
      (h : List ℕ) (rs ss : List (AuditRecord F))
      → head_hash h (rs ++ ss) ≡ head_hash (head_hash h rs) ss
  unfolding head_hash
  head_hash-append h [] ss = refl
  head_hash-append h (r ∷ rs) ss = head_hash-append r.current_hash rs ss
