-- ===== src/Audit/Chain/Evidence.antt =====
-- What the head hash of a chain of solomon-core/src/audit/chain.rs pins down, and what it does not.
use project_solomon.Prelude.{ℕ, List, [], ◌∷◌, ◌++◌, length, take, map}
use project_solomon.Prelude.{ok, ◌≡◌, refl, sym, ap, ◌∙◌, ap₂, ◌≢◌, ◌⊎◌, inl, inr, arith}
use project_solomon.Prelude.{append_assoc, take-append}
use project_solomon.Prelude.Bytes.{concat, le_bytes, bytes_discrete}
use project_solomon.Audit.Record.{AuditRecord, Library, preimage, hex_digest, compute_hash}
use project_solomon.Audit.Record.{content, recomputed}
use project_solomon.Audit.Chain.{verify_links, verify_chain_with_initial_hash}
use project_solomon.Audit.Chain.Valid.{IsChained, head_hash, verify_chain_iff}

-- Two texts with one digest.
abbrev pub Collision : {F : Type 0} → Library F → Type 0
Collision lib = (x : List ℕ) × (y : List ℕ) × (x ≢ y) × (lib.digest x ≡ lib.digest y)

module _ {F : Type 0} (lib : Library F) where
  recomputed-content : (r : AuditRecord F) → recomputed lib r ≡ lib.digest (content lib r)
  unfolding recomputed hex_digest content compute_hash
  recomputed-content r = refl

  content-previous :
      (r : AuditRecord F) → length r.previous_hash ≡ 64 → take 64 (content lib r) ≡ r.previous_hash
  unfolding content preimage concat
  content-previous r h = take-append 64 r.previous_hash _ h

  -- One record on each side, under equal hashes.
  same_or_Collision :
      (r s : AuditRecord F)
      → lib.digest (content lib r) ≡ lib.digest (content lib s)
      → (content lib r ≡ content lib s) ⊎ Collision lib
  same_or_Collision r s e = elim (bytes_discrete (content lib r) (content lib s)) [
    | yes same ↦ inl same
    | no differ ↦ inr (content lib r, content lib s, differ, e)
  ]

  previous_of_content :
      (r s : AuditRecord F)
      → length r.previous_hash ≡ 64
      → length s.previous_hash ≡ 64
      → content lib r ≡ content lib s
      → r.previous_hash ≡ s.previous_hash
  previous_of_content r s hr hs e =
      sym (content-previous r hr) ∙ ap (λ t. take 64 t) e ∙ content-previous s hs

  -- The contents of two lists agree, and so do the hashes that they began from.
  abbrev Agree : List ℕ → List ℕ → List (AuditRecord F) → List (AuditRecord F) → Type 0
  Agree h k rs ss = (h ≡ k) × (map (content lib) rs ≡ map (content lib) ss)

  Agree-cons :
      (h k : List ℕ) (r s : AuditRecord F) (rs ss : List (AuditRecord F))
      → length h ≡ 64
      → length k ≡ 64
      → (r.previous_hash ≡ h) × (r.current_hash ≡ recomputed lib r)
      → (s.previous_hash ≡ k) × (s.current_hash ≡ recomputed lib s)
      → Agree r.current_hash s.current_hash rs ss ⊎ Collision lib
      → Agree h k (r ∷ rs) (s ∷ ss) ⊎ Collision lib
  Agree-cons h k r s rs ss hh hk c d (inr found) = inr found
  Agree-cons h k r s rs ss hh hk (cp, cr) (dp, ds) (inl (heads, bodies)) =
      elim (same_or_Collision r s
        (sym (cr ∙ recomputed-content r) ∙ heads ∙ ds ∙ recomputed-content s)) [
          | inr found ↦ inr found
          | inl one ↦ inl (
            sym cp
                ∙ previous_of_content r s (ap (λ t. length t) cp ∙ hh) (ap (λ t. length t) dp ∙ hk)
                    one
                ∙ dp,
            ap₂ (λ x xs. x ∷ xs) one bodies,
          )
        ]

  chains-Agree :
      (fixed : (x : List ℕ) → length (lib.digest x) ≡ 64)
      → (h k : List ℕ) (rs ss : List (AuditRecord F)) → length h ≡ 64
      → length k ≡ 64
      → length rs ≡ length ss
      → IsChained lib h rs
      → IsChained lib k ss
      → head_hash lib h rs ≡ head_hash lib k ss
      → Agree h k rs ss ⊎ Collision lib
  unfolding head_hash
  chains-Agree fixed h k [] [] hh hk e c d same = inl (same, refl)
  chains-Agree fixed h k [] (s ∷ ss) hh hk e c d same = absurd (omega arith)
  chains-Agree fixed h k (r ∷ rs) [] hh hk e c d same = absurd (omega arith)
  chains-Agree fixed h k (r ∷ rs) (s ∷ ss) hh hk e (cp, cr, cs) (dp, dr, ds) same =
      Agree-cons h k r s rs ss hh hk (cp, cr) (dp, dr)
        (chains-Agree fixed r.current_hash s.current_hash rs ss
          (ap (λ t. length t) (cr ∙ recomputed-content r) ∙ fixed (content lib r))
          (ap (λ t. length t) (dr ∙ recomputed-content s) ∙ fixed (content lib s)) (omega arith) cs
          ds same)

  -- Two accepted chains of the same length under one head hash have the same hashed contents, record
  -- by record, and began from the same hash; or two different texts with one digest are at hand.
  -- The digest's texts have 64 characters, and so has each initial hash.
  pub tamper_evidence :
      (fixed : (x : List ℕ) → length (lib.digest x) ≡ 64)
      → (h k : List ℕ) (rs ss : List (AuditRecord F)) → length h ≡ 64
      → length k ≡ 64
      → length rs ≡ length ss
      → verify_chain_with_initial_hash lib rs h ≡ ok tt
      → verify_chain_with_initial_hash lib ss k ≡ ok tt
      → head_hash lib h rs ≡ head_hash lib k ss
      → ((h ≡ k) × (map (content lib) rs ≡ map (content lib) ss)) ⊎ Collision lib
  tamper_evidence fixed h k rs ss hh hk e c d same =
      chains-Agree fixed h k rs ss hh hk e ((verify_chain_iff lib rs h).0 c)
        ((verify_chain_iff lib ss k).0 d) same

  -- A record whose event id takes the first bytes of the route, or gives its last bytes to it.
  abbrev pub with_boundary : AuditRecord F → List ℕ → List ℕ → AuditRecord F
  with_boundary r event route = record r { event_id = event; route_target = route }

  boundary_recomputed :
      (r : AuditRecord F) (a b c : List ℕ)
      → recomputed lib (with_boundary r (a ++ b) c) ≡ recomputed lib (with_boundary r a (b ++ c))
  unfolding recomputed compute_hash hex_digest preimage concat
  boundary_recomputed r a b c =
      let rest : List ℕ = concat (
        lib.crypto_json r.crypto_profile
        ∷ r.localization_region
        ∷ lib.action_json r.system_action
        ∷ []) in
      ap (λ t. lib.digest (r.previous_hash ++ (le_bytes 8 r.timestamp_utc ++ t)))
        (append_assoc a b (c ++ rest) ∙ ap (λ t. a ++ t) (sym (append_assoc b c rest)))

  verify_links_prev :
      (i : ℕ) (p q : AuditRecord F) (rs : List (AuditRecord F))
      → p.current_hash ≡ q.current_hash
      → verify_links lib i p rs ≡ verify_links lib i q rs
  unfolding verify_links
  verify_links_prev i p q [] e = refl
  verify_links_prev i p q (r ∷ rs) e = rw e

  -- The chunks are hashed without their lengths, so bytes that move from the event id to the route
  -- of the first record leave the verdict of the verification what it was.
  pub boundary_unseen :
      (r : AuditRecord F) (a b c : List ℕ) (rs : List (AuditRecord F)) (h : List ℕ)
      → verify_chain_with_initial_hash lib (with_boundary r (a ++ b) c ∷ rs) h
        ≡ verify_chain_with_initial_hash lib (with_boundary r a (b ++ c) ∷ rs) h
  unfolding verify_chain_with_initial_hash
  boundary_unseen r a b c rs h = rw (
    boundary_recomputed r a b c,
    verify_links_prev 1 (with_boundary r (a ++ b) c) (with_boundary r a (b ++ c)) rs refl,
  )
