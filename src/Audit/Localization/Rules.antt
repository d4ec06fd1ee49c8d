-- ===== src/Audit/Localization/Rules.antt =====
-- Which routes solomon-core/src/audit/data_localization.rs approves.
use project_solomon.Prelude.{
  ℕ, List, [], ◌∷◌, Bool, true, false, if◌then◌else◌, Bool-cases, inl, inr, ◌↔◌,
}
use project_solomon.Prelude.{◌≡◌, refl, sym, ◌∙◌, arith}
use project_solomon.Audit.Localization.{
  approved_india_regions, blocked_foreign_regions, cloud_providers, LocalizationResult, contains,
  contains_any, check_approved, check_blocked, check_data_localization,
}

approved_eq :
    (text : List ℕ) (patterns : List (List ℕ)) (otherwise : LocalizationResult)
    → check_approved text patterns otherwise
      ≡ (if contains_any text patterns then LocalizationResult.approved else otherwise)
unfolding check_approved contains_any
approved_eq text [] otherwise = refl
approved_eq text (p ∷ patterns) otherwise = elim (Bool-cases (contains text p)) [
  | inl e ↦ rw e refl
  | inr e ↦ rw e (approved_eq text patterns otherwise)
]

blocked_none :
    (text : List ℕ) (patterns : List (List ℕ)) (otherwise : LocalizationResult)
    → contains_any text patterns ≡ false
    → check_blocked text patterns otherwise ≡ otherwise
unfolding check_blocked contains_any
blocked_none text [] otherwise h = refl
blocked_none text (p ∷ patterns) otherwise h = elim (Bool-cases (contains text p)) [
  | inl e ↦ ground (arith)
  | inr e ↦ rw e (blocked_none text patterns otherwise (ground arith))
]

blocked_some :
    (text : List ℕ) (patterns : List (List ℕ)) (otherwise : LocalizationResult)
    → contains_any text patterns ≡ true
    → ¬ (check_blocked text patterns otherwise ≡ LocalizationResult.approved)
unfolding check_blocked contains_any
blocked_some text [] otherwise h = cc
blocked_some text (p ∷ patterns) otherwise h = elim (Bool-cases (contains text p)) [
  | inl e ↦ rw e (λ d. cc)
  | inr e ↦ rw e (blocked_some text patterns otherwise (ground arith))
]

both : {b : Bool} → b ≡ true → b ≡ false → ⊥
both e f = cc

-- What follows the check of the foreign regions.
behind : List ℕ → LocalizationResult
unfolding contains_any check_approved
behind text =
    if contains_any text cloud_providers
    then check_approved text approved_india_regions LocalizationResult.cloud_without_region
    else check_approved text approved_india_regions LocalizationResult.no_match

approved_behind :
    (text : List ℕ)
    → contains_any text approved_india_regions ≡ true
    → behind text ≡ LocalizationResult.approved
unfolding behind
approved_behind text h = elim (Bool-cases (contains_any text cloud_providers)) [
  | inl e ↦ rw e (approved_eq text approved_india_regions _ ∙ rw h refl)
  | inr e ↦ rw e (approved_eq text approved_india_regions _ ∙ rw h refl)
]

not_behind :
    (text : List ℕ)
    → contains_any text approved_india_regions ≡ false
    → ¬ (behind text ≡ LocalizationResult.approved)
unfolding behind
not_behind text h = elim (Bool-cases (contains_any text cloud_providers)) [
  | inl e ↦
      rw (e, approved_eq text approved_india_regions LocalizationResult.cloud_without_region, h)
        (λ d. cc)
  | inr e ↦ rw (e, approved_eq text approved_india_regions LocalizationResult.no_match, h) (λ d. cc)
]

behind_approved :
    (text : List ℕ)
    → behind text ≡ LocalizationResult.approved
    → contains_any text approved_india_regions ≡ true
behind_approved text d = elim (Bool-cases (contains_any text approved_india_regions)) [
  | inl e ↦ e
  | inr e ↦ absurd (not_behind text e d)
]

-- A route is approved exactly when its lower-case text contains no foreign pattern and some approved
-- one, wherever in the text they stand; every other route is rejected, also one that matches nothing.
pub check_data_localization_iff :
    (to_lowercase : List ℕ → List ℕ) (route : List ℕ)
    → (check_data_localization to_lowercase route ≡ LocalizationResult.approved) ↔ (
        (contains_any (to_lowercase route) blocked_foreign_regions ≡ false)
        × (contains_any (to_lowercase route) approved_india_regions ≡ true))
unfolding check_data_localization behind
check_data_localization_iff to_lowercase route =
    let text : List ℕ = to_lowercase route in
    elim (Bool-cases (contains_any text blocked_foreign_regions)) [
      | inl e ↦ (
        λ d. absurd (blocked_some text blocked_foreign_regions _ e d),
        λ p. let (f, g) = p in absurd (both e f),
      )
      | inr e ↦
          let step : check_data_localization to_lowercase route ≡ behind text =
            blocked_none text blocked_foreign_regions (behind text) e in
          (
            λ d. (e, behind_approved text (sym step ∙ d)),
            λ p. let (f, g) = p in step ∙ approved_behind text g,
          )
    ]
