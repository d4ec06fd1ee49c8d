-- ===== src/Audit/Localization.antt =====
-- Data localization of solomon-core/src/audit/data_localization.rs: which routes stay in India. A text
-- is its UTF-8 bytes; `to_lowercase` of the standard library is a parameter.
pub mod Rules
use Prim.Native.Char.{code}
use Prim.Native.String.{String}
use project_solomon.Prelude.{ℕ, List, [], ◌∷◌, Bool, true, false, ◌&&◌, ◌||◌, ◌==◌, if◌then◌else◌}

-- The bytes of an ASCII text.
abbrev pub codes : String → List ℕ
codes String.[] = []
codes (String.◌∷◌ c s) = code c ∷ codes s

abbrev pub approved_india_regions : List (List ℕ)
approved_india_regions =
    codes "ap-south-1"
    ∷ codes "ap-south-2"
    ∷ codes "asia-south1"
    ∷ codes "asia-south2"
    ∷ codes "centralindia"
    ∷ codes "southindia"
    ∷ codes "westindia"
    ∷ codes "in-mum"
    ∷ codes "in-del"
    ∷ codes "in-blr"
    ∷ codes "in-hyd"
    ∷ codes "in-chn"
    ∷ codes "10."
    ∷ codes "192.168."
    ∷ codes "172.16."
    ∷ codes "172.17."
    ∷ codes "172.18."
    ∷ codes "172.19."
    ∷ codes "172.20."
    ∷ codes "172.21."
    ∷ codes "172.22."
    ∷ codes "172.23."
    ∷ codes "172.24."
    ∷ codes "172.25."
    ∷ codes "172.26."
    ∷ codes "172.27."
    ∷ codes "172.28."
    ∷ codes "172.29."
    ∷ codes "172.30."
    ∷ codes "172.31."
    ∷ codes "127.0.0.1"
    ∷ codes "localhost"
    ∷ codes "::1"
    ∷ []

abbrev pub blocked_foreign_regions : List (List ℕ)
blocked_foreign_regions =
    codes "us-east"
    ∷ codes "us-west"
    ∷ codes "us-central"
    ∷ codes "eu-west"
    ∷ codes "eu-central"
    ∷ codes "eu-north"
    ∷ codes "ap-northeast"
    ∷ codes "ap-southeast-1"
    ∷ codes "ap-southeast-2"
    ∷ codes "ap-southeast-3"
    ∷ codes "ap-southeast-4"
    ∷ codes "sa-east"
    ∷ codes "ca-central"
    ∷ codes "me-central"
    ∷ codes "af-south"
    ∷ codes "us-gov"
    ∷ codes ".co.uk"
    ∷ codes ".de"
    ∷ codes ".fr"
    ∷ codes ".cn"
    ∷ codes ".ru"
    ∷ codes ".jp"
    ∷ codes ".au"
    ∷ codes ".sg"
    ∷ []

abbrev pub cloud_providers : List (List ℕ)
cloud_providers =
    codes "amazonaws.com"
    ∷ codes "azure.com"
    ∷ codes "googlecloud.com"
    ∷ codes "googleapis.com"
    ∷ []

-- The texts of the four rejections are told apart by their constructor.
pub data LocalizationResult : Type 0 where
  approved : LocalizationResult
  foreign_region : List ℕ → LocalizationResult
  cloud_without_region : LocalizationResult
  no_match : LocalizationResult

unfoldable pub starts_with : List ℕ → List ℕ → Bool
starts_with text [] = true
starts_with [] (p ∷ pattern) = false
starts_with (t ∷ text) (p ∷ pattern) = t == p && starts_with text pattern

-- `text.contains(pattern)`
unfoldable pub contains : List ℕ → List ℕ → Bool
unfolding starts_with
contains [] pattern = starts_with [] pattern
contains (t ∷ text) pattern = starts_with (t ∷ text) pattern || contains text pattern

-- `any` of the patterns is contained.
unfoldable pub contains_any : List ℕ → List (List ℕ) → Bool
unfolding contains
contains_any text [] = false
contains_any text (p ∷ patterns) = contains text p || contains_any text patterns

-- The loop over the approved regions, and what follows it.
unfoldable pub check_approved : List ℕ → List (List ℕ) → LocalizationResult → LocalizationResult
unfolding contains
check_approved text [] otherwise = otherwise
check_approved text (p ∷ patterns) otherwise =
    if contains text p then LocalizationResult.approved else check_approved text patterns otherwise

-- The loop over the foreign regions, and what follows it.
unfoldable pub check_blocked : List ℕ → List (List ℕ) → LocalizationResult → LocalizationResult
unfolding contains
check_blocked text [] otherwise = otherwise
check_blocked text (p ∷ patterns) otherwise =
    if contains text p
    then LocalizationResult.foreign_region p
    else check_blocked text patterns otherwise

unfoldable pub check_data_localization : (List ℕ → List ℕ) → List ℕ → LocalizationResult
unfolding check_blocked check_approved contains_any
check_data_localization to_lowercase route_target =
    let route_lower : List ℕ = to_lowercase route_target in
    let is_cloud_provider : Bool = contains_any route_lower cloud_providers in
    check_blocked route_lower blocked_foreign_regions (
      if is_cloud_provider
      then check_approved route_lower approved_india_regions LocalizationResult.cloud_without_region
      else check_approved route_lower approved_india_regions LocalizationResult.no_match)
