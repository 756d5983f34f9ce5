-- ===== src/Runtime/Selection.antt =====
-- backend/src/argus/vision/runtime_selection.py: the artifact that a worker runs, or the backend it
-- falls back to. The protocols are records of what the source reads of them; a preference that the
-- source does not know counts as `tensorrt_first`, and a profile name and hash are read as texts.
pub mod Choice
use vision.Common.{
  ℕ, String, Bool, true, false, not, ◌&&◌, Option, none, some, List, [], ◌∷◌, keep, if◌then◌else◌,
  str_eq,
}

pub data RuntimeArtifactKind : Type 0 where
  onnx_export tensorrt_engine compiled_open_vocab : RuntimeArtifactKind

pub data DetectorCapability : Type 0 where
  fixed_vocab open_vocab : DetectorCapability

pub data RuntimeArtifactPreference : Type 0 where
  tensorrt_first onnx_first dynamic_first : RuntimeArtifactPreference

pub record RuntimeArtifactCandidate : Type 0 where
  pub id : ℕ
  pub kind : RuntimeArtifactKind
  pub capability : DetectorCapability
  pub runtime_backend : String
  pub target_profile : String
  pub vocabulary_hash : Option String

-- A model's capability, and `capability_config.get("runtime_backend")`.
pub record RuntimeModelCandidate : Type 0 where
  pub capability : DetectorCapability
  pub config_backend : Option String

pub record RuntimeSelectionPolicy : Type 0 where
  pub profile_id : Option ℕ
  pub profile_name : Option String
  pub profile_hash : Option String
  pub preferred_backend : Option String
  pub artifact_preference : RuntimeArtifactPreference
  pub fallback_allowed : Bool

pub record RuntimeSelectionError : Type 0 where
  pub profile_id : Option ℕ
  pub profile_name : Option String
  pub profile_hash : Option String
  pub fallback_reason : String

pub record RuntimeSelection : Type 0 where
  pub selected_backend : String
  pub artifact : Option RuntimeArtifactCandidate
  pub fallback : Bool
  pub fallback_reason : Option String
  pub profile_id : Option ℕ
  pub profile_name : Option String
  pub profile_hash : Option String
  pub artifact_preference : RuntimeArtifactPreference
  pub fallback_allowed : Bool

-- What a selection returns or raises.
pub data Selected : Type 0 where
  returned : RuntimeSelection → Selected
  raised : RuntimeSelectionError → Selected

abbrev pub same_kind : RuntimeArtifactKind → RuntimeArtifactKind → Bool
same_kind onnx_export onnx_export = true
same_kind tensorrt_engine tensorrt_engine = true
same_kind compiled_open_vocab compiled_open_vocab = true
same_kind _ _ = false

-- Python's `value if value else None` of a text.
abbrev truthy : Option String → Option String
truthy none = none
truthy (some s) = if str_eq s "" then none else some s

unfoldable pub profile_id_of : Option RuntimeSelectionPolicy → Option ℕ
profile_id_of none = none
profile_id_of (some policy) = policy.profile_id

unfoldable pub profile_name_of : Option RuntimeSelectionPolicy → Option String
profile_name_of none = none
profile_name_of (some policy) = truthy policy.profile_name

unfoldable pub profile_hash_of : Option RuntimeSelectionPolicy → Option String
profile_hash_of none = none
profile_hash_of (some policy) = truthy policy.profile_hash

unfoldable pub fallback_allowed_of : Option RuntimeSelectionPolicy → Bool
fallback_allowed_of none = true
fallback_allowed_of (some policy) = policy.fallback_allowed

unfoldable pub artifact_preference_of : Option RuntimeSelectionPolicy → RuntimeArtifactPreference
artifact_preference_of none = tensorrt_first
artifact_preference_of (some policy) = policy.artifact_preference

unfoldable pub canonical_model_backend : RuntimeModelCandidate → String
canonical_model_backend model = elim model.config_backend [
  | none ↦ "onnxruntime"
  | some backend ↦ backend
]

abbrev preferred_backend_of : Option RuntimeSelectionPolicy → Option String
preferred_backend_of none = none
preferred_backend_of (some policy) = policy.preferred_backend

unfoldable pub fallback_backend : RuntimeModelCandidate → Option RuntimeSelectionPolicy → String
unfolding canonical_model_backend
fallback_backend model policy = elim (preferred_backend_of policy) [
  | none ↦ canonical_model_backend model
  | some backend ↦ backend
]

unfoldable pub first_kind :
    List RuntimeArtifactCandidate → RuntimeArtifactKind → Option RuntimeArtifactCandidate
first_kind [] kind = none
first_kind (artifact ∷ artifacts) kind =
    if same_kind artifact.kind kind then some artifact else first_kind artifacts kind

-- `bool(hash) and hash == runtime_vocabulary_hash`
abbrev pub same_vocabulary : Option String → Option String → Bool
same_vocabulary none wanted = false
same_vocabulary (some h) none = false
same_vocabulary (some h) (some wanted) = not (str_eq h "") && str_eq h wanted

unfoldable pub artifact_matches_vocabulary :
    DetectorCapability → Option String → RuntimeArtifactCandidate → Bool
artifact_matches_vocabulary fixed_vocab wanted artifact = true
artifact_matches_vocabulary open_vocab wanted artifact =
    same_vocabulary artifact.vocabulary_hash wanted

unfoldable pub preferred_artifact_kinds :
    RuntimeArtifactPreference → RuntimeArtifactKind × RuntimeArtifactKind
preferred_artifact_kinds onnx_first = (onnx_export, tensorrt_engine)
preferred_artifact_kinds tensorrt_first = (tensorrt_engine, onnx_export)
preferred_artifact_kinds dynamic_first = (tensorrt_engine, onnx_export)

unfoldable pub fallback_selection :
    String → String → Option RuntimeSelectionPolicy → RuntimeArtifactPreference → Bool → Selected
fallback_selection backend reason policy preference true = returned (record {
  selected_backend = backend;
  artifact = none;
  fallback = true;
  fallback_reason = some reason;
  profile_id = profile_id_of policy;
  profile_name = profile_name_of policy;
  profile_hash = profile_hash_of policy;
  artifact_preference = preference;
  fallback_allowed = true;
})
fallback_selection backend reason policy preference false = raised (record {
  profile_id = profile_id_of policy;
  profile_name = profile_name_of policy;
  profile_hash = profile_hash_of policy;
  fallback_reason = reason;
})

unfoldable pub artifact_selection :
    Option RuntimeSelectionPolicy
    → RuntimeArtifactPreference
    → Bool
    → RuntimeArtifactCandidate
    → Selected
artifact_selection policy preference allowed artifact = returned (record {
  selected_backend = artifact.runtime_backend;
  artifact = some artifact;
  fallback = false;
  fallback_reason = none;
  profile_id = profile_id_of policy;
  profile_name = profile_name_of policy;
  profile_hash = profile_hash_of policy;
  artifact_preference = preference;
  fallback_allowed = allowed;
})

-- The loop over the two preferred kinds.
unfoldable pub choose_kind :
    List RuntimeArtifactCandidate
    → RuntimeArtifactKind × RuntimeArtifactKind
    → Option RuntimeArtifactCandidate
choose_kind artifacts kinds = elim (first_kind artifacts kinds.0) [
  | none ↦ first_kind artifacts kinds.1
  | some artifact ↦ some artifact
]

abbrev pub is_empty {ℓ} : {A : Type ℓ} → List A → Bool
is_empty [] = true
is_empty (x ∷ xs) = false

abbrev pub is_dynamic : RuntimeArtifactPreference → Bool
is_dynamic dynamic_first = true
is_dynamic tensorrt_first = false
is_dynamic onnx_first = false

unfoldable pub matching_target :
    String → List RuntimeArtifactCandidate → List RuntimeArtifactCandidate
matching_target host_profile candidates =
    keep (λ artifact. str_eq artifact.target_profile host_profile) candidates

unfoldable pub matching_vocabulary :
    RuntimeModelCandidate
    → Option String
    → List RuntimeArtifactCandidate
    → List RuntimeArtifactCandidate
matching_vocabulary model wanted candidates =
    keep (artifact_matches_vocabulary model.capability wanted) candidates

-- What follows the loop over the preferred kinds.
unfoldable pub finish :
    String
    → Option RuntimeSelectionPolicy
    → RuntimeArtifactPreference
    → Bool
    → Option RuntimeArtifactCandidate
    → Selected
finish backend policy preference allowed none =
    fallback_selection backend "no_supported_runtime_artifact" policy preference allowed
finish backend policy preference allowed (some artifact) =
    artifact_selection policy preference allowed artifact

-- The early returns, given the candidates, those for the host, and those that fit.
unfoldable pub select_among :
    List RuntimeArtifactCandidate
    → List RuntimeArtifactCandidate
    → List RuntimeArtifactCandidate
    → String
    → Option RuntimeSelectionPolicy
    → RuntimeArtifactPreference
    → Bool
    → Selected
select_among candidates on_host fitting backend policy preference allowed =
    if is_empty candidates
    then fallback_selection backend "no_runtime_artifacts" policy preference allowed
    else (if is_empty on_host
        then fallback_selection backend "artifact_target_mismatch" policy preference allowed
        else (if is_empty fitting
            then fallback_selection backend "artifact_vocabulary_mismatch" policy preference allowed
            else (if is_dynamic preference
                then fallback_selection backend "dynamic_preferred" policy preference allowed
                else finish backend policy preference allowed
                    (choose_kind fitting (preferred_artifact_kinds preference)))))

unfoldable pub select_runtime_artifact :
    RuntimeModelCandidate
    → String
    → List RuntimeArtifactCandidate
    → Option String
    → Option RuntimeSelectionPolicy
    → Selected
unfolding select_among
select_runtime_artifact model host_profile candidates runtime_vocabulary_hash policy =
    let on_host = matching_target host_profile candidates in
    select_among candidates on_host (matching_vocabulary model runtime_vocabulary_hash on_host)
      (fallback_backend model policy) policy (artifact_preference_of policy)
      (fallback_allowed_of policy)
