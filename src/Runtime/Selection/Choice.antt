-- ===== src/Runtime/Selection/Choice.antt =====
-- Which artifact is selected, and when a selection falls back or is refused.
use vision.Common.{
  ◌≡◌, refl, sym, All-both, All-imp, ◌⊎◌, subst, ap, ◌∙◌, String, Bool, true, false, not, ◌&&◌,
  ◌||◌, Option, none, some, List, [], ◌∷◌, keep, any, All, All-keep, keep-All, str_eq, is_some,
  Bool-cases, Option-cases, inl, inr, arith,
}
use vision.Runtime.Selection.{
  RuntimeArtifactKind, onnx_export, tensorrt_engine, compiled_open_vocab, RuntimeArtifactPreference,
  onnx_first, tensorrt_first, dynamic_first, RuntimeArtifactCandidate, RuntimeModelCandidate,
  RuntimeSelectionPolicy, Selected, returned, raised, same_kind, fallback_backend, first_kind,
  artifact_matches_vocabulary, preferred_artifact_kinds, fallback_selection, artifact_selection,
  choose_kind, is_empty, is_dynamic, matching_target, matching_vocabulary, finish, select_among,
  fallback_allowed_of, artifact_preference_of, select_runtime_artifact,
}

abbrev pub chosen : Selected → Option RuntimeArtifactCandidate
chosen (returned selection) = selection.artifact
chosen (raised err) = none

abbrev pub is_raised : Selected → Bool
is_raised (returned selection) = false
is_raised (raised err) = true

abbrev pub is_supported_kind : RuntimeArtifactKind → Bool
is_supported_kind onnx_export = true
is_supported_kind tensorrt_engine = true
is_supported_kind compiled_open_vocab = false

-- The artifact is built for the host and for the vocabulary.
abbrev pub is_fitting :
    RuntimeModelCandidate → String → Option String → RuntimeArtifactCandidate → Bool
is_fitting model host wanted artifact =
    str_eq artifact.target_profile host
    && artifact_matches_vocabulary model.capability wanted artifact

-- What is selected for a list of fitting artifacts.
chosen_of :
    RuntimeArtifactPreference → List RuntimeArtifactCandidate → Option RuntimeArtifactCandidate
chosen_of dynamic_first fitting = none
chosen_of onnx_first fitting = choose_kind fitting (preferred_artifact_kinds onnx_first)
chosen_of tensorrt_first fitting = choose_kind fitting (preferred_artifact_kinds tensorrt_first)

fallback-chosen :
    (backend reason : String) (policy : Option RuntimeSelectionPolicy)
    (preference : RuntimeArtifactPreference) (allowed : Bool)
    → chosen (fallback_selection backend reason policy preference allowed) ≡ none
unfolding fallback_selection
fallback-chosen backend reason policy preference true = refl
fallback-chosen backend reason policy preference false = refl

fallback-is_raised :
    (backend reason : String) (policy : Option RuntimeSelectionPolicy)
    (preference : RuntimeArtifactPreference) (allowed : Bool)
    → is_raised (fallback_selection backend reason policy preference allowed) ≡ not allowed
unfolding fallback_selection
fallback-is_raised backend reason policy preference true = refl
fallback-is_raised backend reason policy preference false = refl

finish-chosen :
    (backend : String) (policy : Option RuntimeSelectionPolicy)
    (preference : RuntimeArtifactPreference) (allowed : Bool) (o : Option RuntimeArtifactCandidate)
    → chosen (finish backend policy preference allowed o) ≡ o
unfolding finish artifact_selection
finish-chosen backend policy preference allowed none =
    fallback-chosen backend "no_supported_runtime_artifact" policy preference allowed
finish-chosen backend policy preference allowed (some artifact) = refl

finish-is_raised :
    (backend : String) (policy : Option RuntimeSelectionPolicy)
    (preference : RuntimeArtifactPreference) (allowed : Bool) (o : Option RuntimeArtifactCandidate)
    → is_raised (finish backend policy preference allowed o) ≡ (not allowed && not (is_some o))
unfolding finish artifact_selection
finish-is_raised backend policy preference allowed none =
    ground
      (arith, fallback-is_raised backend "no_supported_runtime_artifact" policy preference allowed)
finish-is_raised backend policy preference allowed (some artifact) = ground arith

chosen_of-nothing : (preference : RuntimeArtifactPreference) → chosen_of preference [] ≡ none
unfolding chosen_of choose_kind first_kind
chosen_of-nothing dynamic_first = refl
chosen_of-nothing onnx_first = refl
chosen_of-nothing tensorrt_first = refl

select_among_lem :
    (candidates on_host fitting : List RuntimeArtifactCandidate) (backend : String)
    (policy : Option RuntimeSelectionPolicy) (preference : RuntimeArtifactPreference)
    (allowed : Bool)
    → (is_empty candidates ≡ true → on_host ≡ [])
    → (is_empty on_host ≡ true → fitting ≡ [])
    → let r = select_among candidates on_host fitting backend policy preference allowed in
      (chosen r ≡ chosen_of preference fitting)
      × (is_raised r ≡ (not allowed && not (is_some (chosen_of preference fitting))))
unfolding select_among chosen_of choose_kind
select_among_lem [] on_host fitting backend policy preference allowed h k =
    let nothing : fitting ≡ [] = k (ap is_empty (h refl)) in
    ground (
      arith,
      nothing,
      chosen_of-nothing preference,
      fallback-chosen backend "no_runtime_artifacts" policy preference allowed,
      fallback-is_raised backend "no_runtime_artifacts" policy preference allowed,
    )
select_among_lem (c ∷ cs) [] fitting backend policy preference allowed h k = ground (
  arith,
  k refl,
  chosen_of-nothing preference,
  fallback-chosen backend "artifact_target_mismatch" policy preference allowed,
  fallback-is_raised backend "artifact_target_mismatch" policy preference allowed,
)
select_among_lem (c ∷ cs) (t ∷ ts) [] backend policy preference allowed h k = ground (
  arith,
  chosen_of-nothing preference,
  fallback-chosen backend "artifact_vocabulary_mismatch" policy preference allowed,
  fallback-is_raised backend "artifact_vocabulary_mismatch" policy preference allowed,
)
select_among_lem (c ∷ cs) (t ∷ ts) (f ∷ fs) backend policy dynamic_first allowed h k = ground (
  arith,
  fallback-chosen backend "dynamic_preferred" policy dynamic_first allowed,
  fallback-is_raised backend "dynamic_preferred" policy dynamic_first allowed,
)
select_among_lem (c ∷ cs) (t ∷ ts) (f ∷ fs) backend policy onnx_first allowed h k = (
  finish-chosen backend policy onnx_first allowed _,
  finish-is_raised backend policy onnx_first allowed _,
)
select_among_lem (c ∷ cs) (t ∷ ts) (f ∷ fs) backend policy tensorrt_first allowed h k = (
  finish-chosen backend policy tensorrt_first allowed _,
  finish-is_raised backend policy tensorrt_first allowed _,
)

is_empty-keep :
    (p : RuntimeArtifactCandidate → Bool) (xs : List RuntimeArtifactCandidate)
    → is_empty xs ≡ true
    → keep p xs ≡ []
unfolding keep
is_empty-keep p [] h = refl
is_empty-keep p (x ∷ xs) h = ground arith

first_kind-All :
    (P : RuntimeArtifactCandidate → Type 0) (xs : List RuntimeArtifactCandidate)
    (kind : RuntimeArtifactKind) (a : RuntimeArtifactCandidate)
    → All P xs
    → first_kind xs kind ≡ some a
    → P a × (same_kind a.kind kind ≡ true)
unfolding first_kind
first_kind-All P [] kind a h e = cc
first_kind-All P (x ∷ xs) kind a h e = elim (Bool-cases (same_kind x.kind kind)) [
  | inl s ↦ let same : x ≡ a = ground arith in (subst P same h.0, ground arith)
  | inr s ↦ first_kind-All P xs kind a h.1 (ground arith)
]

is_some-first_kind :
    (xs : List RuntimeArtifactCandidate) (kind : RuntimeArtifactKind)
    → is_some (first_kind xs kind) ≡ any (λ a. same_kind a.kind kind) xs
unfolding first_kind any
is_some-first_kind [] kind = refl
is_some-first_kind (x ∷ xs) kind = ground (arith, is_some-first_kind xs kind)

any-keep :
    (p q : RuntimeArtifactCandidate → Bool) (xs : List RuntimeArtifactCandidate)
    → any p (keep q xs) ≡ any (λ x. q x && p x) xs
unfolding any keep
any-keep p q [] = refl
any-keep p q (x ∷ xs) = ground (arith, any-keep p q xs)

any_imp :
    (p q : RuntimeArtifactCandidate → Bool) (xs : List RuntimeArtifactCandidate)
    → ((x : RuntimeArtifactCandidate) → p x ≡ q x)
    → any p xs ≡ any q xs
unfolding any
any_imp p q [] h = refl
any_imp p q (x ∷ xs) h = ground (arith, h x, any_imp p q xs h)

any_supported :
    (xs : List RuntimeArtifactCandidate)
    → any (λ a. is_supported_kind a.kind) xs ≡ (
        any (λ a. same_kind a.kind onnx_export) xs
        || any (λ a. same_kind a.kind tensorrt_engine) xs)
unfolding any
any_supported [] = refl
any_supported (x ∷ xs) = ground (arith, any_supported xs, byKind x.kind)
  where
    byKind :
        (kind : RuntimeArtifactKind)
        → is_supported_kind kind ≡ (same_kind kind onnx_export || same_kind kind tensorrt_engine)
    byKind onnx_export = refl
    byKind tensorrt_engine = refl
    byKind compiled_open_vocab = refl

is_some-choose_kind :
    (xs : List RuntimeArtifactCandidate) (kinds : RuntimeArtifactKind × RuntimeArtifactKind)
    → is_some (choose_kind xs kinds)
      ≡ (any (λ a. same_kind a.kind kinds.0) xs || any (λ a. same_kind a.kind kinds.1) xs)
unfolding choose_kind
is_some-choose_kind xs kinds =
    ground (arith, is_some-first_kind xs kinds.0, is_some-first_kind xs kinds.1)

is_some-chosen_of :
    (preference : RuntimeArtifactPreference) (xs : List RuntimeArtifactCandidate)
    → is_some (chosen_of preference xs)
      ≡ (not (is_dynamic preference) && any (λ a. is_supported_kind a.kind) xs)
unfolding chosen_of preferred_artifact_kinds
is_some-chosen_of dynamic_first xs = refl
is_some-chosen_of onnx_first xs =
    ground (arith, is_some-choose_kind xs (onnx_export, tensorrt_engine), any_supported xs)
is_some-chosen_of tensorrt_first xs =
    ground (arith, is_some-choose_kind xs (tensorrt_engine, onnx_export), any_supported xs)

supported_of_same :
    (kind : RuntimeArtifactKind)
    → (same_kind kind onnx_export ≡ true) ⊎ (same_kind kind tensorrt_engine ≡ true)
    → is_supported_kind kind ≡ true
supported_of_same onnx_export h = refl
supported_of_same tensorrt_engine h = refl
supported_of_same compiled_open_vocab h = ground arith

choose_kind-All :
    (P : RuntimeArtifactCandidate → Type 0) (xs : List RuntimeArtifactCandidate)
    (kinds : RuntimeArtifactKind × RuntimeArtifactKind) (a : RuntimeArtifactCandidate)
    → All P xs
    → choose_kind xs kinds ≡ some a
    → P a × ((same_kind a.kind kinds.0 ≡ true) ⊎ (same_kind a.kind kinds.1 ≡ true))
unfolding choose_kind
choose_kind-All P xs kinds a h e = elim (Option-cases (first_kind xs kinds.0)) [
  | inl nothing ↦ let r = first_kind-All P xs kinds.1 a h (ground arith) in (r.0, inr r.1)
  | inr (b, found) ↦ let r = first_kind-All P xs kinds.0 a h (ground arith) in (r.0, inl r.1)
]

chosen_of-All :
    (P : RuntimeArtifactCandidate → Type 0) (preference : RuntimeArtifactPreference)
    (xs : List RuntimeArtifactCandidate) (a : RuntimeArtifactCandidate)
    → All P xs
    → chosen_of preference xs ≡ some a
    → P a × (is_supported_kind a.kind ≡ true)
unfolding chosen_of preferred_artifact_kinds
chosen_of-All P dynamic_first xs a h e = cc
chosen_of-All P onnx_first xs a h e =
    let r = choose_kind-All P xs (onnx_export, tensorrt_engine) a h e in
    (r.0, supported_of_same a.kind r.1)
chosen_of-All P tensorrt_first xs a h e =
    let r = choose_kind-All P xs (tensorrt_engine, onnx_export) a h e in
    (r.0, supported_of_same a.kind (swap r.1))
  where
    swap : {A B : Type 0} → A ⊎ B → B ⊎ A
    swap (inl x) = inr x
    swap (inr x) = inl x

choose_kind-first :
    (xs : List RuntimeArtifactCandidate) (kinds : RuntimeArtifactKind × RuntimeArtifactKind)
    (a : RuntimeArtifactCandidate)
    → choose_kind xs kinds ≡ some a
    → any (λ x. same_kind x.kind kinds.0) xs ≡ true
    → same_kind a.kind kinds.0 ≡ true
unfolding choose_kind
choose_kind-first xs kinds a e some_first = elim (Option-cases (first_kind xs kinds.0)) [
  | inl nothing ↦ ground (arith, is_some-first_kind xs kinds.0)
  | inr (b, found) ↦ (first_kind-All (λ x. x ≡ x) xs kinds.0 a (trivial xs) (ground arith)).1
]
  where
    trivial : (ys : List RuntimeArtifactCandidate) → All {0, 0} (λ x. x ≡ x) ys
    trivial [] = tt
    trivial (y ∷ ys) = (refl, trivial ys)

chosen_of-first :
    (preference : RuntimeArtifactPreference) (xs : List RuntimeArtifactCandidate)
    (a : RuntimeArtifactCandidate)
    → chosen_of preference xs ≡ some a
    → any (λ x. same_kind x.kind (preferred_artifact_kinds preference).0) xs ≡ true
    → same_kind a.kind (preferred_artifact_kinds preference).0 ≡ true
unfolding chosen_of
chosen_of-first dynamic_first xs a e h = cc
chosen_of-first onnx_first xs a e h = choose_kind-first xs _ a e h
chosen_of-first tensorrt_first xs a e h = choose_kind-first xs _ a e h

module _ (model : RuntimeModelCandidate) (host : String)
    (candidates : List RuntimeArtifactCandidate) (wanted : Option String)
    (policy : Option RuntimeSelectionPolicy) where
  fitting_of : List RuntimeArtifactCandidate
  fitting_of = matching_vocabulary model wanted (matching_target host candidates)

  -- The choice among the fitting artifacts, refused if there is none and no fallback is allowed.
  select_lem :
      (chosen (select_runtime_artifact model host candidates wanted policy)
        ≡ chosen_of (artifact_preference_of policy) fitting_of)
      × (is_raised (select_runtime_artifact model host candidates wanted policy) ≡ (
          not (fallback_allowed_of policy)
          && not (is_some (chosen_of (artifact_preference_of policy) fitting_of))))
  unfolding select_runtime_artifact fitting_of matching_target matching_vocabulary
  select_lem =
      select_among_lem candidates _ _ (fallback_backend model policy) policy
        (artifact_preference_of policy) (fallback_allowed_of policy) (is_empty-keep _ candidates)
        (is_empty-keep _ _)

  any-fitting_of :
      (p : RuntimeArtifactCandidate → Bool)
      → any p fitting_of ≡ any (λ a. is_fitting model host wanted a && p a) candidates
  unfolding fitting_of matching_target matching_vocabulary
  any-fitting_of p =
      any-keep p (artifact_matches_vocabulary model.capability wanted)
        (keep (λ a. str_eq a.target_profile host) candidates)
      ∙ any-keep (λ a. artifact_matches_vocabulary model.capability wanted a && p a)
          (λ a. str_eq a.target_profile host) candidates
      ∙ any_imp _ _ candidates (λ a. ground arith)

  fitting_of-All :
      (P : RuntimeArtifactCandidate → Type 0)
      → All P candidates
      → All (λ a. P a × (is_fitting model host wanted a ≡ true)) fitting_of
  unfolding fitting_of matching_target matching_vocabulary
  fitting_of-All P h =
      All-kept (artifact_matches_vocabulary model.capability wanted)
        (keep (λ a. str_eq a.target_profile host) candidates)
        (λ a. P a × (str_eq a.target_profile host ≡ true)) _ (λ a got here. (got.0, ground arith))
        (All-kept (λ a. str_eq a.target_profile host) candidates P _ (λ a got here. (got, here)) h)
    where
      All-kept :
          (p : RuntimeArtifactCandidate → Bool) (xs : List RuntimeArtifactCandidate)
          (Q R : RuntimeArtifactCandidate → Type 0)
          → ((a : RuntimeArtifactCandidate) → Q a → p a ≡ true → R a)
          → All Q xs
          → All R (keep p xs)
      All-kept p xs Q R f h =
          All-imp _ _ (keep p xs) (λ a both. f a both.0 both.1)
            (All-both Q (λ a. p a ≡ true) (keep p xs) (All-keep Q p xs h) (keep-All p xs))

  -- A selected artifact is one of the candidates, built for the host and, if the model has an open
  -- vocabulary, for the vocabulary in use, and of a kind that a worker can run. (What holds of all
  -- candidates holds of it.)
  pub select_runtime_artifact-is_fitting :
      (P : RuntimeArtifactCandidate → Type 0) (a : RuntimeArtifactCandidate)
      → All P candidates
      → chosen (select_runtime_artifact model host candidates wanted policy) ≡ some a
      → P a × (is_fitting model host wanted a ≡ true) × (is_supported_kind a.kind ≡ true)
  select_runtime_artifact-is_fitting P a h e =
      let r =
        chosen_of-All (λ x. P x × (is_fitting model host wanted x ≡ true))
          (artifact_preference_of policy) fitting_of a (fitting_of-All P h)
          (sym select_lem.0 ∙ e) in
      (r.0.0, r.0.1, r.1)

  -- An artifact is selected exactly if the profile does not prefer the dynamic runtime and some
  -- candidate is fitting and of a kind that a worker can run; the selection is refused exactly if
  -- none is selected and the profile disallows the fallback.
  pub select_runtime_artifact-is_raised :
      let found =
        not (is_dynamic (artifact_preference_of policy))
        && any (λ a. is_fitting model host wanted a && is_supported_kind a.kind) candidates in
      (is_some (chosen (select_runtime_artifact model host candidates wanted policy)) ≡ found)
      × (is_raised (select_runtime_artifact model host candidates wanted policy)
          ≡ (not (fallback_allowed_of policy) && not found))
  select_runtime_artifact-is_raised =
      let exists = is_some-chosen_of (artifact_preference_of policy) fitting_of in
      let fits = any-fitting_of (λ a. is_supported_kind a.kind) in
      (ap is_some select_lem.0 ∙ exists ∙ rw fits refl, select_lem.1 ∙ rw (exists, fits) refl)

  -- If some fitting candidate is of the kind that the profile prefers, the selected artifact is.
  pub select_runtime_artifact-preferred :
      (a : RuntimeArtifactCandidate)
      → chosen (select_runtime_artifact model host candidates wanted policy) ≡ some a
      → any
          (λ x.
            is_fitting model host wanted x
            && same_kind x.kind (preferred_artifact_kinds (artifact_preference_of policy)).0)
          candidates
        ≡ true
      → same_kind a.kind (preferred_artifact_kinds (artifact_preference_of policy)).0 ≡ true
  select_runtime_artifact-preferred a e h =
      chosen_of-first (artifact_preference_of policy) fitting_of a (sym select_lem.0 ∙ e)
        (any-fitting_of _ ∙ h)
