-- ===== src/Tracking/Suppression.antt =====
-- `_suppress_duplicate_detections` raises nothing, keeps the invariant, and takes away only tracks of
-- this frame that duplicate one that stays.
pub mod Loop
use vision.Common.{
  ℕ, ◌≡◌, ◌≢◌, refl, sym, ◌∙◌, Bool, true, false, not, ◌&&◌, Option, none, some, List, [], ◌∷◌,
  ◌++◌, Dict, lookup, insert, remove, contains, contains-append, All, All-append, All-unappend, ap,
  ℕ_discrete, All-imp, IsUnique, Ensures, Ensures->>=, Ensures-imp, lookup-insert, lookup-remove,
  compare_nat, nat_beq_iff, if◌then◌else◌, arith, ◌⊎◌, inl, inr, Bool-cases,
}
use vision.Common.Float.{Floats}
use vision.Tracking.Memory.{Manager, TrackMemory}
use vision.Tracking.Steps.{forget_track, replace_with_duplicate, adopted_memory}
use vision.Tracking.Update.{
  is_suppressible_duplicate, candidate_is_clearly_better, find_duplicate, suppress_into,
  suppress_loop,
}
use vision.Tracking.Invariant.{
  Inv, forget_track-Inv, forget_track-tracks, forget_track-config, forget_track-next,
}
use vision.Tracking.Preservation.{replace_with_duplicate-Inv, replace_with_duplicate-tracks}
use vision.Tracking.Observation.{IsSeenAt, AreSeenAt}

module _ ⦃fl : Floats⦄ (ts : ℕ) where
  -- What the search for a selected original finds: one of the selected ids, and its track.
  abbrev pub IsOriginal : Manager → TrackMemory → List ℕ → Option (ℕ × TrackMemory) → Type 0
  IsOriginal m candidate selected none = Unit
  IsOriginal m candidate selected (some (j, original)) =
      (contains selected j ≡ true)
      × (lookup j m.tracks ≡ some original)
      × (is_suppressible_duplicate m.config candidate original ts ≡ true)

  IsOriginal-cons :
      (m : Manager) (candidate : TrackMemory) (j : ℕ) (js : List ℕ) (r : Option (ℕ × TrackMemory))
      → IsOriginal m candidate js r
      → IsOriginal m candidate (j ∷ js) r
  unfolding contains
  IsOriginal-cons m candidate j js none h = tt
  IsOriginal-cons m candidate j js (some (i, original)) h = (ground arith, h.1, h.2)

  pub find_duplicate-IsOriginal :
      (m : Manager) (candidate : TrackMemory) (selected : List ℕ)
      → AreSeenAt m ts selected
      → Ensures (IsOriginal m candidate selected) (find_duplicate m candidate selected ts)
  unfolding find_duplicate contains
  find_duplicate-IsOriginal m candidate [] tracked = tt
  find_duplicate-IsOriginal m candidate (j ∷ js) tracked =
      Ensures->>= (λ original. lookup j m.tracks ≡ some original) (IsOriginal m candidate (j ∷ js))
        (lookup j m.tracks) _ (ground arith)
        λ original held.
          elim (Bool-cases (is_suppressible_duplicate m.config candidate original ts)) [
            | inl duplicate ↦ rw duplicate (ground (arith, nat_beq_iff j j), held, duplicate)
            | inr other ↦ rw other (
                Ensures-imp _ _ (find_duplicate m candidate js ts)
                  (λ r. IsOriginal-cons m candidate j js r)
                  (find_duplicate-IsOriginal m candidate js tracked.1))
          ]

  -- Taking a duplicate away touches no track but it and its original.
  pub record IsSuppressed (m : Manager) (sid j : ℕ) (m' : Manager) : Type 0 where
    pub inv : Inv m'
    pub gone : lookup sid m'.tracks ≡ none
    pub others : (i : ℕ) → i ≢ sid → i ≢ j → lookup i m'.tracks ≡ lookup i m.tracks
    pub original : IsSeenAt m' ts j
    pub same_config : m'.config ≡ m.config
    pub same_next : m'.next_stable_track_id ≡ m.next_stable_track_id

  pub suppress_into-IsSuppressed :
      (m : Manager) (sid : ℕ) (memory : TrackMemory) (j : ℕ) (original : TrackMemory)
      → Inv m
      → j ≢ sid
      → memory.last_seen_ts ≡ ts
      → original.last_seen_ts ≡ ts
      → lookup j m.tracks ≡ some original
      → IsSuppressed m sid j (suppress_into m sid memory j original)
  unfolding suppress_into
  suppress_into-IsSuppressed m sid memory j original v apart seen orig_seen held =
      let forgotten = forget_track-tracks m sid in
      let kept : lookup j (forget_track m sid).tracks ≡ some original =
        ground (arith, forgotten, lookup-remove sid j m.tracks) in
      let gone : lookup sid (forget_track m sid).tracks ≡ none =
        ground (arith, forgotten, lookup-remove sid sid m.tracks) in
      let others = λ (i : ℕ). lookup-remove sid i m.tracks in
      let replaced = replace_with_duplicate-tracks (forget_track m sid) j original memory in
      let written =
        λ (i : ℕ). lookup-insert j i (adopted_memory original memory) (forget_track m sid).tracks in
      elim (Bool-cases (candidate_is_clearly_better m.config memory original)) [
        | inl better ↦
            rw (better, suppress_into)
              (record {
                inv =
                    replace_with_duplicate-Inv (forget_track m sid) j original memory
                      (forget_track-Inv m sid v) kept;
                gone = ground (arith, replaced, written sid);
                others = λ i t u. ground (arith, forgotten, replaced, written i, others i);
                original = unfold adopted_memory in ground (arith, replaced, written j);
                same_config = replaced.1 ∙ forget_track-config m sid;
                same_next = replaced.2 ∙ forget_track-next m sid;
              })
        | inr worse ↦
            rw (worse, suppress_into)
              (record {
                inv = forget_track-Inv m sid v;
                gone = gone;
                others = λ i t u. ground (arith, forgotten, others i);
                original = ground (arith, kept);
                same_config = forget_track-config m sid;
                same_next = forget_track-next m sid;
              })
      ]

  -- What the loop does to the tracks it goes through, and to those that it has selected.
  pub record IsSettled (m : Manager) (ids selected suppressed : List ℕ) (r : List ℕ × Manager)
      : Type 0 where
    pub inv : Inv r.1
    pub gone : All (λ i. lookup i r.1.tracks ≡ none) r.0
    pub grows : (i : ℕ) → contains suppressed i ≡ true → contains r.0 i ≡ true
    pub stays : AreSeenAt r.1 ts selected
    pub each : All (λ i. (contains r.0 i ≡ true) ⊎ IsSeenAt r.1 ts i) ids
    pub others :
        (i : ℕ)
        → contains ids i ≡ false
        → contains selected i ≡ false
        → lookup i r.1.tracks ≡ lookup i m.tracks
    pub same_config : r.1.config ≡ m.config
    pub same_next : r.1.next_stable_track_id ≡ m.next_stable_track_id

  -- What the loop needs: the ids it goes through are tracks of this frame, none of them selected yet.
  pub record IsReady (m : Manager) (ids selected suppressed : List ℕ) : Type 0 where
    pub inv : Inv m
    pub ids_seen : AreSeenAt m ts ids
    pub selected_seen : AreSeenAt m ts selected
    pub unique : IsUnique ids
    pub apart : All (λ i. contains selected i ≡ false) ids
    pub gone : All (λ i. lookup i m.tracks ≡ none) suppressed
