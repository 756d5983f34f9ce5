-- ===== src/Tracking/Ageing.antt =====
-- The last loop of `update`: what becomes of each track, and what is shown of those that coast.
use vision.Common.{
  ℕ, ◌≡◌, ◌≢◌, refl, ◌∙◌, ap, ap₂, ℕ_discrete, Option, none, some, List, [], ◌∷◌, ◌++◌, Dict,
  lookup, insert, contains, All, IsDistinct, lookup-insert, lookup-remove, compare_nat, nat_beq_iff,
  if◌then◌else◌, arith, inl, inr, Bool-cases,
}
use vision.Common.Float.{Floats}
use vision.Tracking.Memory.{Manager, TrackMemory, TrackLifecycleConfig, LifecycleTrack, elapsed_ms}
use vision.Tracking.Steps.{forget_track, coast_memory, to_lifecycle_track}
use vision.Tracking.Update.{may_coast, age_track, age_tracks}
use vision.Tracking.Invariant.{
  Inv, forget_track-Inv, forget_track-tracks, forget_track-config, forget_track-next,
}
use vision.Tracking.Preservation.{coast_track-Inv}

module _ ⦃fl : Floats⦄ (skipped : List ℕ) (ts : ℕ) (fs : Option (List ℕ)) where
  -- What becomes of a track: it stays as it is, it coasts, or it is forgotten.
  unfoldable pub fate : TrackLifecycleConfig → ℕ → TrackMemory → Option TrackMemory
  fate c stable_id memory =
      if contains skipped stable_id
      then some memory
      else (if may_coast c memory ts then some (coast_memory c memory ts fs) else none)

  -- What is shown of it.
  unfoldable pub shown_of : TrackLifecycleConfig → ℕ → TrackMemory → List LifecycleTrack
  shown_of c stable_id memory =
      if contains skipped stable_id
      then []
      else (if may_coast c memory ts
          then to_lifecycle_track (coast_memory c memory ts fs) (elapsed_ms memory.last_seen_ts ts)
            ∷ []
          else [])

  unfoldable pub all_shown : TrackLifecycleConfig → Dict ℕ TrackMemory → List LifecycleTrack
  unfolding shown_of
  all_shown c [] = []
  all_shown c ((stable_id, memory) ∷ rest) = shown_of c stable_id memory ++ all_shown c rest

  -- One round settles its track and leaves the others alone.
  record IsAged (m : Manager) (sid : ℕ) (memory : TrackMemory) (m' : Manager) : Type 0 where
    inv : Inv m'
    own : lookup sid m'.tracks ≡ fate m.config sid memory
    others : (i : ℕ) → i ≢ sid → lookup i m'.tracks ≡ lookup i m.tracks
    same_config : m'.config ≡ m.config
    same_next : m'.next_stable_track_id ≡ m.next_stable_track_id

  forget_track-IsAged :
      (m : Manager) (sid : ℕ) (memory : TrackMemory)
      → Inv m
      → fate m.config sid memory ≡ none
      → IsAged m sid memory (forget_track m sid)
  forget_track-IsAged m sid memory v gone = record {
    inv = forget_track-Inv m sid v;
    own = ground (arith, gone, forget_track-tracks m sid, lookup-remove sid sid m.tracks);
    others = λ i t. ground (arith, forget_track-tracks m sid, lookup-remove sid i m.tracks);
    same_config = forget_track-config m sid;
    same_next = forget_track-next m sid;
  }

  coast_track-IsAged :
      (m : Manager) (sid : ℕ) (memory : TrackMemory)
      → Inv m
      → lookup sid m.tracks ≡ some memory
      → fate m.config sid memory ≡ some (coast_memory m.config memory ts fs)
      → IsAged m sid memory
          (record m { tracks = insert sid (coast_memory m.config memory ts fs) m.tracks })
  coast_track-IsAged m sid memory v held stays =
      let written = λ (i : ℕ). lookup-insert sid i (coast_memory m.config memory ts fs) m.tracks in
      record {
        inv = coast_track-Inv m sid memory ts fs v held;
        own = ground (arith, stays, written sid);
        others = λ i t. ground (arith, written i);
        same_config = refl;
        same_next = refl;
      }

  age_track-IsAged :
      (m : Manager) (sid : ℕ) (memory : TrackMemory)
      → Inv m
      → lookup sid m.tracks ≡ some memory
      → IsAged m sid memory (age_track m sid memory skipped ts fs).0
  unfolding age_track
  age_track-IsAged m sid memory v held = elim (Bool-cases (contains skipped sid)) [
    | inl skip ↦
        rw (skip, age_track)
          (record {
            inv = v;
            own = unfold fate in rw (skip, fate) held;
            others = λ i t. refl;
            same_config = refl;
            same_next = refl;
          })
    | inr aged ↦ elim (Bool-cases (may_coast m.config memory ts)) [
      | inl coasts ↦
          rw (aged, coasts, age_track)
            (coast_track-IsAged m sid memory v held (unfold fate in rw (aged, coasts, fate)))
      | inr expired ↦
          rw (aged, expired, age_track)
            (forget_track-IsAged m sid memory v (unfold fate in rw (aged, expired, fate)))
    ]
  ]

  age_track-shown :
      (m : Manager) (sid : ℕ) (memory : TrackMemory)
      → (age_track m sid memory skipped ts fs).1 ≡ shown_of m.config sid memory
  unfolding age_track shown_of
  age_track-shown m sid memory = ground arith

  -- The tracks of the rest of the snapshot are as they were.
  rest-entries :
      (m m' : Manager) (sid : ℕ) (memory : TrackMemory) (entries : Dict ℕ TrackMemory)
      → IsAged m sid memory m'
      → lookup sid entries ≡ none
      → All (λ x. lookup x.0 m.tracks ≡ some x.1) entries
      → All (λ x. lookup x.0 m'.tracks ≡ some x.1) entries
  unfolding lookup
  rest-entries m m' sid memory [] a absent h = tt
  rest-entries m m' sid memory ((i, own) ∷ rest) a absent h = (
    ground (arith, a.others i, nat_beq_iff i sid, h.0),
    rest-entries m m' sid memory rest a (ground arith) h.1,
  )

  -- The fate of an entry, or what stands elsewhere.
  abbrev pub settled : Manager → Dict ℕ TrackMemory → ℕ → Option TrackMemory
  settled m entries i = elim (lookup i entries) [
    | none ↦ lookup i m.tracks
    | some memory ↦ fate m.config i memory
  ]

  pub record AreAged (m : Manager) (entries : Dict ℕ TrackMemory)
      (r : Manager × List LifecycleTrack) : Type 0 where
    pub inv : Inv r.0
    pub each : (i : ℕ) → lookup i r.0.tracks ≡ settled m entries i
    pub shown : r.1 ≡ all_shown m.config entries
    pub same_config : r.0.config ≡ m.config
    pub same_next : r.0.next_stable_track_id ≡ m.next_stable_track_id

  settled-cons :
      (m m' : Manager) (sid : ℕ) (memory : TrackMemory) (entries : Dict ℕ TrackMemory) (i : ℕ)
      → IsAged m sid memory m'
      → lookup sid entries ≡ none
      → settled m' entries i ≡ settled m ((sid, memory) ∷ entries) i
  unfolding lookup
  settled-cons m m' sid memory entries i a absent = elim (ℕ_discrete sid i) [
    | yes same ↦ ground (arith, same, absent, a.own)
    | no other ↦ ground (arith, a.others i, a.same_config, nat_beq_iff sid i)
  ]

  -- The loop that changes the dictionary as it walks a snapshot of it does to each track what its
  -- fate says, and shows the tracks that coast in the snapshot's order.
  pub age_tracks-AreAged :
      (m : Manager) (entries : Dict ℕ TrackMemory)
      → Inv m
      → IsDistinct entries
      → All (λ x. lookup x.0 m.tracks ≡ some x.1) entries
      → AreAged m entries (age_tracks m entries skipped ts fs)
  unfolding age_tracks all_shown
  age_tracks-AreAged m [] v distinct held = record {
    inv = v;
    each = λ i. unfold lookup in refl;
    shown = refl;
    same_config = refl;
    same_next = refl;
  }
  age_tracks-AreAged m ((sid, memory) ∷ rest) v distinct held =
      let m' = (age_track m sid memory skipped ts fs).0 in
      let a = age_track-IsAged m sid memory v held.0 in
      let later =
        age_tracks-AreAged m' rest a.inv distinct.1
          (rest-entries m m' sid memory rest a distinct.0 held.1) in
      record {
        inv = later.inv;
        each = λ i. later.each i ∙ settled-cons m m' sid memory rest i a distinct.0;
        shown =
            ap₂ ◌++◌ (age_track-shown m sid memory)
              (later.shown ∙ ap (λ c. all_shown c rest) a.same_config);
        same_config = later.same_config ∙ a.same_config;
        same_next = later.same_next ∙ a.same_next;
      }
