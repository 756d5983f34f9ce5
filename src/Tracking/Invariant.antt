-- ===== src/Tracking/Invariant.antt =====
-- What holds of a manager between the operations on single tracks, and that they keep it.
use vision.Common.{
  ℕ, ◌<◌, ◌≤◌, ◌≡◌, ◌≢◌, ◌⊎◌, refl, true, Option, none, some, Dict, lookup, insert, remove,
  lookup-insert, lookup-remove, IsDistinct, insert-IsDistinct, remove-IsDistinct, compare_nat,
  compare_option, arith, inl, inr, Option-cases,
}
use vision.Common.Float.{Floats}
use vision.Tracking.Memory.{Manager, TrackMemory, is_candidate}
use vision.Tracking.Steps.{forget_track, map_source}

module _ ⦃fl : Floats⦄ where
  -- A track that is stored under its own id, below the next one, in a state other than `lost`.
  pub record IsKeyed (next stable_id : ℕ) (memory : TrackMemory) : Type 0 where
    pub own : memory.stable_track_id ≡ stable_id
    pub below : stable_id < next
    pub live : is_candidate memory.state ≡ true

  -- The source id of a stored track.
  abbrev pub source_of : Dict ℕ TrackMemory → ℕ → Option (Option ℕ)
  source_of tracks stable_id = elim (lookup stable_id tracks) [
    | none ↦ none
    | some memory ↦ some memory.source_track_id
  ]

  pub record Inv (m : Manager) : Type 0 where
    pub distinct : IsDistinct m.tracks
    pub keyed :
        (stable_id : ℕ) (memory : TrackMemory)
        → lookup stable_id m.tracks ≡ some memory
        → IsKeyed m.next_stable_track_id stable_id memory
    -- The index of source ids is exact: the track that it names exists and has that source.
    pub sourced :
        (source stable_id : ℕ)
        → lookup source m.stable_id_by_source ≡ some stable_id
        → source_of m.tracks stable_id ≡ some (some source)

  pub forget_track-tracks :
      (m : Manager) (stable_id : ℕ) → (forget_track m stable_id).tracks ≡ remove stable_id m.tracks
  unfolding forget_track
  forget_track-tracks m stable_id = ground arith

  pub forget_track-next :
      (m : Manager) (stable_id : ℕ)
      → (forget_track m stable_id).next_stable_track_id ≡ m.next_stable_track_id
  unfolding forget_track
  forget_track-next m stable_id = ground arith

  pub forget_track-config :
      (m : Manager) (stable_id : ℕ) → (forget_track m stable_id).config ≡ m.config
  unfolding forget_track
  forget_track-config m stable_id = ground arith

  forget_track-sourced :
      (m : Manager) (sid : ℕ) (own : Option TrackMemory)
      → lookup sid m.tracks ≡ own
      → Inv m
      → (source stable_id : ℕ)
      → lookup source (forget_track m sid).stable_id_by_source ≡ some stable_id
      → source_of (remove sid m.tracks) stable_id ≡ some (some source)
  unfolding forget_track
  forget_track-sourced m sid none e v source stable_id h =
      ground (arith, lookup-remove sid stable_id m.tracks, v.sourced source stable_id)
  forget_track-sourced m sid (some memory) e v source stable_id h =
      bySource memory.source_track_id refl
    where
      bySource :
          (src : Option ℕ)
          → memory.source_track_id ≡ src
          → source_of (remove sid m.tracks) stable_id ≡ some (some source)
      bySource none s =
          ground (arith, lookup-remove sid stable_id m.tracks, v.sourced source stable_id)
      bySource (some old) s = ground (
        arith,
        lookup-remove sid stable_id m.tracks,
        v.sourced source stable_id,
        lookup-remove old source m.stable_id_by_source,
      )

  pub forget_track-Inv : (m : Manager) (stable_id : ℕ) → Inv m → Inv (forget_track m stable_id)
  forget_track-Inv m sid v = record {
    distinct = rw (forget_track-tracks m sid) (remove-IsDistinct sid m.tracks v.distinct);
    keyed = λ stable_id memory h. ground (
      arith,
      forget_track-tracks m sid,
      forget_track-next m sid,
      lookup-remove sid stable_id m.tracks,
      v.keyed stable_id memory,
    );
    sourced = λ source stable_id h.
        rw (forget_track-tracks m sid) (forget_track-sourced m sid _ refl v source stable_id h);
  }

  -- The id that a new track gets is in use nowhere.
  pub next-unused : (m : Manager) → Inv m → lookup m.next_stable_track_id m.tracks ≡ none
  next-unused m v = elim (Option-cases (lookup m.next_stable_track_id m.tracks)) [
    | inl e ↦ e
    | inr (memory, e) ↦ absurd (omega (arith, v.keyed m.next_stable_track_id memory e))
  ]

  -- Where a source id leads after a track is stored under `stable_id`: to that track, or to where it
  -- led before, which is another track.
  abbrev pub LeadsTo : Manager → ℕ → Option ℕ → ℕ → ℕ → Type 0
  LeadsTo m stable_id own source target =
      ((own ≡ some source) × (target ≡ stable_id))
      ⊎ ((lookup source m.stable_id_by_source ≡ some target) × (target ≢ stable_id))

  store-sourced :
      (m : Manager) (sid : ℕ) (memory : TrackMemory)
      → Inv m
      → (source target : ℕ) → LeadsTo m sid memory.source_track_id source target
      → source_of (insert sid memory m.tracks) target ≡ some (some source)
  store-sourced m sid memory v source target (inl (own, e)) =
      ground (arith, lookup-insert sid target memory m.tracks)
  store-sourced m sid memory v source target (inr (old, other)) =
      ground (arith, lookup-insert sid target memory m.tracks, v.sourced source target old)

  -- Storing a track under an id keeps the invariant, if the index of sources is kept exact.
  pub store-Inv :
      (m m' : Manager) (sid : ℕ) (memory : TrackMemory)
      → Inv m
      → m'.tracks ≡ insert sid memory m.tracks
      → m.next_stable_track_id ≤ m'.next_stable_track_id
      → IsKeyed m'.next_stable_track_id sid memory
      → ((source target : ℕ)
          → lookup source m'.stable_id_by_source ≡ some target
          → LeadsTo m sid memory.source_track_id source target)
      → Inv m'
  store-Inv m m' sid memory v stored grows own leads = record {
    distinct = rw stored (insert-IsDistinct sid memory m.tracks v.distinct);
    keyed = λ stable_id memory' h. ground (
      arith,
      stored,
      own,
      lookup-insert sid stable_id memory m.tracks,
      v.keyed stable_id memory',
    );
    sourced = λ source target h.
        rw stored (store-sourced m sid memory v source target (leads source target h));
  }

  pub map_source-leads :
      (m : Manager) (own : Option ℕ) (sid source target : ℕ)
      → lookup source (map_source m own sid).stable_id_by_source ≡ some target
      → ((own ≡ some source) × (target ≡ sid))
        ⊎ (lookup source m.stable_id_by_source ≡ some target) × (own ≢ some source)
  unfolding map_source
  map_source-leads m none sid source target h = inr (h, λ e. cc)
  map_source-leads m (some s) sid source target h =
      ground (arith, lookup-insert s source sid m.stable_id_by_source)
