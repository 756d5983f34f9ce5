-- ===== src/Tracking/Preservation.antt =====
-- Every operation on a single track keeps the manager's invariant.
use vision.Common.{
  ℕ, ◌+◌, ◌≡◌, ◌≢◌, refl, ◌∙◌, Option, none, some, List, lookup, insert, lookup-remove, compare_nat,
  compare_option, arith, inl, inr,
}
use vision.Common.Float.{Floats}
use vision.Detection.{Detection}
use vision.Tracking.Memory.{Manager, TrackMemory}
use vision.Tracking.Steps.{
  create_track, new_memory, hit_track, hit_memory, unmap_old_source, replace_with_duplicate,
  adopted_memory, coast_memory, pop_source,
}
use vision.Tracking.Invariant.{Inv, LeadsTo, next-unused, store-Inv, map_source-leads}

module _ ⦃fl : Floats⦄ where
  create_track-leads :
      (m : Manager) (d : Detection) (ts : ℕ)
      → Inv m
      → (source target : ℕ)
      → lookup source (create_track m d ts).1.stable_id_by_source ≡ some target
      → LeadsTo m m.next_stable_track_id d.track_id source target
  unfolding create_track
  create_track-leads m d ts v source target h =
      let added : Manager = record m {
        next_stable_track_id = m.next_stable_track_id + 1;
        tracks = insert m.next_stable_track_id (new_memory m.next_stable_track_id d ts) m.tracks;
      } in
      ground (
        arith,
        map_source-leads added d.track_id m.next_stable_track_id source target h,
        v.sourced source target,
        next-unused m v,
      )

  pub create_track-Inv :
      (m : Manager) (d : Detection) (ts : ℕ) → Inv m → Inv (create_track m d ts).1
  unfolding create_track
  create_track-Inv m d ts v =
      store-Inv m (create_track m d ts).1 m.next_stable_track_id
        (new_memory m.next_stable_track_id d ts) v (ground arith) (ground arith) (ground arith)
        (create_track-leads m d ts v)

  unmap_old_source-tracks :
      (m : Manager) (old new : Option ℕ) (sid : ℕ)
      → ((unmap_old_source m old new sid).tracks ≡ m.tracks)
        × ((unmap_old_source m old new sid).next_stable_track_id ≡ m.next_stable_track_id)
  unfolding unmap_old_source
  unmap_old_source-tracks m old new sid = ground arith

  -- After the old mapping is dropped, a source other than the new one leads to another track.
  unmap_old_source-leads :
      (m : Manager) (old new : Option ℕ) (sid source target : ℕ)
      → (lookup source m.stable_id_by_source ≡ some sid → old ≡ some source)
      → new ≢ some source
      → lookup source (unmap_old_source m old new sid).stable_id_by_source ≡ some target
      → (lookup source m.stable_id_by_source ≡ some target) × (target ≢ sid)
  unfolding unmap_old_source
  unmap_old_source-leads m none new sid source target own other h = ground (arith, own)
  unmap_old_source-leads m (some s) none sid source target own other h =
      ground (arith, own, lookup-remove s source m.stable_id_by_source)
  unmap_old_source-leads m (some s) (some n) sid source target own other h =
      ground (arith, own, lookup-remove s source m.stable_id_by_source)

  hit_track-leads :
      (m : Manager) (sid : ℕ) (memory : TrackMemory) (d : Detection) (ts : ℕ) (fs : Option (List ℕ))
      → Inv m
      → lookup sid m.tracks ≡ some memory
      → (source target : ℕ)
      → lookup source (hit_track m sid memory d ts fs).stable_id_by_source ≡ some target
      → LeadsTo m sid d.track_id source target
  unfolding hit_track
  hit_track-leads m sid memory d ts fs v held source target h =
      elim (map_source-leads (unmap_old_source m memory.source_track_id d.track_id sid) d.track_id
        sid source target h) [
          | inl own ↦ inl own
          | inr (old, other) ↦ inr (
              unmap_old_source-leads m memory.source_track_id d.track_id sid source target
                (λ e. ground (arith, v.sourced source sid e)) other old)
        ]

  pub hit_track-Inv :
      (m : Manager) (sid : ℕ) (memory : TrackMemory) (d : Detection) (ts : ℕ) (fs : Option (List ℕ))
      → Inv m
      → lookup sid m.tracks ≡ some memory
      → Inv (hit_track m sid memory d ts fs)
  unfolding hit_track
  hit_track-Inv m sid memory d ts fs v held =
      store-Inv m (hit_track m sid memory d ts fs) sid (hit_memory m.config sid memory d ts fs) v
        (ground (arith, unmap_old_source-tracks m memory.source_track_id d.track_id sid))
        (ground (arith, unmap_old_source-tracks m memory.source_track_id d.track_id sid))
        (ground (
          arith,
          v.keyed sid memory held,
          unmap_old_source-tracks m memory.source_track_id d.track_id sid,
        ))
        (hit_track-leads m sid memory d ts fs v held)

  pop_source-leads :
      (m : Manager) (old : Option ℕ) (sid source target : ℕ)
      → (lookup source m.stable_id_by_source ≡ some sid → old ≡ some source)
      → lookup source (pop_source m old).stable_id_by_source ≡ some target
      → (lookup source m.stable_id_by_source ≡ some target) × (target ≢ sid)
  unfolding pop_source
  pop_source-leads m none sid source target own h = ground (arith, own)
  pop_source-leads m (some s) sid source target own h =
      ground (arith, own, lookup-remove s source m.stable_id_by_source)

  pub replace_with_duplicate-Inv :
      (m : Manager) (sid : ℕ) (selected duplicate : TrackMemory)
      → Inv m
      → lookup sid m.tracks ≡ some selected
      → Inv (replace_with_duplicate m sid selected duplicate)
  unfolding replace_with_duplicate
  replace_with_duplicate-Inv m sid selected duplicate v held =
      store-Inv m (replace_with_duplicate m sid selected duplicate) sid
        (adopted_memory selected duplicate) v (ground arith) (ground arith)
        (ground (arith, v.keyed sid selected held)) leads
    where
      leads :
          (source target : ℕ)
          → lookup source (replace_with_duplicate m sid selected duplicate).stable_id_by_source
            ≡ some target
          → LeadsTo m sid duplicate.source_track_id source target
      leads source target h =
          elim (map_source-leads (pop_source m selected.source_track_id) duplicate.source_track_id
            selected.stable_track_id source target h) [
              | inl (own, e) ↦ inl (own, e ∙ (v.keyed sid selected held).own)
              | inr (old, other) ↦ inr (
                  pop_source-leads m selected.source_track_id sid source target
                    (λ e. ground (arith, v.sourced source sid e)) old)
            ]

  pub coast_track-Inv :
      (m : Manager) (sid : ℕ) (memory : TrackMemory) (ts : ℕ) (fs : Option (List ℕ))
      → Inv m
      → lookup sid m.tracks ≡ some memory
      → Inv (record m { tracks = insert sid (coast_memory m.config memory ts fs) m.tracks })
  unfolding coast_memory
  coast_track-Inv m sid memory ts fs v held =
      store-Inv m _ sid (coast_memory m.config memory ts fs) v refl (ground arith)
        (ground (arith, v.keyed sid memory held)) leads
    where
      leads :
          (source target : ℕ)
          → lookup source m.stable_id_by_source ≡ some target
          → LeadsTo m sid memory.source_track_id source target
      leads source target h = ground (arith, v.sourced source target h)

  pub hit_track-tracks :
      (m : Manager) (sid : ℕ) (memory : TrackMemory) (d : Detection) (ts : ℕ) (fs : Option (List ℕ))
      → ((hit_track m sid memory d ts fs).tracks
          ≡ insert sid (hit_memory m.config sid memory d ts fs) m.tracks)
        × ((hit_track m sid memory d ts fs).config ≡ m.config)
        × ((hit_track m sid memory d ts fs).next_stable_track_id ≡ m.next_stable_track_id)
  unfolding hit_track
  hit_track-tracks m sid memory d ts fs = ground arith

  pub replace_with_duplicate-tracks :
      (m : Manager) (sid : ℕ) (selected duplicate : TrackMemory)
      → ((replace_with_duplicate m sid selected duplicate).tracks
          ≡ insert sid (adopted_memory selected duplicate) m.tracks)
        × ((replace_with_duplicate m sid selected duplicate).config ≡ m.config)
        × ((replace_with_duplicate m sid selected duplicate).next_stable_track_id
            ≡ m.next_stable_track_id)
  unfolding replace_with_duplicate
  replace_with_duplicate-tracks m sid selected duplicate = ground arith
