-- ===== src/Tracking/Observation.antt =====
-- The first loop of `update` raises nothing, keeps the invariant, and sends each detection to a
-- track of its own.
use vision.Common.{
  ℕ, ◌+◌, ◌≤◌, ◌≡◌, ◌≢◌, refl, ◌∙◌, true, false, Option, none, some, List, [], ◌∷◌, ◌++◌, lookup,
  insert, contains, is_some, All, All-append, IsUnique, snoc-IsUnique, length, length-append,
  lookup-insert, Ensures, Ensures->>=, Ensures-imp, compare_nat, nat_beq_iff, arith,
}
use vision.Common.Float.{Floats}
use vision.Detection.{Detection}
use vision.Tracking.Memory.{Manager, TrackMemory}
use vision.Tracking.Steps.{create_track, new_memory, apply_detection, hit_memory}
use vision.Tracking.Update.{match_existing_track, observe, observe_all}
use vision.Tracking.Invariant.{Inv, next-unused}
use vision.Tracking.Preservation.{create_track-Inv, hit_track-Inv, hit_track-tracks}
use vision.Tracking.Matching.{IsFree, match_existing_track-IsFree}

module _ ⦃fl : Floats⦄ where
  -- The id names a track that was last seen at `ts`.
  abbrev pub IsSeenAt : Manager → ℕ → ℕ → Type 0
  IsSeenAt m ts i = Ensures (λ memory. memory.last_seen_ts ≡ ts) (lookup i m.tracks)

  abbrev pub AreSeenAt : Manager → ℕ → List ℕ → Type 0
  AreSeenAt m ts = All (IsSeenAt m ts)

  -- What one detection does: it hits one track, which is not among `seen`, and that may be a new one.
  pub record IsHit (m : Manager) (d : Detection) (ts : ℕ) (seen : List ℕ) (r : ℕ × Manager)
      : Type 0 where
    pub inv : Inv r.1
    pub unseen : contains seen r.0 ≡ false
    pub hit :
        Ensures
          (λ memory. (memory.last_seen_ts ≡ ts) × (memory.class_name ≡ d.class_name))
          (lookup r.0 r.1.tracks)
    pub others : (i : ℕ) → i ≢ r.0 → lookup i r.1.tracks ≡ lookup i m.tracks
    pub same_config : r.1.config ≡ m.config
    pub next_grows : m.next_stable_track_id ≤ r.1.next_stable_track_id

  apply_detection-IsHit :
      (m : Manager) (sid : ℕ) (d : Detection) (ts : ℕ) (fs : Option (List ℕ)) (seen : List ℕ)
      → Inv m
      → contains seen sid ≡ false
      → is_some (lookup sid m.tracks) ≡ true
      → Ensures (λ m'. IsHit m d ts seen (sid, m')) (apply_detection m sid d ts fs)
  unfolding apply_detection
  apply_detection-IsHit m sid d ts fs seen v free held = byMemory (lookup sid m.tracks) refl
    where
      byMemory :
          (o : Option TrackMemory)
          → lookup sid m.tracks ≡ o
          → Ensures (λ m'. IsHit m d ts seen (sid, m')) (apply_detection m sid d ts fs)
      byMemory none e = ground arith
      byMemory (some memory) e =
          let stores = hit_track-tracks m sid memory d ts fs in
          let kept =
            λ (i : ℕ). lookup-insert sid i (hit_memory m.config sid memory d ts fs) m.tracks in
          rw (e, apply_detection)
            (record {
              inv = hit_track-Inv m sid memory d ts fs v e;
              unseen = free;
              hit = ground (arith, stores, kept sid);
              others = λ i h. ground (arith, stores, kept i);
              same_config = stores.1;
              next_grows = ground (arith, stores);
            })

  create_track-tracks :
      (m : Manager) (d : Detection) (ts : ℕ)
      → ((create_track m d ts).0 ≡ m.next_stable_track_id)
        × ((create_track m d ts).1.tracks
            ≡ insert m.next_stable_track_id (new_memory m.next_stable_track_id d ts) m.tracks)
        × ((create_track m d ts).1.config ≡ m.config)
        × ((create_track m d ts).1.next_stable_track_id ≡ m.next_stable_track_id + 1)
  unfolding create_track
  create_track-tracks m d ts = ground arith

  -- The ids seen so far are below the next one, so a new track's id is not among them.
  contains-next :
      (m : Manager) (ts : ℕ) (seen : List ℕ)
      → Inv m
      → AreSeenAt m ts seen
      → contains seen m.next_stable_track_id ≡ false
  unfolding contains
  contains-next m ts [] v tracked = refl
  contains-next m ts (i ∷ seen) v tracked = ground (
    arith,
    next-unused m v,
    contains-next m ts seen v tracked.1,
    nat_beq_iff i m.next_stable_track_id,
  )

  created-IsHit :
      (m : Manager) (d : Detection) (ts : ℕ) (fs : Option (List ℕ)) (seen : List ℕ)
      → Inv m
      → AreSeenAt m ts seen
      → Ensures
          (λ m'. IsHit m d ts seen (m.next_stable_track_id, m'))
          (apply_detection (create_track m d ts).1 m.next_stable_track_id d ts fs)
  created-IsHit m d ts fs seen v tracked =
      let c = create_track-tracks m d ts in
      let next = m.next_stable_track_id in
      let kept = λ (i : ℕ). lookup-insert next i (new_memory next d ts) m.tracks in
      Ensures-imp (λ m'. IsHit (create_track m d ts).1 d ts seen (next, m'))
        (λ m'. IsHit m d ts seen (next, m')) _
        (λ m' h. record {
          inv = h.inv;
          unseen = h.unseen;
          hit = h.hit;
          others = λ i t. h.others i t ∙ ground (arith, c, kept i);
          same_config = h.same_config ∙ c.2;
          next_grows = ground (arith, c, h.next_grows);
        })
        (apply_detection-IsHit (create_track m d ts).1 next d ts fs seen (create_track-Inv m d ts v)
          (contains-next m ts seen v tracked) (ground (arith, c, kept next)))

  pub observe-IsHit :
      (m : Manager) (d : Detection) (ts : ℕ) (fs : Option (List ℕ)) (seen : List ℕ)
      → Inv m
      → AreSeenAt m ts seen
      → Ensures (IsHit m d ts seen) (observe m d ts fs seen)
  unfolding observe
  observe-IsHit m d ts fs seen v tracked =
      byMatch (match_existing_track m d seen fs) refl (match_existing_track-IsFree m d seen fs)
    where
      byMatch :
          (o : Option ℕ)
          → match_existing_track m d seen fs ≡ o
          → IsFree m seen o
          → Ensures (IsHit m d ts seen) (observe m d ts fs seen)
      byMatch none e free =
          rw (e, observe)
            (Ensures->>= (λ m'. IsHit m d ts seen (m.next_stable_track_id, m')) (IsHit m d ts seen)
              (apply_detection (create_track m d ts).1 m.next_stable_track_id d ts fs)
              (λ m'. some (m.next_stable_track_id, m')) (created-IsHit m d ts fs seen v tracked)
              (λ m' h. h))
      byMatch (some sid) e free =
          rw (e, observe)
            (Ensures->>= (λ m'. IsHit m d ts seen (sid, m')) (IsHit m d ts seen)
              (apply_detection m sid d ts fs) (λ m'. some (sid, m'))
              (apply_detection-IsHit m sid d ts fs seen v free.0 free.1) (λ m' h. h))

  -- What the whole loop does, from the ids seen before it.
  pub record IsObserved (m : Manager) (ds : List Detection) (ts : ℕ) (seen : List ℕ)
      (r : List ℕ × Manager) : Type 0 where
    pub inv : Inv r.1
    pub tracked : AreSeenAt r.1 ts r.0
    pub unique : IsUnique r.0
    pub count : length r.0 ≡ length seen + length ds
    pub same_config : r.1.config ≡ m.config
    pub next_grows : m.next_stable_track_id ≤ r.1.next_stable_track_id

  kept-IsSeenAt :
      (m : Manager) (d : Detection) (ts : ℕ) (seen : List ℕ) (r : ℕ × Manager) (ids : List ℕ)
      → Inv m
      → IsHit m d ts seen r
      → contains ids r.0 ≡ false
      → AreSeenAt m ts ids
      → AreSeenAt r.1 ts ids
  unfolding contains
  kept-IsSeenAt m d ts seen r [] v h away tracked = tt
  kept-IsSeenAt m d ts seen r (i ∷ ids) v h away tracked = (
    ground (arith, h.others i, nat_beq_iff i r.0),
    kept-IsSeenAt m d ts seen r ids v h (ground arith) tracked.1,
  )

  -- If the invariant holds, observing the detections of a frame raises no exception and keeps the
  -- invariant; each detection has a track of its own, all of them last seen at the frame's time.
  -- The tracks seen before are different from each other and were last seen at that time.
  pub observe_all-IsObserved :
      (m : Manager) (ds : List Detection) (ts : ℕ) (fs : Option (List ℕ)) (seen : List ℕ)
      → Inv m
      → AreSeenAt m ts seen
      → IsUnique seen
      → Ensures (IsObserved m ds ts seen) (observe_all m ds ts fs seen)
  unfolding observe_all
  observe_all-IsObserved m [] ts fs seen v tracked unique = record {
    inv = v;
    tracked = tracked;
    unique = unique;
    count = omega arith;
    same_config = refl;
    next_grows = omega arith;
  }
  observe_all-IsObserved m (d ∷ ds) ts fs seen v tracked unique =
      Ensures->>= (IsHit m d ts seen) (IsObserved m (d ∷ ds) ts seen) (observe m d ts fs seen) _
        (observe-IsHit m d ts fs seen v tracked)
        λ r h.
          Ensures-imp (IsObserved r.1 ds ts (seen ++ r.0 ∷ [])) (IsObserved m (d ∷ ds) ts seen)
            (observe_all r.1 ds ts fs (seen ++ r.0 ∷ []))
            (λ s o. record {
              inv = o.inv;
              tracked = o.tracked;
              unique = o.unique;
              count = omega (arith, o.count, length-append seen (r.0 ∷ []));
              same_config = o.same_config ∙ h.same_config;
              next_grows = omega (arith, o.next_grows, h.next_grows);
            })
            (observe_all-IsObserved r.1 ds ts fs (seen ++ r.0 ∷ []) h.inv
              (All-append (IsSeenAt r.1 ts) seen (r.0 ∷ [])
                (kept-IsSeenAt m d ts seen r seen v h h.unseen tracked) (ground (arith, h.hit), tt))
              (snoc-IsUnique seen r.0 h.unseen unique))
