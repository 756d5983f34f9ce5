-- ===== src/Tracking/Lifetime.antt =====
-- `update` and the life of a manager: no exception, the invariant, and what is published.
use vision.Common.{
  ℕ, ◌>>=◌, ◌≤◌, ◌≡◌, ◌∙◌, subst, true, Option, some, List, [], ◌∷◌, ◌++◌, lookup, contains,
  contains-append, All, All-self, All-append, All-imp, sorted, sorted-All, entries-lookup, Ensures,
  Ensures->>=, compare_nat, arith,
}
use vision.Common.Float.{Floats}
use vision.Detection.{Detection}
use vision.Tracking.Memory.{Manager, TrackMemory, TrackLifecycleConfig, LifecycleTrack}
use vision.Tracking.Update.{
  init, sorts_before, observe_all, suppress_duplicate_detections, visible_seen, age_tracks, publish,
  update, by_stable_id,
}
use vision.Tracking.Invariant.{Inv}
use vision.Tracking.Observation.{IsObserved, observe_all-IsObserved}
use vision.Tracking.Suppression.Loop.{IsDeduplicated, suppress_duplicate_detections-IsDeduplicated}
use vision.Tracking.Ageing.{age_tracks-AreAged}
use vision.Tracking.Results.{
  IsCurrent, IsPicture, aged-IsCurrent, visible_seen-pictures, all_shown-pictures,
}

module _ ⦃fl : Floats⦄ where
  pub record IsUpdated (m : Manager) (ts : ℕ) (r : List LifecycleTrack × Manager) : Type 0 where
    pub inv : Inv r.1
    pub current :
        (i : ℕ) (memory : TrackMemory)
        → lookup i r.1.tracks ≡ some memory
        → IsCurrent m.config ts memory
    pub pictures : All (IsPicture r.1 ts) r.0
    pub next_grows : m.next_stable_track_id ≤ r.1.next_stable_track_id
    pub same_config : r.1.config ≡ m.config

  -- The invariant does not look at the snapshots.
  set_snapshots-Inv :
      (m : Manager) (xs ys : List LifecycleTrack)
      → Inv m
      → Inv (record m { last_visible_tracks = xs; last_candidate_context_tracks = ys })
  set_snapshots-Inv m xs ys v = record {
    distinct = v.distinct;
    keyed = v.keyed;
    sourced = v.sourced;
  }

  in-append :
      (seen suppressed ids : List ℕ)
      → All (λ i. contains seen i ≡ true) ids
      → All (λ i. contains (seen ++ suppressed) i ≡ true) ids
  in-append seen suppressed ids h =
      All-imp _ _ ids (λ i c. ground (arith, contains-append seen suppressed i)) h

  publish-IsUpdated :
      (m : Manager) (seen : List ℕ) (ts : ℕ) (fs : Option (List ℕ)) (r : List ℕ × Manager)
      → IsDeduplicated ts m seen r
      → IsUpdated m ts (publish r.1 seen r.0 ts fs)
  unfolding publish
  publish-IsUpdated m seen ts fs r d =
      let s = age_tracks r.1 r.1.tracks (seen ++ r.0) ts fs in
      let held = entries-lookup r.1.tracks d.inv.distinct in
      let a = age_tracks-AreAged (seen ++ r.0) ts fs r.1 r.1.tracks d.inv d.inv.distinct held in
      record {
        inv = set_snapshots-Inv s.0 _ _ a.inv;
        current = λ i memory e.
            subst (λ c. IsCurrent c ts memory) d.same_config
              (aged-IsCurrent m seen ts fs r s i memory d a e);
        pictures = sorted-All by_stable_id (IsPicture s.0 ts) _ (
            All-append (IsPicture s.0 ts) (visible_seen r.1 r.0 seen) s.1
              (visible_seen-pictures m seen seen ts fs r s d a
                (in-append seen r.0 seen (All-self seen)))
              (rw a.shown (all_shown-pictures seen ts fs r s r.1.tracks d.inv a held)));
        next_grows = omega (arith, a.same_next, d.same_next);
        same_config = a.same_config ∙ d.same_config;
      }

  -- From a manager whose invariant holds, `update` raises no exception. Afterwards the invariant holds
  -- again; every stored track was seen in this frame or coasts within the time allowed; every
  -- published track is the picture of a stored one that is active or coasting, with its true age,
  -- within the time allowed; the configuration is the same, and no id is taken back.
  pub update-IsUpdated :
      (m : Manager) (ds : List Detection) (ts : ℕ) (fs : Option (List ℕ))
      → Inv m
      → Ensures (IsUpdated m ts) (update m ds ts fs)
  unfolding update
  update-IsUpdated m ds ts fs v =
      Ensures->>= (IsObserved m (sorted (sorts_before m) ds) ts []) (IsUpdated m ts)
        (observe_all m (sorted (sorts_before m) ds) ts fs []) _
        (observe_all-IsObserved m (sorted (sorts_before m) ds) ts fs [] v tt tt)
        λ o observed.
          Ensures->>= (IsDeduplicated ts o.1 o.0) (IsUpdated m ts)
            (suppress_duplicate_detections o.1 o.0 ts) _
            (suppress_duplicate_detections-IsDeduplicated ts o.1 o.0 observed.inv observed.tracked
              observed.unique)
            λ r d.
              let u = publish-IsUpdated o.1 o.0 ts fs r d in
              record {
                inv = u.inv;
                current = λ i memory e.
                    subst (λ c. IsCurrent c ts memory) observed.same_config (u.current i memory e);
                pictures = u.pictures;
                next_grows = omega (arith, u.next_grows, observed.next_grows);
                same_config = u.same_config ∙ observed.same_config;
              }

  pub init-Inv : (c : TrackLifecycleConfig) → Inv (init c)
  unfolding init lookup
  init-Inv c = record { distinct = tt; keyed = λ i memory e. cc; sourced = λ source i e. cc }

  -- A frame: its detections, its time and its shape.
  abbrev pub Frame : Type 0
  Frame = List Detection × ℕ × Option (List ℕ)

  unfoldable pub run : Manager → List Frame → Option Manager
  run m [] = some m
  run m ((ds, ts, fs) ∷ frames) = do (visible, m') ← update m ds ts fs; run m' frames

  run-Inv : (m : Manager) (frames : List Frame) → Inv m → Ensures Inv (run m frames)
  unfolding run
  run-Inv m [] v = v
  run-Inv m ((ds, ts, fs) ∷ frames) v =
      Ensures->>= (IsUpdated m ts) Inv (update m ds ts fs) _ (update-IsUpdated m ds ts fs v)
        λ r u. run-Inv r.1 frames u.inv

  -- No stream of frames makes a fresh manager raise a `KeyError`, and its invariant holds in the end:
  -- no id is stored twice, each track stands under its own id, below the next one, and the index of
  -- source ids names only tracks that exist and have that source.
  pub run-init-Inv :
      (c : TrackLifecycleConfig) (frames : List Frame) → Ensures Inv (run (init c) frames)
  run-init-Inv c frames = run-Inv (init c) frames (init-Inv c)
