-- ===== src/Tracking/Suppression/Loop.antt =====
-- The loop of `_suppress_duplicate_detections`, and the whole of it.
use vision.Common.{
  ℕ, map, sorted, contains-keys-sorted, sorted-keys-IsUnique, ◌≡◌, refl, sym, ◌∙◌, true, false,
  Option, none, some, List, [], ◌∷◌, ◌++◌, lookup, contains, contains-append, All, All-append,
  All-unappend, All-at, All-sub, ap, ℕ_discrete, All-imp, IsUnique, Ensures, Ensures->>=,
  Ensures-imp, compare_nat, nat_beq_iff, arith, ◌⊎◌, inl, inr,
}
use vision.Common.Float.{Floats}
use vision.Tracking.Memory.{Manager, TrackMemory}
use vision.Tracking.Update.{
  ranks_before, ranked, suppress_duplicate_detections, find_duplicate, suppress_into, suppress_loop,
}
use vision.Tracking.Invariant.{Inv}
use vision.Tracking.Suppression.{
  IsOriginal, IsSuppressed, IsSettled, IsReady, find_duplicate-IsOriginal,
  suppress_into-IsSuppressed,
}
use vision.Tracking.Observation.{IsSeenAt, AreSeenAt}

module _ ⦃fl : Floats⦄ (ts : ℕ) where
  apart-snoc :
      (sid : ℕ) (selected ids : List ℕ)
      → contains ids sid ≡ false
      → All (λ i. contains selected i ≡ false) ids
      → All (λ i. contains (selected ++ sid ∷ []) i ≡ false) ids
  unfolding contains
  apart-snoc sid selected [] new h = tt
  apart-snoc sid selected (i ∷ ids) new h = (
    ground (arith, contains-append selected (sid ∷ []) i, nat_beq_iff sid i, nat_beq_iff i sid),
    apart-snoc sid selected ids (ground arith) h.1,
  )

  keep-IsReady :
      (m : Manager) (sid : ℕ) (ids selected suppressed : List ℕ)
      → IsReady ts m (sid ∷ ids) selected suppressed
      → IsReady ts m ids (selected ++ sid ∷ []) suppressed
  keep-IsReady m sid ids selected suppressed h = record {
    inv = h.inv;
    ids_seen = h.ids_seen.1;
    selected_seen =
        All-append (IsSeenAt m ts) selected (sid ∷ []) h.selected_seen (h.ids_seen.0, tt);
    unique = h.unique.1;
    apart = apart-snoc sid selected ids h.unique.0 h.apart.1;
    gone = h.gone;
  }

  keep-IsSettled :
      (m : Manager) (sid : ℕ) (ids selected suppressed : List ℕ) (r : List ℕ × Manager)
      → IsSettled ts m ids (selected ++ sid ∷ []) suppressed r
      → IsSettled ts m (sid ∷ ids) selected suppressed r
  unfolding contains
  keep-IsSettled m sid ids selected suppressed r h =
      let (stays, own) = All-unappend (IsSeenAt r.1 ts) selected (sid ∷ []) h.stays in
      record {
        inv = h.inv;
        gone = h.gone;
        grows = h.grows;
        stays = stays;
        each = (inr own.0, h.each);
        others = λ i t u.
            h.others i (ground arith) (ground (arith, contains-append selected (sid ∷ []) i));
        same_config = h.same_config;
        same_next = h.same_next;
      }

  still_seen :
      (m m' : Manager) (sid j : ℕ) (ids : List ℕ)
      → IsSuppressed ts m sid j m'
      → contains ids sid ≡ false
      → AreSeenAt m ts ids
      → AreSeenAt m' ts ids
  unfolding contains
  still_seen m m' sid j [] s away seen = tt
  still_seen m m' sid j (i ∷ ids) s away seen = (
    elim (ℕ_discrete i j) [
      | yes same ↦ rw same s.original
      | no other ↦ ground (arith, s.others i, nat_beq_iff i sid)
    ],
    still_seen m m' sid j ids s (ground arith) seen.1,
  )

  drop-IsReady :
      (m m' : Manager) (sid j : ℕ) (memory original : TrackMemory)
      (ids selected suppressed : List ℕ)
      → lookup sid m.tracks ≡ some memory
      → lookup j m.tracks ≡ some original
      → IsSuppressed ts m sid j m'
      → IsReady ts m (sid ∷ ids) selected suppressed
      → IsReady ts m' ids selected (sid ∷ suppressed)
  drop-IsReady m m' sid j memory original ids selected suppressed e held s h = record {
    inv = s.inv;
    ids_seen = still_seen m m' sid j ids s h.unique.0 h.ids_seen.1;
    selected_seen = still_seen m m' sid j selected s h.apart.0 h.selected_seen;
    unique = h.unique.1;
    apart = h.apart.1;
    gone = (
      s.gone,
      All-imp (λ i. lookup i m.tracks ≡ none) (λ i. lookup i m'.tracks ≡ none) suppressed
          (λ i absent.
            s.others i (λ same. cc (ap (λ k. lookup k m.tracks) same))
              (λ same. cc (ap (λ k. lookup k m.tracks) same))
            ∙ absent)
          h.gone,
    );
  }

  drop-IsSettled :
      (m m' : Manager) (sid j : ℕ) (ids selected suppressed : List ℕ) (r : List ℕ × Manager)
      → contains selected j ≡ true
      → IsSuppressed ts m sid j m'
      → IsSettled ts m' ids selected (sid ∷ suppressed) r
      → IsSettled ts m (sid ∷ ids) selected suppressed r
  unfolding contains
  drop-IsSettled m m' sid j ids selected suppressed r chosen s h = record {
    inv = h.inv;
    gone = h.gone;
    grows = λ i c. h.grows i (ground arith);
    stays = h.stays;
    each = (inl (h.grows sid (ground (arith, nat_beq_iff sid sid))), h.each);
    others = λ i t u.
        h.others i (ground arith) u
        ∙ s.others i (λ same. ground (arith, nat_beq_iff sid i))
            (λ same. cc (ap (contains selected) same));
    same_config = h.same_config ∙ s.same_config;
    same_next = h.same_next ∙ s.same_next;
  }

  -- One round, given the rounds after it.
  suppress_round-IsSettled :
      (m : Manager) (sid : ℕ) (ids selected suppressed : List ℕ)
      → ((m' : Manager) (selected' suppressed' : List ℕ)
          → IsReady ts m' ids selected' suppressed'
          → Ensures
              (IsSettled ts m' ids selected' suppressed')
              (suppress_loop m' ids ts selected' suppressed'))
      → IsReady ts m (sid ∷ ids) selected suppressed
      → (o : Option TrackMemory) → lookup sid m.tracks ≡ o
      → Ensures
          (IsSettled ts m (sid ∷ ids) selected suppressed)
          (suppress_loop m (sid ∷ ids) ts selected suppressed)
  unfolding suppress_loop
  suppress_round-IsSettled m sid ids selected suppressed later h none e =
      absurd (ground (arith, h.ids_seen.0))
  suppress_round-IsSettled m sid ids selected suppressed later h (some memory) e =
      rw (e, suppress_loop)
        (Ensures->>= (IsOriginal ts m memory selected)
          (IsSettled ts m (sid ∷ ids) selected suppressed) (find_duplicate m memory selected ts) _
          (find_duplicate-IsOriginal ts m memory selected h.selected_seen) outcome)
    where
      outcome :
          (r : Option (ℕ × TrackMemory))
          → IsOriginal ts m memory selected r
          → Ensures (IsSettled ts m (sid ∷ ids) selected suppressed) (elim r [
            | none ↦ suppress_loop m ids ts (selected ++ sid ∷ []) suppressed
            | some (j, original) ↦
                suppress_loop
                  (suppress_into m sid memory j original)
                  ids
                  ts
                  selected
                  (sid ∷ suppressed)
          ])
      outcome none k =
          Ensures-imp _ _ (suppress_loop m ids ts (selected ++ sid ∷ []) suppressed)
            (keep-IsSettled m sid ids selected suppressed)
            (later m (selected ++ sid ∷ []) suppressed
              (keep-IsReady m sid ids selected suppressed h))
      outcome (some (j, original)) k =
          let m' = suppress_into m sid memory j original in
          let s : IsSuppressed ts m sid j m' =
            suppress_into-IsSuppressed ts m sid memory j original h.inv
              (λ same. cc (ap (contains selected) same, k.0, h.apart.0))
              (ground (arith, h.ids_seen.0))
              (ground (arith, All-at (IsSeenAt m ts) selected j k.0 h.selected_seen)) k.1 in
          Ensures-imp _ _ (suppress_loop m' ids ts selected (sid ∷ suppressed))
            (λ r. drop-IsSettled m m' sid j ids selected suppressed r k.0 s)
            (later m' selected (sid ∷ suppressed)
              (drop-IsReady m m' sid j memory original ids selected suppressed e k.1 s h))

  suppress_loop-IsSettled :
      (m : Manager) (ids selected suppressed : List ℕ)
      → IsReady ts m ids selected suppressed
      → Ensures
          (IsSettled ts m ids selected suppressed)
          (suppress_loop m ids ts selected suppressed)
  unfolding suppress_loop
  suppress_loop-IsSettled m [] selected suppressed h = record {
    inv = h.inv;
    gone = h.gone;
    grows = λ i c. c;
    stays = h.selected_seen;
    each = tt;
    others = λ i _ _. refl;
    same_config = refl;
    same_next = refl;
  }
  suppress_loop-IsSettled m (sid ∷ ids) selected suppressed h =
      suppress_round-IsSettled m sid ids selected suppressed
        (λ m' selected' suppressed'. suppress_loop-IsSettled m' ids selected' suppressed') h
        (lookup sid m.tracks) refl

  -- The keys of the ids can all be looked up, and are the ids.
  ranked_lem :
      (m : Manager) (ids : List ℕ)
      → AreSeenAt m ts ids
      → Ensures (λ keyed. map (λ x. x.0) keyed ≡ ids) (ranked m ids)
  unfolding ranked
  ranked_lem m [] h = refl
  ranked_lem m (i ∷ ids) h = ground (arith, ranked_lem m ids h.1)

  -- What the suppression of duplicates does to the tracks of a frame.
  pub record IsDeduplicated (m : Manager) (ids : List ℕ) (r : List ℕ × Manager) : Type 0 where
    pub inv : Inv r.1
    pub gone : All (λ i. lookup i r.1.tracks ≡ none) r.0
    pub each : All (λ i. (contains r.0 i ≡ true) ⊎ IsSeenAt r.1 ts i) ids
    pub others : (i : ℕ) → contains ids i ≡ false → lookup i r.1.tracks ≡ lookup i m.tracks
    pub same_config : r.1.config ≡ m.config
    pub same_next : r.1.next_stable_track_id ≡ m.next_stable_track_id

  nothing-apart : (ids : List ℕ) → All (λ i. contains {A = ℕ} [] i ≡ false) ids
  unfolding contains
  nothing-apart [] = tt
  nothing-apart (i ∷ ids) = (refl, nothing-apart ids)

  reordered-IsDeduplicated :
      (m : Manager) (ids order : List ℕ) (r : List ℕ × Manager)
      → ((i : ℕ) → contains order i ≡ contains ids i)
      → IsSettled ts m order [] [] r
      → IsDeduplicated m ids r
  unfolding contains
  reordered-IsDeduplicated m ids order r same h = record {
    inv = h.inv;
    gone = h.gone;
    each =
        All-sub (λ i. (contains r.0 i ≡ true) ⊎ IsSeenAt r.1 ts i) order ids (λ i c. same i ∙ c)
          h.each;
    others = λ i t. h.others i (same i ∙ t) refl;
    same_config = h.same_config;
    same_next = h.same_next;
  }

  pub suppress_duplicate_detections-IsDeduplicated :
      (m : Manager) (ids : List ℕ)
      → Inv m
      → AreSeenAt m ts ids
      → IsUnique ids
      → Ensures (IsDeduplicated m ids) (suppress_duplicate_detections m ids ts)
  unfolding suppress_duplicate_detections
  suppress_duplicate_detections-IsDeduplicated m ids v seen unique =
      Ensures->>= (λ keyed. map (λ x. x.0) keyed ≡ ids) (IsDeduplicated m ids) (ranked m ids) _
        (ranked_lem m ids seen)
        λ keyed e.
          let before = λ (a b : ℕ × TrackMemory). ranks_before a.1 b.1 in
          let order = map (λ (x : ℕ × TrackMemory). x.0) (sorted before keyed) in
          let same = λ (i : ℕ). contains-keys-sorted before keyed i ∙ ap (λ xs. contains xs i) e in
          Ensures-imp (IsSettled ts m order [] []) (IsDeduplicated m ids)
            (suppress_loop m order ts [] []) (λ r. reordered-IsDeduplicated m ids order r same)
            (suppress_loop-IsSettled m order [] [] (record {
              inv = v;
              ids_seen = All-sub (IsSeenAt m ts) ids order (λ i c. sym (same i) ∙ c) seen;
              selected_seen = tt;
              unique = sorted-keys-IsUnique before keyed (rw e unique);
              apart = nothing-apart order;
              gone = tt;
            }))
