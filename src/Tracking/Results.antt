-- ===== src/Tracking/Results.antt =====
-- What `update` guarantees of its result, from a manager whose invariant holds.
use vision.Common.{
  ℕ, ◌-◌, ◌≤◌, ◌≡◌, refl, sym, ◌∙◌, ap, false≢true, true, Option, none, some, List, [], ◌∷◌, ◌++◌,
  Dict, lookup, contains, contains-append, All, All-at, All-append, Ensures, compare_nat,
  if◌then◌else◌, arith, ◌⊎◌, inl, inr, Bool-cases,
}
use vision.Common.Float.{Floats}
use vision.Tracking.Memory.{
  Manager, TrackMemory, TrackLifecycleConfig, coasting, LifecycleTrack, elapsed_ms, is_published,
  is_active,
}
use vision.Tracking.Steps.{coast_memory, to_lifecycle_track}
use vision.Tracking.Update.{visible_seen, may_coast}
use vision.Tracking.Invariant.{Inv}
use vision.Tracking.Suppression.Loop.{IsDeduplicated}
use vision.Tracking.Ageing.{fate, all_shown, shown_of, AreAged}

module _ ⦃fl : Floats⦄ where
  -- A track of the dictionary after a frame at `ts` was seen in it, or coasts within the time allowed.
  abbrev pub IsCurrent : TrackLifecycleConfig → ℕ → TrackMemory → Type 0
  IsCurrent c ts memory =
      (memory.last_seen_ts ≡ ts)
      ⊎ ((memory.state ≡ coasting) × (elapsed_ms memory.last_seen_ts ts ≤ c.coast_ttl_ms))

  -- A published track is the picture of a stored one, active or coasting, with its true age, which
  -- is within the time allowed.
  abbrev pub IsPicture : Manager → ℕ → LifecycleTrack → Type 0
  IsPicture m ts t =
      Ensures
        (λ memory.
          (t ≡ to_lifecycle_track memory (elapsed_ms memory.last_seen_ts ts))
          × (is_published memory.state ≡ true)
          × (elapsed_ms memory.last_seen_ts ts ≤ m.config.coast_ttl_ms))
        (lookup t.stable_track_id m.tracks)

  elapsed_ms_self : (ts : ℕ) → elapsed_ms ts ts ≡ 0
  unfolding elapsed_ms
  elapsed_ms_self ts = let e : ts - ts ≡ 0 = omega arith in rw e

  skipped-current :
      (m : Manager) (seen : List ℕ) (ts : ℕ) (r : List ℕ × Manager) (i : ℕ) (memory : TrackMemory)
      → IsDeduplicated ts m seen r
      → lookup i r.1.tracks ≡ some memory
      → contains (seen ++ r.0) i ≡ true
      → memory.last_seen_ts ≡ ts
  skipped-current m seen ts r i memory d held skip = elim (Bool-cases (contains r.0 i)) [
    | inl dropped ↦ absurd (ground (arith, All-at _ r.0 i dropped d.gone))
    | inr kept ↦ elim (All-at _ seen i (ground (arith, contains-append seen r.0 i)) d.each) [
      | inl dropped ↦ absurd (false≢true (sym kept ∙ dropped))
      | inr seen_at ↦ ground (arith, seen_at)
    ]
  ]

  coast_memory_lem :
      (c : TrackLifecycleConfig) (memory : TrackMemory) (ts : ℕ) (fs : Option (List ℕ))
      → may_coast c memory ts ≡ true
      → ((coast_memory c memory ts fs).state ≡ coasting)
        × ((coast_memory c memory ts fs).last_seen_ts ≡ memory.last_seen_ts)
        × ((coast_memory c memory ts fs).stable_track_id ≡ memory.stable_track_id)
        × (elapsed_ms memory.last_seen_ts ts ≤ c.coast_ttl_ms)
  unfolding coast_memory may_coast
  coast_memory_lem c memory ts fs h = ground arith

  fate-IsCurrent :
      (m : Manager) (seen : List ℕ) (ts : ℕ) (fs : Option (List ℕ)) (r : List ℕ × Manager) (i : ℕ)
      (before after : TrackMemory)
      → IsDeduplicated ts m seen r
      → lookup i r.1.tracks ≡ some before
      → fate (seen ++ r.0) ts fs r.1.config i before ≡ some after
      → IsCurrent r.1.config ts after
  unfolding fate
  fate-IsCurrent m seen ts fs r i before after d held e =
      elim (Bool-cases (contains (seen ++ r.0) i)) [
        | inl skip ↦ inl (ground (arith, skipped-current m seen ts r i before d held skip))
        | inr aged ↦ elim (Bool-cases (may_coast r.1.config before ts)) [
          | inl coasts ↦ inr (ground (arith, coast_memory_lem r.1.config before ts fs coasts))
          | inr expired ↦ absurd (ground arith)
        ]
      ]

  pub aged-IsCurrent :
      (m : Manager) (seen : List ℕ) (ts : ℕ) (fs : Option (List ℕ)) (r : List ℕ × Manager)
      (s : Manager × List LifecycleTrack) (i : ℕ) (after : TrackMemory)
      → IsDeduplicated ts m seen r
      → AreAged (seen ++ r.0) ts fs r.1 r.1.tracks s
      → lookup i s.0.tracks ≡ some after
      → IsCurrent r.1.config ts after
  aged-IsCurrent m seen ts fs r s i after d a e = byMemory (lookup i r.1.tracks) refl
    where
      byMemory : (o : Option TrackMemory) → lookup i r.1.tracks ≡ o → IsCurrent r.1.config ts after
      byMemory none h = absurd (ground (arith, a.each i))
      byMemory (some before) h =
          fate-IsCurrent m seen ts fs r i before after d h (ground (arith, a.each i))

  stored-IsPicture :
      (m : Manager) (ts i age : ℕ) (memory : TrackMemory)
      → lookup i m.tracks ≡ some memory
      → memory.stable_track_id ≡ i
      → age ≡ elapsed_ms memory.last_seen_ts ts
      → is_published memory.state ≡ true
      → age ≤ m.config.coast_ttl_ms
      → IsPicture m ts (to_lifecycle_track memory age)
  unfolding to_lifecycle_track
  stored-IsPicture m ts i age memory held own true_age shown short =
      let found : lookup memory.stable_track_id m.tracks ≡ some memory =
        ap (λ k. lookup k m.tracks) own ∙ held in
      rw found (ground arith)

  -- A track of this frame that is left stands in the end as it is.
  seen-stored :
      (m : Manager) (seen : List ℕ) (ts : ℕ) (fs : Option (List ℕ)) (r : List ℕ × Manager)
      (s : Manager × List LifecycleTrack) (i : ℕ) (memory : TrackMemory)
      → AreAged (seen ++ r.0) ts fs r.1 r.1.tracks s
      → contains (seen ++ r.0) i ≡ true
      → lookup i r.1.tracks ≡ some memory
      → lookup i s.0.tracks ≡ some memory
  unfolding fate
  seen-stored m seen ts fs r s i memory a skip e = ground (arith, a.each i)

  visible-cons :
      (m : Manager) (seen : List ℕ) (ts : ℕ) (fs : Option (List ℕ)) (r : List ℕ × Manager)
      (s : Manager × List LifecycleTrack) (i : ℕ) (rest : List LifecycleTrack)
      (o : Option TrackMemory)
      → IsDeduplicated ts m seen r
      → AreAged (seen ++ r.0) ts fs r.1 r.1.tracks s
      → contains (seen ++ r.0) i ≡ true
      → lookup i r.1.tracks ≡ o
      → All (IsPicture s.0 ts) rest
      → All (IsPicture s.0 ts) (elim o [
        | none ↦ rest
        | some memory ↦ if is_active memory.state then to_lifecycle_track memory 0 ∷ rest else rest
      ])
  visible-cons m seen ts fs r s i rest none d a skip e h = h
  visible-cons m seen ts fs r s i rest (some memory) d a skip e h =
      elim (Bool-cases (is_active memory.state)) [
        | inl shown ↦
            let at : memory.last_seen_ts ≡ ts = skipped-current m seen ts r i memory d e skip in
            let age : 0 ≡ elapsed_ms memory.last_seen_ts ts =
              sym (ap (λ t. elapsed_ms t ts) at ∙ elapsed_ms_self ts) in
            rw shown (
              stored-IsPicture s.0 ts i 0 memory (seen-stored m seen ts fs r s i memory a skip e)
                  (d.inv.keyed i memory e).own age (ground arith) (omega arith),
              h,
            )
        | inr hidden ↦ rw hidden h
      ]

  pub visible_seen-pictures :
      (m : Manager) (seen ids : List ℕ) (ts : ℕ) (fs : Option (List ℕ)) (r : List ℕ × Manager)
      (s : Manager × List LifecycleTrack)
      → IsDeduplicated ts m seen r
      → AreAged (seen ++ r.0) ts fs r.1 r.1.tracks s
      → All (λ i. contains (seen ++ r.0) i ≡ true) ids
      → All (IsPicture s.0 ts) (visible_seen r.1 r.0 ids)
  unfolding visible_seen
  visible_seen-pictures m seen [] ts fs r s d a h = tt
  visible_seen-pictures m seen (i ∷ ids) ts fs r s d a h =
      let rest = visible_seen-pictures m seen ids ts fs r s d a h.1 in
      elim (Bool-cases (contains r.0 i)) [
        | inl dropped ↦ rw (dropped, visible_seen) rest
        | inr kept ↦
            rw (kept, visible_seen)
              (visible-cons m seen ts fs r s i (visible_seen r.1 r.0 ids) (lookup i r.1.tracks) d a
                h.0 refl rest)
      ]

  shown_of-IsPicture :
      (seen : List ℕ) (ts : ℕ) (fs : Option (List ℕ)) (r : List ℕ × Manager)
      (s : Manager × List LifecycleTrack) (i : ℕ) (memory : TrackMemory)
      → Inv r.1
      → AreAged (seen ++ r.0) ts fs r.1 r.1.tracks s
      → lookup i r.1.tracks ≡ some memory
      → All (IsPicture s.0 ts) (shown_of (seen ++ r.0) ts fs r.1.config i memory)
  unfolding shown_of fate
  shown_of-IsPicture seen ts fs r s i memory v a e = elim (Bool-cases (contains (seen ++ r.0) i)) [
    | inl skip ↦ rw (skip, shown_of) tt
    | inr aged ↦ elim (Bool-cases (may_coast r.1.config memory ts)) [
      | inr expired ↦ rw (aged, expired, shown_of) tt
      | inl coasts ↦
          let c = coast_memory_lem r.1.config memory ts fs coasts in
          rw (aged, coasts, shown_of)
            (
              stored-IsPicture s.0 ts i (elapsed_ms memory.last_seen_ts ts)
                  (coast_memory r.1.config memory ts fs) (ground (arith, a.each i))
                  (c.2 ∙ (v.keyed i memory e).own) (ap (λ t. elapsed_ms t ts) (sym c.1))
                  (ground (arith, c)) (ground (arith, c, a.same_config)),
              tt,
            )
    ]
  ]

  pub all_shown-pictures :
      (seen : List ℕ) (ts : ℕ) (fs : Option (List ℕ)) (r : List ℕ × Manager)
      (s : Manager × List LifecycleTrack) (entries : Dict ℕ TrackMemory)
      → Inv r.1
      → AreAged (seen ++ r.0) ts fs r.1 r.1.tracks s
      → All (λ x. lookup x.0 r.1.tracks ≡ some x.1) entries
      → All (IsPicture s.0 ts) (all_shown (seen ++ r.0) ts fs r.1.config entries)
  unfolding all_shown
  all_shown-pictures seen ts fs r s [] v a h = tt
  all_shown-pictures seen ts fs r s ((i, memory) ∷ rest) v a h =
      All-append (IsPicture s.0 ts) (shown_of (seen ++ r.0) ts fs r.1.config i memory) _
        (shown_of-IsPicture seen ts fs r s i memory v a h.0)
        (all_shown-pictures seen ts fs r s rest v a h.1)
