-- ===== src/Counting/Zones.antt =====
-- Which zone events a change of zone gives.
use vision.Common.{
  ℕ, ◌+◌, ◌≡◌, refl, ap, ap₂, ◌∙◌, String, Bool, true, false, Option, List, ◌∷◌, ◌++◌, map, leb,
  ◌==◌, if◌then◌else◌, compare_option, Option-cases, compare_pair, none, some, [], lookup, insert,
  str_eq, compare_nat, compare_string, lookup-insert, sym, ltb, append-nil, nat_beq_iff, arith, ◌⊎◌,
  inl, inr, Bool-cases, All, All-append, eq_iff,
}
use vision.Common.Float.{Floats}
use vision.Detection.{Detection}
use vision.Counting.{
  Processor, CountEventRecord, CountEventType, SpatialSignature, value_of, zone_hit, HitKey,
  compare_hit, zone_enter, zone_exit, is_recent, emit_unless_recent, enter, leave, change_zone,
  zone_before, process_zones, build_count_event,
}

module _ ⦃fl : Floats⦄ where
  -- The exit of the zone before or the entry of the zone now, at the time given, by the detection.
  abbrev pub IsChange : ℕ → Detection → Option String → Option String → CountEventRecord → Type 0
  IsChange ts d before now e =
      (e.ts ≡ ts)
      × (e.track_id ≡ d.track_id)
      × ((e.event_type ≡ zone_exit) × (before ≡ some e.boundary_id) × (e.from_zone_id ≡ before)
          ⊎ (e.event_type ≡ zone_enter) × (now ≡ some e.boundary_id) × (e.to_zone_id ≡ now))

  -- What an emission leaves: the zones of the tracks, and at most the one event.
  emit-kept :
      (p : Processor) (key : HitKey) (event : CountEventRecord)
      → (emit_unless_recent p key event).1.last_zone_by_track ≡ p.last_zone_by_track
  unfolding emit_unless_recent is_recent
  emit-kept p key event = ground arith

  emit-All :
      (P : CountEventRecord → Type 0) (p : Processor) (key : HitKey) (event : CountEventRecord)
      → P event
      → All P (emit_unless_recent p key event).0
  unfolding emit_unless_recent
  emit-All P p key event h = elim (Bool-cases (is_recent p key event.ts).0) [
    | inl e ↦ rw (e, emit_unless_recent) tt
    | inr e ↦ rw (e, emit_unless_recent) (h, tt)
  ]

  enter-IsChange :
      (p : Processor) (ts : ℕ) (d : Detection) (signature : SpatialSignature)
      (before : Option String) (now : String)
      → let (events, p') = enter p ts d signature now in
        All (IsChange ts d before (some now)) events
        × (p'.last_zone_by_track ≡ p.last_zone_by_track)
  unfolding enter build_count_event
  enter-IsChange p ts d signature before now =
      let event = build_count_event ts d zone_enter now none none (some now) (some now) in
      (
        emit-All (IsChange ts d before (some now)) p _ event (refl, refl, inr (refl, refl, refl)),
        emit-kept p _ event,
      )

  leave-IsChange :
      (p : Processor) (ts : ℕ) (d : Detection) (signature : SpatialSignature) (before : String)
      (payload_zone now : Option String)
      → let (events, p') = leave p ts d signature before payload_zone in
        All (IsChange ts d (some before) now) events
        × (p'.last_zone_by_track ≡ p.last_zone_by_track)
  unfolding leave build_count_event
  leave-IsChange p ts d signature before payload now =
      let event = build_count_event ts d zone_exit before none (some before) none payload in
      (
        emit-All (IsChange ts d (some before) now) p _ event (refl, refl, inl (refl, refl, refl)),
        emit-kept p _ event,
      )

  change_zone-IsChange :
      (p : Processor) (ts : ℕ) (d : Detection) (signature : SpatialSignature)
      (before now : Option String)
      → let (events, p') = change_zone p ts d signature before now in
        All (IsChange ts d before now) events × (p'.last_zone_by_track ≡ p.last_zone_by_track)
  unfolding change_zone
  change_zone-IsChange p ts d signature none none = (tt, refl)
  change_zone-IsChange p ts d signature none (some now) = enter-IsChange p ts d signature none now
  change_zone-IsChange p ts d signature (some before) none =
      leave-IsChange p ts d signature before none none
  change_zone-IsChange p ts d signature (some before) (some now) =
      elim (Bool-cases (str_eq before now)) [
        | inl e ↦ rw (e, change_zone) (tt, refl)
        | inr e ↦
            let left = leave p ts d signature before (some before) in
            let leaving = leave-IsChange p ts d signature before (some before) (some now) in
            let entering = enter-IsChange left.1 ts d signature (some before) now in
            rw (e, change_zone) (All-append _ left.0 _ leaving.0 entering.0, entering.1 ∙ leaving.1)
      ]

  map-append_lem :
      {A B : Type 0} (f : A → B) (xs ys : List A) → map f (xs ++ ys) ≡ map f xs ++ map f ys
  map-append_lem f [] ys = refl
  map-append_lem f (x ∷ xs) ys = ap (◌∷◌ (f x)) (map-append_lem f xs ys)

  -- The zone event's hit: its kind at the zone, by an object of the class at the place.
  abbrev hit_of : CountEventType → Detection → String → SpatialSignature → HitKey
  hit_of kind d zone signature = ((zone, value_of kind), ((d.class_name, some zone), signature))

  -- No hit of the key was stored less than the dedupe time ago.
  abbrev is_fresh : Processor → HitKey → ℕ → Bool
  is_fresh p key ts = elim (lookup key p.recent_boundary_hits) [
    | none ↦ true
    | some previous ↦ leb (previous + p.dedupe) ts
  ]

  -- The event of the kind at the zone, if there is a zone and the hit is fresh.
  abbrev event_at :
      Processor
      → ℕ
      → Detection
      → SpatialSignature
      → CountEventType
      → Option String
      → List (CountEventType × String)
  event_at p ts d signature kind none = []
  event_at p ts d signature kind (some zone) =
      if is_fresh p (hit_of kind d zone signature) ts then (kind, zone) ∷ [] else []

  abbrev pub kind_of : CountEventRecord → CountEventType × String
  kind_of e = (e.event_type, e.boundary_id)

  emit-is_fresh :
      (p : Processor) (key : HitKey) (event : CountEventRecord)
      → map kind_of (emit_unless_recent p key event).0
        ≡ (if is_fresh p key event.ts then kind_of event ∷ [] else [])
  unfolding emit_unless_recent is_recent
  emit-is_fresh p key event = elim (Option-cases (lookup key p.recent_boundary_hits)) [
    | inl e ↦ ground (arith, e)
    | inr (previous, e) ↦ ground (arith, e)
  ]

  emit-lookup :
      (p : Processor) (key other : HitKey) (event : CountEventRecord)
      → (key == other) ≡ false
      → let p' = (emit_unless_recent p key event).1 in
        (lookup other p'.recent_boundary_hits ≡ lookup other p.recent_boundary_hits)
        × (p'.dedupe ≡ p.dedupe)
  unfolding emit_unless_recent is_recent
  emit-lookup p key other event apart =
      let stored = lookup-insert key other event.ts p.recent_boundary_hits in
      elim (Option-cases (lookup key p.recent_boundary_hits)) [
        | inl e ↦ rw (e, emit_unless_recent, is_recent) (stored ∙ rw apart refl, refl)
        | inr (previous, e) ↦ elim (Bool-cases (ltb event.ts (previous + p.dedupe))) [
          | inl b ↦ rw (e, b, emit_unless_recent, is_recent) (refl, refl)
          | inr b ↦ rw (e, b, emit_unless_recent, is_recent) (stored ∙ rw apart refl, refl)
        ]
      ]

  -- The hit of an exit is not that of an entry.
  exit-enter :
      (d : Detection) (signature : SpatialSignature) (before now : String)
      → (hit_of zone_exit d before signature == hit_of zone_enter d now signature) ≡ false
  exit-enter d signature before now = ground arith

  leave-is_fresh :
      (p : Processor) (ts : ℕ) (d : Detection) (signature : SpatialSignature) (zone now : String)
      (payload_zone : Option String)
      → is_fresh (leave p ts d signature zone payload_zone).1 (hit_of zone_enter d now signature) ts
        ≡ is_fresh p (hit_of zone_enter d now signature) ts
  unfolding leave zone_hit build_count_event
  leave-is_fresh p ts d signature zone now payload =
      let event = build_count_event ts d zone_exit zone none (some zone) none payload in
      let kept =
        emit-lookup p (hit_of zone_exit d zone signature) (hit_of zone_enter d now signature) event
          (exit-enter d signature zone now) in
      ap₂ (λ last dedupe. elim last [ none ↦ true | some previous ↦ leb (previous + dedupe) ts ])
        kept.0 kept.1

  enter-event_at :
      (p : Processor) (ts : ℕ) (d : Detection) (signature : SpatialSignature) (now : String)
      → map kind_of (enter p ts d signature now).0 ≡ event_at p ts d signature zone_enter (some now)
  unfolding enter zone_hit build_count_event
  enter-event_at p ts d signature now =
      emit-is_fresh p (hit_of zone_enter d now signature)
        (build_count_event ts d zone_enter now none none (some now) (some now))

  leave-event_at :
      (p : Processor) (ts : ℕ) (d : Detection) (signature : SpatialSignature) (before : String)
      (payload_zone : Option String)
      → map kind_of (leave p ts d signature before payload_zone).0
        ≡ event_at p ts d signature zone_exit (some before)
  unfolding leave zone_hit build_count_event
  leave-event_at p ts d signature before payload =
      emit-is_fresh p (hit_of zone_exit d before signature)
        (build_count_event ts d zone_exit before none (some before) none payload)

  change_zone-event_at :
      (p : Processor) (ts : ℕ) (d : Detection) (signature : SpatialSignature)
      (before now : Option String)
      → map kind_of (change_zone p ts d signature before now).0 ≡ (
          if before == now
          then []
          else event_at p ts d signature zone_exit before
            ++ event_at p ts d signature zone_enter now)
  unfolding change_zone
  change_zone-event_at p ts d signature none none = refl
  change_zone-event_at p ts d signature none (some now) = enter-event_at p ts d signature now
  change_zone-event_at p ts d signature (some before) none =
      leave-event_at p ts d signature before none
      ∙ sym (append-nil (event_at p ts d signature zone_exit (some before)))
  change_zone-event_at p ts d signature (some before) (some now) =
      elim (Bool-cases (str_eq before now)) [
        | inl e ↦ rw (e, change_zone) refl
        | inr e ↦
            let left = leave p ts d signature before (some before) in
            rw (e, change_zone)
              (map-append_lem kind_of left.0 (enter left.1 ts d signature now).0
                ∙ ap₂ ◌++◌ (leave-event_at p ts d signature before (some before)) (
                    enter-event_at left.1 ts d signature now
                    ∙ ap (λ b. if b then (zone_enter, now) ∷ [] else [])
                        (leave-is_fresh p ts d signature before now (some before))))
      ]

  -- The zone events are exactly these: none if the track's zone is the one before; else the exit of
  -- the zone before, if there was one, and then the entry of the zone now, if there is one, each
  -- unless the same hit was stored less than the dedupe time ago. Each event is at the time given, of
  -- the detection's track. The zone now is remembered, whether the events were suppressed or not.
  pub process_zones-IsChange :
      (p : Processor) (ts : ℕ) (d : Detection) (track_id : ℕ) (zone : Option String)
      (signature : SpatialSignature)
      → let (events, p') = process_zones p ts d track_id zone signature in
        let before = zone_before (lookup track_id p.last_zone_by_track) in
        (map kind_of events ≡ (
          if before == zone
          then []
          else event_at p ts d signature zone_exit before
            ++ event_at p ts d signature zone_enter zone))
        × All (IsChange ts d before zone) events
        × (lookup track_id p'.last_zone_by_track ≡ some zone)
  unfolding process_zones
  process_zones-IsChange p ts d i z signature =
      let begun = record p { last_zone_by_track = insert i z p.last_zone_by_track } in
      let before = zone_before (lookup i p.last_zone_by_track) in
      let c = change_zone-IsChange begun ts d signature before z in
      (
        change_zone-event_at begun ts d signature before z,
        c.0,
        ground (arith, c.1, lookup-insert i i z p.last_zone_by_track, nat_beq_iff i i),
      )

  -- A track that stays in its zone, or outside of all, gives no zone event and leaves the recent
  -- hits alone.
  pub process_zones-same :
      (p : Processor) (ts : ℕ) (d : Detection) (track_id : ℕ) (signature : SpatialSignature)
      → let zone = zone_before (lookup track_id p.last_zone_by_track) in
        process_zones p ts d track_id zone signature
        ≡ ([], record p { last_zone_by_track = insert track_id zone p.last_zone_by_track })
  unfolding process_zones change_zone
  process_zones-same p ts d i signature = stays (zone_before (lookup i p.last_zone_by_track)) _
    where
      stays : (z : Option String) (q : Processor) → change_zone q ts d signature z z ≡ ([], q)
      stays none q = refl
      stays (some z) q = ground (arith, eq_iff z z)
