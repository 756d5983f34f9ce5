-- ===== src/Counting/Crossing.antt =====
-- How often a line crossing is counted.
use vision.Common.{
  ℕ, ◌+◌, ◌<◌, ◌≤◌, ◌≡◌, refl, sym, ◌∙◌, String, Bool, true, false, Option, none, some, List, [],
  ◌∷◌, lookup, insert, All, compare_nat, compare_string, compare_pair, lookup-insert, arith,
  Bool-cases, Option-cases, inl, inr, ltb, ◌==◌, same_refl, subst,
}
use vision.Common.Float.{Floats}
use vision.Detection.{Detection}
use vision.Counting.{
  Processor, LineBoundary, Point, SpatialSignature, HitKey, compare_hit, line_cross, is_recent,
  emit_unless_recent, has_crossed, side_of, counts_class, process_line, point_side,
  line_cross_direction, build_count_event, CountEventRecord,
}

abbrev pub is_nonempty {ℓ} : {A : Type ℓ} → List A → Bool
is_nonempty [] = false
is_nonempty (x ∷ xs) = true

module _ ⦃fl : Floats⦄ where
  -- What one call of `process_line` gets.
  pub record LineCall : Type 0 where
    pub ts : ℕ
    pub detection : Detection
    pub track_id : ℕ
    pub center : Point
    pub signature : SpatialSignature
    pub zone : Option String
    pub boundary : LineBoundary

  abbrev pub run_line : Processor → LineCall → List CountEventRecord × Processor
  run_line p c = process_line p c.ts c.detection c.track_id c.center c.signature c.zone c.boundary

  abbrev pub run_lines : Processor → List LineCall → Processor
  run_lines p [] = p
  run_lines p (c ∷ calls) = run_lines (run_line p c).1 calls

  -- The crossing of a call: the line, the class, the direction and the place.
  abbrev pub crossing_of : Processor → LineCall → HitKey
  crossing_of p c =
      let side = point_side c.center c.boundary.start c.boundary.stop in
      let previous = lookup (c.boundary.boundary_id, c.track_id) p.last_line_side in
      (
        (c.boundary.boundary_id, "line_cross"),
        (
          (c.detection.class_name, some (line_cross_direction (side_of previous) side)),
          c.signature,
        ),
      )

  -- The event of a call and the processor after the side is stored.
  abbrev event_of : Processor → LineCall → CountEventRecord
  event_of p c =
      let side = point_side c.center c.boundary.start c.boundary.stop in
      let previous = lookup (c.boundary.boundary_id, c.track_id) p.last_line_side in
      build_count_event c.ts c.detection line_cross c.boundary.boundary_id
        (some (line_cross_direction (side_of previous) side)) none none c.zone

  abbrev sided : Processor → LineCall → Processor
  sided p c =
      let track : String × ℕ = (c.boundary.boundary_id, c.track_id) in
      record p {
        last_line_side =
            insert track (point_side c.center c.boundary.start c.boundary.stop) p.last_line_side;
      }

  -- The crossing was stored at the time or later.
  record IsStored (key : HitKey) (ts dedupe : ℕ) (p : Processor) : Type 0 where
    pub at : ℕ
    pub found : lookup key p.recent_boundary_hits ≡ some at
    pub later : ts ≤ at
    pub same : p.dedupe ≡ dedupe

  emit-IsStored :
      (key : HitKey) (ts dedupe : ℕ) (p : Processor) (other : HitKey) (event : CountEventRecord)
      → ts ≤ event.ts
      → IsStored key ts dedupe p
      → IsStored key ts dedupe (emit_unless_recent p other event).1
  unfolding emit_unless_recent is_recent
  emit-IsStored key ts dedupe p other event later s =
      let stored : IsStored key ts dedupe
          (record p { recent_boundary_hits = insert other event.ts p.recent_boundary_hits }) =
        elim (Bool-cases (other == key)) [
          | inl e ↦ record {
            at = event.ts;
            found = lookup-insert other key event.ts p.recent_boundary_hits ∙ rw e refl;
            later = later;
            same = s.same;
          }
          | inr e ↦ record {
            at = s.at;
            found = lookup-insert other key event.ts p.recent_boundary_hits ∙ rw e s.found;
            later = s.later;
            same = s.same;
          }
        ] in
      elim (Option-cases (lookup other p.recent_boundary_hits)) [
        | inl e ↦ rw (e, emit_unless_recent, is_recent) stored
        | inr (previous, e) ↦ elim (Bool-cases (ltb event.ts (previous + p.dedupe))) [
          | inl b ↦ rw (e, b, emit_unless_recent, is_recent) s
          | inr b ↦ rw (e, b, emit_unless_recent, is_recent) stored
        ]
      ]

  line-IsStored :
      (key : HitKey) (ts dedupe : ℕ) (p : Processor) (c : LineCall)
      → ts ≤ c.ts
      → IsStored key ts dedupe p
      → IsStored key ts dedupe (run_line p c).1
  unfolding process_line build_count_event
  line-IsStored key ts dedupe p c later s =
      let side = point_side c.center c.boundary.start c.boundary.stop in
      let previous = lookup (c.boundary.boundary_id, c.track_id) p.last_line_side in
      let kept : IsStored key ts dedupe (sided p c) = record {
        at = s.at;
        found = s.found;
        later = s.later;
        same = s.same;
      } in
      elim (Bool-cases (counts_class c.boundary.class_names c.detection.class_name)) [
        | inr e ↦ rw (e, process_line) s
        | inl e ↦ elim (Bool-cases (has_crossed previous side)) [
          | inr f ↦ rw (e, f, process_line) kept
          | inl f ↦
              rw (e, f, process_line)
                (emit-IsStored key ts dedupe (sided p c) (crossing_of p c) (event_of p c) later
                  kept)
        ]
      ]

  lines-IsStored :
      (key : HitKey) (ts dedupe : ℕ) (p : Processor) (calls : List LineCall)
      → All (λ c. ts ≤ c.ts) calls
      → IsStored key ts dedupe p
      → IsStored key ts dedupe (run_lines p calls)
  lines-IsStored key ts dedupe p [] later s = s
  lines-IsStored key ts dedupe p (c ∷ calls) later s =
      lines-IsStored key ts dedupe (run_line p c).1 calls later.1
        (line-IsStored key ts dedupe p c later.0 s)

  -- An emission stores its hit, at its own time.
  emitted-IsStored :
      (p : Processor) (key : HitKey) (event : CountEventRecord)
      → is_nonempty (emit_unless_recent p key event).0 ≡ true
      → IsStored key event.ts p.dedupe (emit_unless_recent p key event).1
  unfolding emit_unless_recent is_recent
  emitted-IsStored p key event h =
      let stored : IsStored key event.ts p.dedupe
          (record p { recent_boundary_hits = insert key event.ts p.recent_boundary_hits }) =
        record {
          at = event.ts;
          found = lookup-insert key key event.ts p.recent_boundary_hits ∙ rw (same_refl key) refl;
          later = omega arith;
          same = refl;
        } in
      elim (Option-cases (lookup key p.recent_boundary_hits)) [
        | inl e ↦ rw (e, emit_unless_recent, is_recent) stored
        | inr (previous, e) ↦ elim (Bool-cases (ltb event.ts (previous + p.dedupe))) [
          | inl b ↦ ground (arith, e, b, h)
          | inr b ↦ rw (e, b, emit_unless_recent, is_recent) stored
        ]
      ]

  line-emitted :
      (p : Processor) (c : LineCall)
      → is_nonempty (run_line p c).0 ≡ true
      → IsStored (crossing_of p c) c.ts p.dedupe (run_line p c).1
  unfolding process_line build_count_event
  line-emitted p c h =
      let side = point_side c.center c.boundary.start c.boundary.stop in
      let previous = lookup (c.boundary.boundary_id, c.track_id) p.last_line_side in
      elim (Bool-cases (counts_class c.boundary.class_names c.detection.class_name)) [
        | inr e ↦ ground (arith, e, h)
        | inl e ↦ elim (Bool-cases (has_crossed previous side)) [
          | inr f ↦ ground (arith, e, f, h)
          | inl f ↦
              let emitted : is_nonempty
                    (emit_unless_recent (sided p c) (crossing_of p c) (event_of p c)).0
                  ≡ true =
                ground (arith, e, f, h) in
              rw (e, f, process_line)
                (emitted-IsStored (sided p c) (crossing_of p c) (event_of p c) emitted)
        ]
      ]

  -- What is stored and recent is not emitted.
  emit-held :
      (key : HitKey) (ts dedupe : ℕ) (p : Processor) (event : CountEventRecord)
      → IsStored key ts dedupe p
      → event.ts < ts + dedupe
      → (emit_unless_recent p key event).0 ≡ []
  unfolding emit_unless_recent is_recent
  emit-held key ts dedupe p event s soon =
      let recent : ltb event.ts (s.at + p.dedupe) ≡ true = ground (arith, s.later, s.same, soon) in
      rw (s.found, recent, emit_unless_recent, is_recent) refl

  line-held :
      (ts dedupe : ℕ) (p : Processor) (c : LineCall)
      → IsStored (crossing_of p c) ts dedupe p
      → c.ts < ts + dedupe
      → (run_line p c).0 ≡ []
  unfolding process_line build_count_event
  line-held ts dedupe p c s soon =
      let side = point_side c.center c.boundary.start c.boundary.stop in
      let previous = lookup (c.boundary.boundary_id, c.track_id) p.last_line_side in
      let kept : IsStored (crossing_of p c) ts dedupe (sided p c) = record {
        at = s.at;
        found = s.found;
        later = s.later;
        same = s.same;
      } in
      let held = emit-held (crossing_of p c) ts dedupe (sided p c) (event_of p c) kept soon in
      elim (Bool-cases (counts_class c.boundary.class_names c.detection.class_name)) [
        | inr e ↦ rw (e, process_line) refl
        | inl e ↦ elim (Bool-cases (has_crossed previous side)) [
          | inr f ↦ rw (e, f, process_line) refl
          | inl f ↦ rw (e, f, process_line) held
        ]
      ]

  -- A crossing that was counted is not counted again within the dedupe time: whatever calls at the same
  -- time or later come in between, of any lines and tracks, a call with the same crossing (the line, the
  -- class, the direction and the place) gives no event.
  pub process_line-repeated :
      (p : Processor) (first : LineCall) (between : List LineCall) (last : LineCall)
      → is_nonempty (run_line p first).0 ≡ true
      → All (λ c. first.ts ≤ c.ts) between
      → crossing_of (run_lines (run_line p first).1 between) last ≡ crossing_of p first
      → last.ts < first.ts + p.dedupe
      → (run_line (run_lines (run_line p first).1 between) last).0 ≡ []
  process_line-repeated p first between last counted later same soon =
      let key = crossing_of p first in
      let q = run_lines (run_line p first).1 between in
      let stored =
        lines-IsStored key first.ts p.dedupe (run_line p first).1 between later
          (line-emitted p first counted) in
      line-held first.ts p.dedupe q last
        (subst (λ k. IsStored k first.ts p.dedupe q) (sym same) stored) soon
