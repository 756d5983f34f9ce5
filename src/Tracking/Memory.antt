-- ===== src/Tracking/Memory.antt =====
-- The records of backend/src/argus/vision/track_lifecycle.py. A time is the number of
-- microseconds since the epoch, the resolution of `datetime`. Source track ids are natural
-- numbers. The copies that `_copy_detection` and `_copy_lifecycle_track` make are the values.
use vision.Common.{
  ℕ, zero, suc, ◌+◌, ◌-◌, ◌*◌, ◌^◌, ◌/◌, ◌%◌, ◌≤◌, ◌≡◌, refl, sym, ap, ◌∙◌, Bool-cases, inl, inr,
  arith, String, Bool, true, false, Option, List, Dict, if◌then◌else◌, ltb, nat_beq, compare_nat,
}
use native.Mathlib.Nat.{pow-suc, mul_assoc, mul_comm}
use vision.Common.Float.{Floats, Float}
use vision.Detection.{BoundingBox, Detection}

pub data TrackState : Type 0 where
  tentative active coasting lost : TrackState

-- `state in {"active", "coasting"}`
abbrev pub is_published : TrackState → Bool
is_published active = true
is_published coasting = true
is_published tentative = false
is_published lost = false

-- `state in {"tentative", "active", "coasting"}`
abbrev pub is_candidate : TrackState → Bool
is_candidate lost = false
is_candidate tentative = true
is_candidate active = true
is_candidate coasting = true

abbrev pub is_active : TrackState → Bool
is_active active = true
is_active tentative = false
is_active coasting = false
is_active lost = false

module _ ⦃fl : Floats⦄ where
  pub record TrackLifecycleConfig : Type 0 where
    pub coast_ttl_ms : ℕ
    pub tentative_hits : ℕ
    pub instant_activation_confidence : Float
    pub duplicate_iou_threshold : Float
    pub duplicate_replacement_confidence_delta : Float
    pub source_match_center_distance_ratio : Float
    pub reassociate_iou_threshold : Float
    pub reassociate_center_distance_ratio : Float
    pub velocity_damping : Float

  -- The defaults of the dataclass.
  unfoldable pub default_config : TrackLifecycleConfig
  default_config = record {
    coast_ttl_ms = 2500;
    tentative_hits = 2;
    instant_activation_confidence = fl.decimal 75 2;
    duplicate_iou_threshold = fl.decimal 60 2;
    duplicate_replacement_confidence_delta = fl.decimal 25 2;
    source_match_center_distance_ratio = fl.decimal 150 2;
    reassociate_iou_threshold = fl.decimal 35 2;
    reassociate_center_distance_ratio = fl.decimal 45 2;
    velocity_damping = fl.decimal 70 2;
  }

  pub record LifecycleTrack : Type 0 where
    pub stable_track_id : ℕ
    pub source_track_id : Option ℕ
    pub state : TrackState
    pub last_seen_age_ms : ℕ
    pub detection : Detection

  pub record TrackMemory : Type 0 where
    pub stable_track_id : ℕ
    pub class_name : String
    pub source_track_id : Option ℕ
    pub state : TrackState
    pub detection : Detection
    pub first_seen_ts : ℕ
    pub last_seen_ts : ℕ
    pub updated_ts : ℕ
    pub hits : ℕ
    pub missing_updates : ℕ
    pub velocity : BoundingBox

  pub record Manager : Type 0 where
    pub config : TrackLifecycleConfig
    pub next_stable_track_id : ℕ
    pub tracks : Dict ℕ TrackMemory
    pub stable_id_by_source : Dict ℕ ℕ
    pub last_visible_tracks : List LifecycleTrack
    pub last_candidate_context_tracks : List LifecycleTrack

-- The quotient rounded to the nearest integer, a tie to the even one.
unfoldable pub round_half_even : ℕ → ℕ → ℕ
round_half_even n d =
    let whole : ℕ = n / d in
    let rest : ℕ = n % d in
    if ltb (2 * rest) d
    then whole
    else (if nat_beq (2 * rest) d then whole + whole % 2 else whole + 1)

-- The least exponent by which a double of the `n` microseconds in seconds has all its 53 bits before the
-- point, for at most `fuel` steps; 72 are enough, since 2 ^ 72 is more than 10 ^ 6 * 2 ^ 52.
unfoldable pub double_shift : ℕ → ℕ → ℕ
double_shift zero n = 0
double_shift (suc fuel) n =
    let rest = double_shift fuel (n * 2) in
    if ltb n (1000000 * 4503599627370496) then rest + 1 else 0

doubled : (n k : ℕ) → n * 2 * 2 ^ k ≡ n * 2 ^ suc k
doubled n k = mul_assoc n 2 (2 ^ k) ∙ ap (λ x. n * x) (mul_comm 2 (2 ^ k) ∙ sym (pow-suc 2 k))

-- With enough fuel the scaled number reaches the 53 bits.
double_shift-bound :
    (fuel n : ℕ)
    → 1000000 * 4503599627370496 ≤ n * 2 ^ fuel
    → 1000000 * 4503599627370496 ≤ n * 2 ^ double_shift fuel n
unfolding double_shift
double_shift-bound zero n enough = enough
double_shift-bound (suc fuel) n enough = elim (Bool-cases (ltb n (1000000 * 4503599627370496))) [
  | inl less ↦
      let rest : 1000000 * 4503599627370496 ≤ (n * 2) * 2 ^ double_shift fuel (n * 2) =
        double_shift-bound fuel (n * 2) (omega (arith, enough, doubled n fuel)) in
      let one_more : double_shift (suc fuel) n ≡ suc (double_shift fuel (n * 2)) =
        rw (less, double_shift) (omega arith) in
      rw one_more (omega (arith, rest, doubled n (double_shift fuel (n * 2))))
  | inr more ↦
      let none_more : double_shift (suc fuel) n ≡ 0 = rw (more, double_shift) refl in
      rw none_more (ground (arith, more))
]

-- `round(delta.total_seconds() * 1000)` for `n` microseconds, below 2 ^ 53 seconds: the quotient by 10 ^ 6
-- as a double, its product with 1000 as a double, of which 9 or 10 bits are rounded away, and the
-- nearest integer.
unfoldable pub round_seconds : ℕ → ℕ
unfolding double_shift round_half_even
round_seconds n =
    let shift = double_shift 72 n in
    let product = round_half_even (n * 2 ^ shift) 1000000 * 1000 in
    let lost = if ltb product (2 ^ 62) then 512 else 1024 in
    round_half_even (round_half_even product lost * lost) (2 ^ shift)

-- `max(0, round((end - start).total_seconds() * 1000))`
unfoldable pub elapsed_ms : ℕ → ℕ → ℕ
unfolding round_seconds
elapsed_ms start end = round_seconds (end - start)
