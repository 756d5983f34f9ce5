-- ===== src/Tracking/Matching.antt =====
-- Which track a detection is matched to.
use vision.Common.{
  All-imp, ◌⊎◌, inl, inr, Bool-cases, ℕ, ◌≡◌, refl, true, false, ◌&&◌, Option, none, some, List, [],
  ◌∷◌, Dict, lookup, contains, is_some, All, keys-member, compare_nat, arith, Bool-cases, inl, inr,
  IsDistinct, entries-lookup, subst,
}
use vision.Common.Float.{Floats, Float, IsOrdered}
use vision.Detection.{BoundingBox, Detection}
use vision.Tracking.Geometry.{clamp_bbox}
use vision.Tracking.Memory.{Manager, TrackMemory}
use vision.Tracking.Update.{
  score, source_match, best_match, is_eligible, find_spatial_reassociation, match_existing_track,
}

module _ ⦃fl : Floats⦄ where
  -- A matched id names a track, and one that no detection of this frame has hit.
  abbrev pub IsFree : Manager → List ℕ → Option ℕ → Type 0
  IsFree m seen none = Unit
  IsFree m seen (some stable_id) =
      (contains seen stable_id ≡ false) × (is_some (lookup stable_id m.tracks) ≡ true)

  source_match-IsFree :
      (m : Manager) (d : Detection) (box : BoundingBox) (seen : List ℕ)
      → IsFree m seen (source_match m d box seen)
  unfolding source_match
  source_match-IsFree m d box seen = ground arith

  best_match-IsFree :
      (m : Manager) (d : Detection) (box : BoundingBox) (seen : List ℕ)
      (entries : Dict ℕ TrackMemory) (best : Option ℕ) (top : Float)
      → All (λ x. is_some (lookup x.0 m.tracks) ≡ true) entries
      → IsFree m seen best
      → IsFree m seen (best_match m.config d box seen entries best top)
  unfolding best_match
  best_match-IsFree m d box seen [] best top h free = free
  best_match-IsFree m d box seen ((i, memory) ∷ rest) best top h free =
      best_match-IsFree m d box seen rest _ _ h.1 (ground arith)

  or_else-IsFree :
      (m : Manager) (seen : List ℕ) (first second : Option ℕ)
      → IsFree m seen first
      → IsFree m seen second
      → IsFree m seen (elim first [ some stable_id ↦ some stable_id | none ↦ second ])
  or_else-IsFree m seen none second h k = k
  or_else-IsFree m seen (some i) second h k = h

  pub match_existing_track-IsFree :
      (m : Manager) (d : Detection) (seen : List ℕ) (fs : Option (List ℕ))
      → IsFree m seen (match_existing_track m d seen fs)
  unfolding match_existing_track
  match_existing_track-IsFree m d seen fs =
      let box = clamp_bbox d.bbox fs in
      or_else-IsFree m seen (source_match m d box seen) (find_spatial_reassociation m d box seen)
        (source_match-IsFree m d box seen)
        (best_match-IsFree m d box seen m.tracks none fl.minus_infinity (keys-member m.tracks) tt)

-- The spatial search is a search for the best score.
module _ ⦃fl : Floats⦄ (laws : IsOrdered fl) (m : Manager) (d : Detection) (box : BoundingBox)
    (seen : List ℕ) where
  -- The tracks of `entries` that may be matched score at most `top`.
  abbrev IsTop : Float → Dict ℕ TrackMemory → Type 0
  IsTop top entries =
      All (λ x. is_eligible m.config d box seen x.0 x.1 ≡ true → fl.le (score x.1 box) top ≡ true)
        entries

  -- A track that may be matched, with its score.
  abbrev Holds : ℕ → Float → Type 0
  Holds stable_id top =
      (memory : TrackMemory) × (lookup stable_id m.tracks ≡ some memory)
      × (is_eligible m.config d box seen stable_id memory ≡ true)
      × (top ≡ score memory box)

  abbrev HoldsIfSome : Option ℕ → Float → Type 0
  HoldsIfSome none top = Unit
  HoldsIfSome (some stable_id) top = Holds stable_id top

  best_match_lem :
      (entries : Dict ℕ TrackMemory) (best : Option ℕ) (top : Float)
      → All (λ x. lookup x.0 m.tracks ≡ some x.1) entries
      → HoldsIfSome best top
      → (last : Float) × HoldsIfSome (best_match m.config d box seen entries best top) last
        × (fl.le top last ≡ true)
        × IsTop last entries
  unfolding best_match
  best_match_lem [] best top h held = (top, held, laws.le_refl top, tt)
  best_match_lem ((i, memory) ∷ rest) best top h held =
      elim (Bool-cases (is_eligible m.config d box seen i memory && fl.lt top (score memory box))) [
        | inl takes ↦ rw takes (
            let (last, final, up, tops) =
              best_match_lem rest (some i) (score memory box) h.1
                (memory, h.0, (ground arith), refl) in
            (
              last,
              final,
              laws.le_trans top (score memory box) last
                  (ground (
                    arith,
                    laws.lt_not_le top (score memory box),
                    laws.le_total (score memory box) top,
                  ))
                  up,
              ((λ _. up), tops),
            ))
        | inr leaves ↦ rw leaves (
            let (last, final, up, tops) = best_match_lem rest best top h.1 held in
            (
              last,
              final,
              up,
              (
                (λ ok.
                    laws.le_trans (score memory box) top last
                      (ground (arith, laws.lt_not_le top (score memory box))) up),
                tops,
              ),
            ))
      ]

  top-HoldsIfSome :
      (best : Option ℕ) (last : Float) (stable_id : ℕ)
      → best ≡ some stable_id
      → HoldsIfSome best last
      → Holds stable_id last
  top-HoldsIfSome none last stable_id e held = cc
  top-HoldsIfSome (some i) last stable_id e held =
      let same : i ≡ stable_id = cc in subst (λ j. Holds j last) same held

  -- A reassociation by space picks, among the tracks that may be matched, one that exists and whose
  -- score no other exceeds.
  pub find_spatial_reassociation-best :
      (stable_id : ℕ)
      → IsDistinct m.tracks
      → find_spatial_reassociation m d box seen ≡ some stable_id
      → (memory : TrackMemory) × (lookup stable_id m.tracks ≡ some memory)
        × (is_eligible m.config d box seen stable_id memory ≡ true)
        × All
            (λ x.
              (is_eligible m.config d box seen x.0 x.1 ≡ false)
              ⊎ (fl.le (score x.1 box) (score memory box) ≡ true))
            m.tracks
  unfolding find_spatial_reassociation
  find_spatial_reassociation-best stable_id distinct found =
      let (last, final, up, tops) =
        best_match_lem m.tracks none fl.minus_infinity (entries-lookup m.tracks distinct) tt in
      let (memory, held, ok, same) = top-HoldsIfSome _ last stable_id found final in
      (
        memory,
        held,
        ok,
        All-imp _ _ m.tracks (λ x below. ground arith) (subst (λ t. IsTop t m.tracks) same tops),
      )
