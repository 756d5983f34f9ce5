-- ===== src/Counting/Pruning.antt =====
-- What dropping old state changes.
use vision.Common.{
  ℕ, ◌≡◌, refl, Bool, false, Option, none, some, [], ◌∷◌, Dict, lookup, remove, keep, if◌then◌else◌,
  compare_nat, compare_string, lookup-remove, arith, IsDistinct,
}
use vision.Common.Float.{Floats}
use vision.Counting.{
  HitKey, compare_hit, Processor, is_recent, is_expired, forget_track, forget_tracks, remove_hits,
  prune_expired_state,
}

abbrev is_old : ℕ → ℕ → Option ℕ → Bool
is_old dedupe ts none = false
is_old dedupe ts (some previous) = is_expired dedupe ts previous

module _ ⦃fl : Floats⦄ where
  forget_tracks-same :
      (p : Processor) (tracks : Dict ℕ ℕ)
      → let q = forget_tracks p tracks in
        (q.recent_boundary_hits ≡ p.recent_boundary_hits) × (q.dedupe ≡ p.dedupe)
  unfolding forget_tracks forget_track
  forget_tracks-same p [] = (refl, refl)
  forget_tracks-same p ((i, last) ∷ rest) = forget_tracks-same (forget_track p i) rest

  remove_hits-lookup :
      (hits all_hits : Dict HitKey ℕ) (dedupe ts : ℕ) (key : HitKey)
      → IsDistinct hits
      → lookup key (remove_hits (keep (λ e. is_expired dedupe ts e.1) hits) all_hits)
        ≡ (if is_old dedupe ts (lookup key hits) then none else lookup key all_hits)
  unfolding remove_hits keep lookup
  remove_hits-lookup [] all_hits dedupe ts key d = refl
  remove_hits-lookup ((k, previous) ∷ hits) all_hits dedupe ts key d = ground (
    arith,
    compare_hit.same_iff k key,
    d.0,
    lookup-remove k key all_hits,
    remove_hits-lookup hits all_hits dedupe ts key d.1,
    remove_hits-lookup hits (remove k all_hits) dedupe ts key d.1,
  )

  -- Dropping the old hits changes no decision whether a hit at the time of the pruning is recent, if
  -- no hit stands twice in the dictionary.
  pub prune_expired_state-is_recent :
      (p : Processor) (key : HitKey) (ts : ℕ)
      → IsDistinct p.recent_boundary_hits
      → (is_recent (prune_expired_state p ts) key ts).0 ≡ (is_recent p key ts).0
  unfolding prune_expired_state is_recent
  prune_expired_state-is_recent p key ts d =
      let tracks = keep (λ e. is_expired p.stale_state_ttl ts e.1) p.track_last_seen in
      let same = forget_tracks-same p tracks in
      ground (
        arith,
        same.0,
        same.1,
        remove_hits-lookup p.recent_boundary_hits p.recent_boundary_hits p.dedupe ts key d,
      )
