-- ===== src/Evidence/Sync/Pass.antt =====
-- What a pass reports, and what it writes to the ledger.
use vision.Common.{
  ℕ, Bool, true, false, not, none, ◌+◌, ◌≤◌, ◌≡◌, zero, suc, refl, ap, ap₂, ◌∙◌, String, Option,
  some, List, [], ◌∷◌, map, length, keep, take, arith, compare_nat, subst, sym, Ensures,
}
use vision.Evidence.Ledger.{
  evidence_upload_started, evidence_upload_failed, evidence_upload_available, HashInput,
  EvidenceLedgerAction, is_of,
}
use vision.Evidence.Ledger.Chain.{IsChain, append_entry-IsChain}
use vision.Evidence.Sync.{
  StoredEvidenceObject, LocalFirstPendingArtifact, LocalFirstSyncResult, LocalFirstSyncSummary,
  RemoteProfile, Put, stored, raised, Store, Payloads, Database, list_pending, pending_of,
  mark_upload_started, mark_upload_failed, mark_upload_available, promoted_result, failed_result,
}
use vision.Evidence.Sync.Upload.{
  request_of, append_ledger, begin_upload, end_upload, sync_artifact, sync_all, Counters, count,
  sync_pending_artifacts,
}

-- The result that the store's answer makes of an artifact.
abbrev pub outcome : LocalFirstPendingArtifact → Put → LocalFirstSyncResult
outcome artifact (raised err) = record {
  artifact_id = artifact.artifact_id;
  status = failed_result;
  error = some err;
}
outcome artifact (stored object) = record {
  artifact_id = artifact.artifact_id;
  status = promoted_result;
  error = none;
}

abbrev is_promoted : LocalFirstSyncResult → Bool
is_promoted result = elim result.status [ promoted_result ↦ true | failed_result ↦ false ]

abbrev pub number_promoted : List LocalFirstSyncResult → ℕ
number_promoted results = length (keep is_promoted results)

abbrev pub number_failed : List LocalFirstSyncResult → ℕ
number_failed results = length (keep (λ r. not (is_promoted r)) results)

numbers :
    (results : List LocalFirstSyncResult)
    → number_promoted results + number_failed results ≡ length results
unfolding keep
numbers [] = refl
numbers (r ∷ rs) = ground (arith, numbers rs)

length-take : {A : Type 0} (n : ℕ) (xs : List A) → length (take n xs) ≤ n
length-take zero xs = omega arith
length-take (suc n) [] = omega arith
length-take (suc n) (x ∷ xs) = omega (arith, length-take n xs)

length-map : {A B : Type 0} (f : A → B) (xs : List A) → length (map f xs) ≡ length xs
length-map f [] = refl
length-map f (x ∷ xs) = ap suc (length-map f xs)

module _ (digest : HashInput → String) (now : ℕ → ℕ) (texts : Payloads) where
  end_upload-outcome :
      (db : Database) (a : LocalFirstPendingArtifact) (profile : RemoteProfile) (at : ℕ) (put : Put)
      → (end_upload digest now texts db a profile at put).0 ≡ outcome a put
  unfolding end_upload
  end_upload-outcome db a profile at (raised err) = refl
  end_upload-outcome db a profile at (stored object) = refl

  sync_all-outcome :
      (store : Store) (profile : RemoteProfile) (c : Counters) (db : Database)
      (pending : List LocalFirstPendingArtifact)
      → (sync_all digest now texts store profile c db pending).0.0
        ≡ map (λ a. outcome a (store a)) pending
  unfolding sync_all sync_artifact
  sync_all-outcome store profile c db [] = refl
  sync_all-outcome store profile c db (a ∷ rest) =
      ap₂ ◌∷◌
        (end_upload-outcome (begin_upload digest now texts db a profile) a profile _ (store a))
        (sync_all-outcome store profile (count (store a) c)
          (sync_artifact digest now texts store profile db a).1 rest)

  count-outcome :
      (a : LocalFirstPendingArtifact) (put : Put) (c : Counters) (rs : List LocalFirstSyncResult)
      → ((count put c).promoted + number_promoted rs
          ≡ c.promoted + number_promoted (outcome a put ∷ rs))
        × ((count put c).failed + number_failed rs ≡ c.failed + number_failed (outcome a put ∷ rs))
  unfolding keep
  count-outcome a (raised err) c rs = (omega arith, omega arith)
  count-outcome a (stored object) c rs = (omega arith, omega arith)

  -- The counters of the loop, from where they stood before.
  sync_all-counters :
      (store : Store) (profile : RemoteProfile) (c : Counters) (db : Database)
      (pending : List LocalFirstPendingArtifact)
      → let final = (sync_all digest now texts store profile c db pending).0.1 in
        let results = map (λ a. outcome a (store a)) pending in
        (final.promoted ≡ c.promoted + number_promoted results)
        × (final.failed ≡ c.failed + number_failed results)
  unfolding sync_all keep
  sync_all-counters store profile c db [] = (omega arith, omega arith)
  sync_all-counters store profile c db (a ∷ rest) =
      let next = (sync_artifact digest now texts store profile db a).1 in
      let (more, less) = sync_all-counters store profile (count (store a) c) next rest in
      let (up, down) = count-outcome a (store a) c (map (λ x. outcome x (store x)) rest) in
      (more ∙ up, less ∙ down)

  -- The whole ledger is made of chains.
  abbrev pub IsLedger : Database → Type 0
  IsLedger db = (i : ℕ) → IsChain digest (keep (is_of i) db.ledger)

  append_ledger-IsLedger :
      (db : Database) (a : LocalFirstPendingArtifact) (action : EvidenceLedgerAction) (at : ℕ)
      (payload : String)
      → IsLedger db
      → IsLedger (append_ledger digest now texts db a action at payload)
  unfolding append_ledger
  append_ledger-IsLedger db a action at payload chains i =
      append_entry-IsChain digest db.ledger (request_of a action at payload) 0 chains i

  mark_available-ledger :
      (db : Database) (a : LocalFirstPendingArtifact) (object : StoredEvidenceObject) (at : ℕ)
      → (mark_upload_available db a object at).ledger ≡ db.ledger
  unfolding mark_upload_available
  mark_available-ledger db a object at = ground arith

  begin_upload-IsLedger :
      (db : Database) (a : LocalFirstPendingArtifact) (profile : RemoteProfile)
      → IsLedger db
      → IsLedger (begin_upload digest now texts db a profile)
  unfolding begin_upload mark_upload_started
  begin_upload-IsLedger db a profile chains =
      let begun : Database = record (mark_upload_started db a profile.profile_id (now db.ticks)) {
        ticks = db.ticks + 1;
      } in
      append_ledger-IsLedger begun a evidence_upload_started (now db.ticks)
        (texts.started a profile) chains

  end_upload-IsLedger :
      (db : Database) (a : LocalFirstPendingArtifact) (profile : RemoteProfile) (at : ℕ) (put : Put)
      → IsLedger db
      → IsLedger (end_upload digest now texts db a profile at put).1
  unfolding end_upload mark_upload_failed
  end_upload-IsLedger db a profile at (raised err) chains =
      append_ledger-IsLedger (mark_upload_failed db a err at) a evidence_upload_failed at
        (texts.failure a profile err) chains
  end_upload-IsLedger db a profile at (stored object) chains =
      let begun : Database = record db { ticks = db.ticks + 1 } in
      let moved = mark_upload_available begun a object (now db.ticks) in
      append_ledger-IsLedger moved a evidence_upload_available (now db.ticks)
        (texts.success a profile object)
        (λ i.
          subst (λ t. IsChain digest (keep (is_of i) t))
            (sym (mark_available-ledger begun a object (now db.ticks))) (chains i))

  sync_all-IsLedger :
      (store : Store) (profile : RemoteProfile) (c : Counters) (db : Database)
      (pending : List LocalFirstPendingArtifact)
      → IsLedger db
      → IsLedger (sync_all digest now texts store profile c db pending).1
  unfolding sync_all sync_artifact
  sync_all-IsLedger store profile c db [] chains = chains
  sync_all-IsLedger store profile c db (a ∷ rest) chains =
      sync_all-IsLedger store profile (count (store a) c)
        (sync_artifact digest now texts store profile db a).1 rest
        (end_upload-IsLedger (begin_upload digest now texts db a profile) a profile _ (store a)
          (begin_upload-IsLedger db a profile chains))

  -- What a pass reports: for each pending artifact, in order, the result that the store's answer makes
  -- of it, and how many of these results are promoted and failed; at most `limit` results.
  pub record IsReported (store : Store) (db : Database) (tenant_id limit : ℕ)
      (r : LocalFirstSyncSummary × Database) : Type 0 where
    pub answered : r.0.results ≡ map (λ a. outcome a (store a)) (list_pending db tenant_id limit)
    pub promoted : r.0.promoted ≡ number_promoted r.0.results
    pub failed : r.0.failed ≡ number_failed r.0.results
    pub processed : r.0.promoted + r.0.failed ≡ r.0.processed
    pub limited : r.0.processed ≤ limit
    pub ledger : IsLedger r.1

  -- Unless the factory refuses the profile, a pass returns. It has a result for each pending artifact,
  -- in order: promoted if the store takes the artifact, failed with the exception's text if it raises.
  -- Its counters are the numbers of the promoted and of the failed results; together they are the
  -- processed ones, at most the limit. The ledger's entries are chains afterwards if they were before.
  pub sync_pending_artifacts-IsReported :
      (factory : RemoteProfile → Option Store) (db : Database) (tenant_id : ℕ)
      (profile : RemoteProfile) (limit : ℕ) (store : Store)
      → factory profile ≡ some store
      → IsLedger db
      → Ensures
          (IsReported store db tenant_id limit)
          (sync_pending_artifacts digest now texts factory db tenant_id profile limit)
  unfolding sync_pending_artifacts list_pending
  sync_pending_artifacts-IsReported factory db tenant_id profile limit store given chains =
      let pending = list_pending db tenant_id limit in
      let c : Counters = record { promoted = 0; failed = 0 } in
      let answered = sync_all-outcome store profile c db pending in
      let (ups, downs) = sync_all-counters store profile c db pending in
      let expected = map (λ a. outcome a (store a)) pending in
      rw (given, sync_pending_artifacts)
        (record {
          answered = answered;
          promoted = rw answered (omega (arith, ups));
          failed = rw answered (omega (arith, downs));
          processed =
              omega (
                arith,
                ups,
                downs,
                numbers expected,
                length-map (λ a. outcome a (store a)) pending,
              );
          limited = omega (arith, length-map pending_of (take limit _), length-take limit _);
          ledger = sync_all-IsLedger store profile c db pending chains;
        })
