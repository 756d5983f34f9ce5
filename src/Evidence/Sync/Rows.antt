-- ===== src/Evidence/Sync/Rows.antt =====
-- Which rows of the artifacts' table a pass changes, and what a later pass still finds pending.
use vision.Common.{
  ℕ, ◌+◌, ◌≡◌, refl, ap, ◌∙◌, sym, subst, String, Bool, true, false, not, List, [], ◌∷◌, map, keep,
  arith, ◌==◌, ◌&&◌, if◌then◌else◌, compare_nat, Bool-cases, inl, inr,
}
use vision.Evidence.Ledger.{HashInput}
use vision.Evidence.Sync.{
  EvidenceArtifact, LocalFirstPendingArtifact, StoredEvidenceObject, RemoteProfile, Put, stored,
  raised, Store, Payloads, Database, is_pending, is_upload_pending, moved_to, move_row, has_row,
  mark_upload_started, mark_upload_failed, mark_upload_available,
}
use vision.Evidence.Sync.Upload.{
  append_ledger, begin_upload, end_upload, sync_artifact, sync_all, Counters, count,
}

-- The row after the upload of one artifact.
abbrev settle : LocalFirstPendingArtifact → Put → EvidenceArtifact → EvidenceArtifact
settle a (raised err) row = row
settle a (stored object) row = if row.id == a.artifact_id then moved_to object row else row

-- The row after a pass over the pending artifacts.
unfoldable pub settled :
    Store → List LocalFirstPendingArtifact → EvidenceArtifact → EvidenceArtifact
settled store [] row = row
settled store (a ∷ rest) row = settled store rest (settle a (store a) row)

abbrev is_stored : Put → Bool
is_stored (raised err) = false
is_stored (stored object) = true

-- Whether an upload of the artifact succeeded.
unfoldable pub is_moved : Store → List LocalFirstPendingArtifact → ℕ → Bool
is_moved store [] id = false
is_moved store (a ∷ rest) id =
    if id == a.artifact_id && is_stored (store a) then true else is_moved store rest id

move_row-no_row :
    (id : ℕ) (object : StoredEvidenceObject) (rows : List EvidenceArtifact)
    → has_row id rows ≡ false
    → move_row id object rows ≡ rows
unfolding move_row has_row
move_row-no_row id object [] h = refl
move_row-no_row id object (row ∷ rows) h = ground (arith, move_row-no_row id object rows)

move_row-map :
    (a : LocalFirstPendingArtifact) (object : StoredEvidenceObject) (rows : List EvidenceArtifact)
    → move_row a.artifact_id object rows ≡ map (settle a (stored object)) rows
unfolding move_row
move_row-map a object [] = refl
move_row-map a object (row ∷ rows) =
    ap (λ t. settle a (stored object) row ∷ t) (move_row-map a object rows)

map-id : (rows : List EvidenceArtifact) → map (λ r. r) rows ≡ rows
map-id [] = refl
map-id (r ∷ rs) = ap (λ t. r ∷ t) (map-id rs)

map-map :
    (f g : EvidenceArtifact → EvidenceArtifact) (rows : List EvidenceArtifact)
    → map g (map f rows) ≡ map (λ r. g (f r)) rows
map-map f g [] = refl
map-map f g (r ∷ rs) = ap (λ t. g (f r) ∷ t) (map-map f g rs)

mark_available-artifacts :
    (db : Database) (a : LocalFirstPendingArtifact) (object : StoredEvidenceObject) (at : ℕ)
    → (mark_upload_available db a object at).artifacts ≡ map (settle a (stored object)) db.artifacts
unfolding mark_upload_available
mark_available-artifacts db a object at =
    ground
      (arith, move_row-map a object db.artifacts, move_row-no_row a.artifact_id object db.artifacts)

module _ (digest : HashInput → String) (now : ℕ → ℕ) (texts : Payloads) where
  end_upload-artifacts :
      (db : Database) (a : LocalFirstPendingArtifact) (profile : RemoteProfile) (at : ℕ) (put : Put)
      → (end_upload digest now texts db a profile at put).1.artifacts
        ≡ map (settle a put) db.artifacts
  unfolding end_upload append_ledger mark_upload_failed
  end_upload-artifacts db a profile at (raised err) = sym (map-id db.artifacts)
  end_upload-artifacts db a profile at (stored object) =
      mark_available-artifacts (record db { ticks = db.ticks + 1 }) a object (now db.ticks)

  sync_artifact-artifacts :
      (store : Store) (profile : RemoteProfile) (db : Database) (a : LocalFirstPendingArtifact)
      → (sync_artifact digest now texts store profile db a).1.artifacts
        ≡ map (settle a (store a)) db.artifacts
  unfolding sync_artifact begin_upload append_ledger mark_upload_started
  sync_artifact-artifacts store profile db a =
      end_upload-artifacts (begin_upload digest now texts db a profile) a profile (now db.ticks)
        (store a)

  sync_all-settled :
      (store : Store) (profile : RemoteProfile) (c : Counters) (db : Database)
      (pending : List LocalFirstPendingArtifact)
      → (sync_all digest now texts store profile c db pending).1.artifacts
        ≡ map (settled store pending) db.artifacts
  unfolding sync_all settled
  sync_all-settled store profile c db [] = sym (map-id db.artifacts)
  sync_all-settled store profile c db (a ∷ rest) =
      let next = (sync_artifact digest now texts store profile db a).1 in
      sync_all-settled store profile (count (store a) c) next rest
      ∙ ap (map (settled store rest)) (sync_artifact-artifacts store profile db a)
      ∙ map-map (settle a (store a)) (settled store rest) db.artifacts

settle-over :
    (a : LocalFirstPendingArtifact) (put : Put) (row : EvidenceArtifact)
    → is_upload_pending row.status ≡ false
    → is_upload_pending (settle a put row).status ≡ false
settle-over a (raised err) row h = h
settle-over a (stored object) row h = ground arith

-- A row whose upload is over stays so.
settled-over :
    (store : Store) (pending : List LocalFirstPendingArtifact) (row : EvidenceArtifact)
    → is_upload_pending row.status ≡ false
    → is_upload_pending (settled store pending row).status ≡ false
unfolding settled
settled-over store [] row h = h
settled-over store (a ∷ rest) row h =
    settled-over store rest (settle a (store a) row) (settle-over a (store a) row h)

settle-moved :
    (a : LocalFirstPendingArtifact) (put : Put) (row : EvidenceArtifact)
    → row.id == a.artifact_id && is_stored put ≡ true
    → is_upload_pending (settle a put row).status ≡ false
settle-moved a (raised err) row h = ground arith
settle-moved a (stored object) row h = ground arith

settle-left :
    (a : LocalFirstPendingArtifact) (put : Put) (row : EvidenceArtifact)
    → row.id == a.artifact_id && is_stored put ≡ false
    → settle a put row ≡ row
settle-left a (raised err) row h = refl
settle-left a (stored object) row h = ground arith

settled-moved :
    (store : Store) (pending : List LocalFirstPendingArtifact) (row : EvidenceArtifact)
    → is_moved store pending row.id ≡ true
    → is_upload_pending (settled store pending row).status ≡ false
unfolding settled is_moved
settled-moved store [] row h = cc
settled-moved store (a ∷ rest) row h =
    elim (Bool-cases (row.id == a.artifact_id && is_stored (store a))) [
      | inl e ↦ settled-over store rest (settle a (store a) row) (settle-moved a (store a) row e)
      | inr e ↦
          subst (λ r. is_upload_pending (settled store rest r).status ≡ false)
            (sym (settle-left a (store a) row e))
            (settled-moved store rest row (ground (arith, h, e)))
    ]

settled-left :
    (store : Store) (pending : List LocalFirstPendingArtifact) (row : EvidenceArtifact)
    → is_moved store pending row.id ≡ false
    → settled store pending row ≡ row
unfolding settled is_moved
settled-left store [] row h = refl
settled-left store (a ∷ rest) row h =
    elim (Bool-cases (row.id == a.artifact_id && is_stored (store a))) [
      | inl e ↦ ground (arith, h, e)
      | inr e ↦
          ap (settled store rest) (settle-left a (store a) row e)
          ∙ settled-left store rest row (ground (arith, h, e))
    ]

is_pending-over :
    (tenant_id : ℕ) (row : EvidenceArtifact)
    → is_upload_pending row.status ≡ false
    → is_pending tenant_id row ≡ false
is_pending-over tenant_id row h = ground (arith, h)

keep-settled :
    (store : Store) (pending : List LocalFirstPendingArtifact) (tenant_id : ℕ)
    (rows : List EvidenceArtifact)
    → keep (is_pending tenant_id) (map (settled store pending) rows)
      ≡ keep (λ row. is_pending tenant_id row && not (is_moved store pending row.id)) rows
unfolding keep
keep-settled store pending tenant_id [] = refl
keep-settled store pending tenant_id (row ∷ rows) =
    let rest = keep-settled store pending tenant_id rows in
    elim (Bool-cases (is_moved store pending row.id)) [
      | inl e ↦ ground (
        arith,
        e,
        rest,
        is_pending-over tenant_id (settled store pending row) (settled-moved store pending row e),
      )
      | inr e ↦ rw (settled-left store pending row e) (ground (arith, e, rest))
    ]

module _ (digest : HashInput → String) (now : ℕ → ℕ) (texts : Payloads) where
  -- What a pass leaves pending, for any tenant: the rows that were pending and of which no upload
  -- succeeded, unchanged and in the same order.
  pub sync_all-pending :
      (store : Store) (profile : RemoteProfile) (c : Counters) (db : Database)
      (pending : List LocalFirstPendingArtifact) (tenant_id : ℕ)
      → keep
          (is_pending tenant_id)
          (sync_all digest now texts store profile c db pending).1.artifacts
        ≡ keep (λ row. is_pending tenant_id row && not (is_moved store pending row.id)) db.artifacts
  sync_all-pending store profile c db pending tenant_id =
      ap (keep (is_pending tenant_id))
        (sync_all-settled digest now texts store profile c db pending)
      ∙ keep-settled store pending tenant_id db.artifacts
