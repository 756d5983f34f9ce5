-- ===== src/Evidence/Ledger/Chain.antt =====
-- The entries of an incident form a chain.
use vision.Common.{
  ℕ, ◌+◌, ◌<◌, ◌≤◌, ◌≡◌, refl, sym, ap, ◌∙◌, subst, String, List, [], ◌∷◌, ◌++◌, length, keep,
  sorted, insort, All, if◌then◌else◌, All-snoc, ◌==◌, compare_nat, nat_beq_iff, arith, Bool-cases,
  inl, inr,
}
use vision.Evidence.Ledger.{
  HashInput, EvidenceLedgerEntry, AppendRequest, Table, is_of, is_later, is_earlier, first_of,
  load_latest_entry, list_for_incident, next_sequence, hash_of, input_for, entry_after,
  append_entry,
}

-- The fields of an entry that its hash covers.
unfoldable pub input_of : EvidenceLedgerEntry → HashInput
input_of e = record {
  incident_id = e.incident_id;
  sequence = e.sequence;
  action = e.action;
  occurred_at = e.occurred_at;
  actor_type = e.actor_type;
  actor_subject = e.actor_subject;
  payload = e.payload;
  previous_entry_hash = e.previous_entry_hash;
}

module _ (digest : HashInput → String) where
  -- The newest first: each entry has the next number, the hash of the entry before it, and the hash of
  -- its own fields.
  abbrev pub IsChain : List EvidenceLedgerEntry → Type 0
  IsChain [] = Unit
  IsChain (e ∷ es) =
      (e.sequence ≡ length es + 1)
      × (e.previous_entry_hash ≡ hash_of (first_of es))
      × (e.entry_hash ≡ digest (input_of e))
      × IsChain es

  -- All of a chain's numbers are at most its length.
  chain-bound :
      (es : List EvidenceLedgerEntry) (n : ℕ)
      → IsChain es
      → length es ≤ n
      → All (λ e. e.sequence ≤ n) es
  chain-bound [] n c h = tt
  chain-bound (e ∷ es) n c h = (omega (arith, c.0), chain-bound es n c.3 (omega arith))

  sorted-later : (es : List EvidenceLedgerEntry) → IsChain es → sorted is_later es ≡ es
  unfolding sorted insort
  sorted-later [] c = refl
  sorted-later (e ∷ []) c = refl
  sorted-later (e ∷ f ∷ es) c = rw (sorted-later (f ∷ es) c.3) (ground (arith, c.0, c.3.0))

  abbrev pub oldest_first : List EvidenceLedgerEntry → List EvidenceLedgerEntry
  oldest_first [] = []
  oldest_first (e ∷ es) = oldest_first es ++ e ∷ []

  insort_last :
      (e : EvidenceLedgerEntry) (es : List EvidenceLedgerEntry) (n : ℕ)
      → All (λ f. f.sequence ≤ n) es
      → n < e.sequence
      → insort is_earlier e es ≡ es ++ e ∷ []
  unfolding insort
  insort_last e [] n h above = refl
  insort_last e (f ∷ es) n h above = ground (arith, insort_last e es n h.1 above)

  pub sorted-earlier :
      (es : List EvidenceLedgerEntry) → IsChain es → sorted is_earlier es ≡ oldest_first es
  unfolding sorted
  sorted-earlier [] c = refl
  sorted-earlier (e ∷ es) c = rw (sorted-earlier es c.3) (
      insort_last e (oldest_first es) (length es)
        (oldest-All (λ f. f.sequence ≤ length es) es (chain-bound es (length es) c.3 (omega arith)))
        (omega (arith, c.0)))
    where
      oldest-All :
          (P : EvidenceLedgerEntry → Type 0) (fs : List EvidenceLedgerEntry)
          → All P fs
          → All P (oldest_first fs)
      oldest-All P [] h = tt
      oldest-All P (f ∷ fs) h = All-snoc P (oldest_first fs) f (oldest-All P fs h.1) h.0

  pub load_latest_entry_lem :
      (table : Table) (incident_id : ℕ)
      → IsChain (keep (is_of incident_id) table)
      → load_latest_entry table incident_id ≡ first_of (keep (is_of incident_id) table)
  unfolding load_latest_entry
  load_latest_entry_lem table i c = ap first_of (sorted-later (keep (is_of i) table) c)

  next_sequence_lem :
      (es : List EvidenceLedgerEntry) → IsChain es → next_sequence (first_of es) ≡ length es + 1
  next_sequence_lem [] c = refl
  next_sequence_lem (e ∷ es) c = omega (arith, c.0)

  keep-append :
      (table : Table) (request : AppendRequest) (now i : ℕ)
      → let (entry, table') = append_entry digest table request now in
        keep (is_of i) table'
        ≡ (if request.incident_id == i then entry ∷ keep (is_of i) table else keep (is_of i) table)
  unfolding append_entry entry_after keep
  keep-append table request now i = refl

  entry-IsChain :
      (request : AppendRequest) (now : ℕ) (es : List EvidenceLedgerEntry)
      → IsChain es
      → IsChain (entry_after digest request now (first_of es) ∷ es)
  unfolding entry_after input_for input_of
  entry-IsChain request now es c = (next_sequence_lem es c, refl, refl, c)

  -- Whatever is appended, the entries of every incident stay a chain: numbered from one without a gap,
  -- each with the hash of the entry before it and of its own fields.
  pub append_entry-IsChain :
      (table : Table) (request : AppendRequest) (now : ℕ)
      → ((i : ℕ) → IsChain (keep (is_of i) table))
      → (i : ℕ) → IsChain (keep (is_of i) (append_entry digest table request now).1)
  unfolding append_entry
  append_entry-IsChain table request now chains i =
      let own = request.incident_id in
      let r = append_entry digest table request now in
      let grown : IsChain (r.0 ∷ keep (is_of own) table) =
        subst (λ o. IsChain (entry_after digest request now o ∷ keep (is_of own) table))
          (sym (load_latest_entry_lem table own (chains own)))
          (entry-IsChain request now (keep (is_of own) table) (chains own)) in
      elim (Bool-cases (own == i)) [
        | inl e ↦
            let same : own ≡ i = ground (arith, nat_beq_iff own i) in
            subst IsChain
              (sym (
                keep-append table request now i
                ∙ ap (λ b. if b then r.0 ∷ keep (is_of i) table else keep (is_of i) table) e))
              (subst (λ j. IsChain (r.0 ∷ keep (is_of j) table)) same grown)
        | inr e ↦
            subst IsChain
              (sym (
                keep-append table request now i
                ∙ ap (λ b. if b then r.0 ∷ keep (is_of i) table else keep (is_of i) table) e))
              (chains i)
      ]

  -- The listing of every incident behaves as a log of its own: an append puts the new entry at the
  -- end of its incident's listing and leaves the others alone, if every incident's entries form a
  -- chain.
  pub append_entry-list_for_incident :
      (table : Table) (request : AppendRequest) (now i : ℕ)
      → ((j : ℕ) → IsChain (keep (is_of j) table))
      → let (entry, table') = append_entry digest table request now in
        list_for_incident table' i ≡ (
          if request.incident_id == i
          then list_for_incident table i ++ entry ∷ []
          else list_for_incident table i)
  unfolding list_for_incident
  append_entry-list_for_incident table request now i chains =
      let r = append_entry digest table request now in
      let after = append_entry-IsChain table request now chains i in
      ground (
        arith,
        keep-append table request now i,
        sorted-earlier (keep (is_of i) r.1) after,
        sorted-earlier (keep (is_of i) table) (chains i),
      )
