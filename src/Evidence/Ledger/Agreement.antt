-- ===== src/Evidence/Ledger/Agreement.antt =====
-- What the newest hash of an incident says of its listing.
use vision.Common.{
  ℕ, ◌≡◌, refl, sym, ap, ap₂, ◌∙◌, String, List, [], ◌∷◌, ◌++◌, map, keep, All, All-imp, arith,
}
use vision.Evidence.Ledger.{
  HashInput, EvidenceLedgerEntry, AppendRequest, Table, is_of, first_of, load_latest_entry,
  list_for_incident, hash_of, append_entry,
}
use vision.Evidence.Ledger.Chain.{
  input_of, IsChain, oldest_first, sorted-earlier, load_latest_entry_lem, append_entry-IsChain,
}

map-append_last :
    {A B : Type 0} (f : A → B) (xs : List A) (x : A) → map f (xs ++ x ∷ []) ≡ map f xs ++ f x ∷ []
map-append_last f [] x = refl
map-append_last f (y ∷ xs) x = ap (◌∷◌ (f y)) (map-append_last f xs x)

module _ (digest : HashInput → String) where
  -- The requests with the times of the calls, the first one first.
  unfoldable pub append_all : Table → List (AppendRequest × ℕ) → Table
  append_all table [] = table
  append_all table ((request, now) ∷ calls) =
      append_all (append_entry digest table request now).1 calls

  append_all-IsChain :
      (table : Table) (calls : List (AppendRequest × ℕ))
      → ((i : ℕ) → IsChain digest (keep (is_of i) table))
      → (i : ℕ) → IsChain digest (keep (is_of i) (append_all table calls))
  unfolding append_all
  append_all-IsChain table [] chains i = chains i
  append_all-IsChain table ((request, now) ∷ calls) chains i =
      append_all-IsChain (append_entry digest table request now).1 calls
        (append_entry-IsChain digest table request now chains) i

  -- If the digest does not collide on the hashed fields of two chains, and the newest entries have the
  -- same hash, then the chains agree in all hashed fields of all their entries.
  chain-input_of :
      (es fs : List EvidenceLedgerEntry)
      → All
          (λ e. All (λ f. digest (input_of e) ≡ digest (input_of f) → input_of e ≡ input_of f) fs)
          es
      → IsChain digest es
      → IsChain digest fs
      → hash_of (first_of es) ≡ hash_of (first_of fs)
      → map input_of es ≡ map input_of fs
  chain-input_of [] [] free c d h = refl
  chain-input_of [] (f ∷ fs) free c d h = cc
  chain-input_of (e ∷ es) [] free c d h = cc
  chain-input_of (e ∷ es) (f ∷ fs) free c d h =
      let hashes : digest (input_of e) ≡ digest (input_of f) = sym c.2 ∙ ground (arith, h) ∙ d.2 in
      let same = free.0.0 hashes in
      ap₂ ◌∷◌ same (
        chain-input_of es fs
          (All-imp
            (λ x.
              All (λ y. digest (input_of x) ≡ digest (input_of y) → input_of x ≡ input_of y)
                (f ∷ fs))
            (λ x. All (λ y. digest (input_of x) ≡ digest (input_of y) → input_of x ≡ input_of y) fs)
            es (λ x hx. hx.1) free.1)
          c.3 d.3 (sym c.1 ∙ unfold input_of in ap (λ x. x.previous_entry_hash) same ∙ d.1))

  oldest-input_of :
      (es fs : List EvidenceLedgerEntry)
      → map input_of es ≡ map input_of fs
      → map input_of (oldest_first digest es) ≡ map input_of (oldest_first digest fs)
  oldest-input_of [] [] h = refl
  oldest-input_of [] (f ∷ fs) h = cc
  oldest-input_of (e ∷ es) [] h = cc
  oldest-input_of (e ∷ es) (f ∷ fs) h =
      let heads : input_of e ≡ input_of f = cc in
      let tails : map input_of es ≡ map input_of fs = cc in
      map-append_last input_of (oldest_first digest es) e
      ∙ ap₂ (λ xs x. xs ++ x ∷ []) (oldest-input_of es fs tails) heads
      ∙ sym (map-append_last input_of (oldest_first digest fs) f)

  -- Two ledgers, each made by any appends for any incidents, whose newest entries of an incident have the
  -- same hash, list the same entries of the incident, in all hashed fields, if the digest does not
  -- collide on these fields of the two ledgers' entries of the incident.
  pub append_all-list_for_incident :
      (calls others : List (AppendRequest × ℕ)) (i : ℕ)
      → All
          (λ e.
            All
              (λ f. digest (input_of e) ≡ digest (input_of f) → input_of e ≡ input_of f)
              (keep (is_of i) (append_all [] others)))
          (keep (is_of i) (append_all [] calls))
      → hash_of (load_latest_entry (append_all [] calls) i)
        ≡ hash_of (load_latest_entry (append_all [] others) i)
      → map input_of (list_for_incident (append_all [] calls) i)
        ≡ map input_of (list_for_incident (append_all [] others) i)
  unfolding list_for_incident keep
  append_all-list_for_incident calls others i free same =
      let left = append_all [] calls in
      let right = append_all [] others in
      let chain = append_all-IsChain [] calls (λ j. tt) i in
      let chain' = append_all-IsChain [] others (λ j. tt) i in
      let es = keep (is_of i) left in
      let fs = keep (is_of i) right in
      let newest =
        ap hash_of (sym (load_latest_entry_lem digest left i chain))
        ∙ same
        ∙ ap hash_of (load_latest_entry_lem digest right i chain') in
      ap (map input_of) (sorted-earlier digest es chain)
      ∙ oldest-input_of es fs (chain-input_of es fs free chain chain' newest)
      ∙ ap (map input_of) (sym (sorted-earlier digest fs chain'))
