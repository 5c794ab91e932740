-- ===== src/Proposals/Intent.antt =====
-- From a candidate of a discovery to the durable record of its proposal, in app/source_governance.py.
use brunova_knowledge_gatewa.Prelude.{
  ℕ, String, ◌==◌, ◌≡◌, refl, sym, ap, ◌∙◌, true, false, not, List, [], ◌∷◌, ◌++◌, Option, none,
  some, elem, keep, find, arith, eq_iff, eq_refl, Bool-cases, inl, inr, subst,
}
use brunova_knowledge_gatewa.Prelude.Text.{strip}
use brunova_knowledge_gatewa.Errors.{ok, require, >>=-eq-ok, ok-injective, source_proposal_invalid}
use brunova_knowledge_gatewa.Registry.{Classification}
use brunova_knowledge_gatewa.Proposals.{
  CandidateSource, SourceProposal, SourceProposalRecord, is_identifier, from_keys, is_valid_record,
  record_of, candidate_identifier, from_proposal, candidate_from_result, candidate_found, brief,
  create_source_proposal,
}

elem-keep :
    (x y : String) (xs : List String)
    → (x == y) ≡ false
    → elem x (keep (λ z. not (z == y)) xs) ≡ elem x xs
elem-keep x y [] h = refl
elem-keep x y (z ∷ zs) h = ground (arith, elem-keep x y zs h, eq_iff x z, eq_iff z y, eq_iff x y)

-- dict.fromkeys loses no element.
elem-from_keys : (x : String) (xs : List String) → elem x (from_keys xs) ≡ elem x xs
unfolding from_keys
elem-from_keys x [] = refl
elem-from_keys x (y ∷ ys) = elim (Bool-cases (x == y)) [
  | inl same ↦ rw same refl
  | inr other ↦ rw other (elem-keep x y (from_keys ys) other ∙ elem-from_keys x ys)
]

elem-append : (x : String) (xs : List String) → elem x (xs ++ x ∷ []) ≡ true
elem-append x [] = ground (arith, eq_refl x)
elem-append x (y ∷ ys) = ground (arith, elem-append x ys)

module _ (sha256_hex : String → String) where
  find_identifier :
      (candidate_id : String) (cs : List CandidateSource) (c : CandidateSource)
      → find (λ x. candidate_identifier sha256_hex x == candidate_id) cs ≡ some c
      → candidate_identifier sha256_hex c ≡ candidate_id
  find_identifier candidate_id [] c h = cc
  find_identifier candidate_id (x ∷ xs) c h =
      elim (Bool-cases (candidate_identifier sha256_hex x == candidate_id)) [
        | inl here ↦
            let same : x ≡ c = ap (elim [ none ↦ x | some y ↦ y ]) (rw here at h) in
            subst (λ y. candidate_identifier sha256_hex y ≡ candidate_id) same ((eq_iff _ _).0 here)
        | inr later ↦ find_identifier candidate_id xs c (rw later at h)
      ]

  candidate_from_result_sound :
      (candidates : List CandidateSource) (candidate_id : String) (c : CandidateSource)
      → candidate_from_result sha256_hex candidates candidate_id ≡ ok c
      → candidate_identifier sha256_hex c ≡ candidate_id
  unfolding candidate_from_result
  candidate_from_result_sound candidates candidate_id c h =
      elim (Bool-cases (is_identifier "candidate_" candidate_id)) [
        | inr other ↦ cc (rw (other, candidate_from_result) at h)
        | inl valid ↦ find_identifier candidate_id candidates c (
            found (find (λ x. candidate_identifier sha256_hex x == candidate_id) candidates)
              (rw (valid, candidate_from_result) at h))
      ]
    where
      found : (o : Option CandidateSource) → candidate_found sha256_hex o ≡ ok c → o ≡ some c
      found none e = cc
      found (some x) e = ap some (ok-injective e)

  from_proposal_sound :
      (p : SourceProposal) (r : SourceProposalRecord)
      → from_proposal sha256_hex p ≡ ok r
      → (candidate_identifier sha256_hex p.candidate ≡ r.candidate_id)
        × (p.suggested_name ≡ r.candidate_name)
        × (from_keys (p.candidate.reasons ++ p.reason ∷ []) ≡ r.reasons)
        × (is_valid_record r ≡ true)
  unfolding from_proposal
  from_proposal_sound p r h = elim (Bool-cases (is_valid_record (record_of sha256_hex p))) [
    | inr bad ↦ cc (rw (bad, from_proposal) at h)
    | inl good ↦
        let same : record_of sha256_hex p ≡ r = ok-injective (rw (good, from_proposal) at h) in
        subst
          (λ (x : SourceProposalRecord).
            (candidate_identifier sha256_hex p.candidate ≡ x.candidate_id)
            × (p.suggested_name ≡ x.candidate_name)
            × (from_keys (p.candidate.reasons ++ p.reason ∷ []) ≡ x.reasons)
            × (is_valid_record x ≡ true))
          same (unfold record_of in (refl, refl, refl, good))
  ]

  -- The record of a proposal that was created from a discovery names the candidate that was asked for,
  -- carries the trimmed name, keeps every reason of the candidate and the trimmed reason of the
  -- proposer, and satisfies the constraints of a record.
  pub from_proposal-create_source_proposal :
      (uuid : String) (now : ℕ) (candidates : List CandidateSource) (candidate_id name : String)
      (classification : Classification) (reason request_id : String) (p : SourceProposal)
      (r : SourceProposalRecord)
      → create_source_proposal sha256_hex uuid now candidates candidate_id name classification
          reason request_id
        ≡ ok p
      → from_proposal sha256_hex p ≡ ok r
      → (r.candidate_id ≡ candidate_id)
        × (r.candidate_name ≡ strip name)
        × (elem (strip reason) r.reasons ≡ true)
        × ((x : String) → elem x r.reasons ≡ elem x (p.candidate.reasons ++ strip reason ∷ []))
        × (is_valid_record r ≡ true)
  unfolding create_source_proposal
  from_proposal-create_source_proposal uuid now candidates candidate_id name classification reason
        request_id p r h k =
      let (c, found, h1) =
        >>=-eq-ok (candidate_from_result sha256_hex candidates candidate_id) _ h in
      let (_, _, h2) =
        >>=-eq-ok (require (brief sha256_hex 100 (strip name)) source_proposal_invalid 422) _ h1 in
      let (_, _, h3) =
        >>=-eq-ok (require (brief sha256_hex 1000 (strip reason)) source_proposal_invalid 422) _
          h2 in
      let same = ok-injective h3 in
      let (identified, named, kept, valid) = from_proposal_sound p r k in
      let chosen : c ≡ p.candidate = ap (λ (q : SourceProposal). q.candidate) same in
      let trimmed : strip name ≡ p.suggested_name =
        ap (λ (q : SourceProposal). q.suggested_name) same in
      let reasoned : strip reason ≡ p.reason = ap (λ (q : SourceProposal). q.reason) same in
      let right = candidate_from_result_sound candidates candidate_id c found in
      (
        sym identified ∙ sym (ap (candidate_identifier sha256_hex) chosen) ∙ right,
        sym named ∙ sym trimmed,
        rw (← kept, ← reasoned)
            (elem-from_keys (strip reason) (p.candidate.reasons ++ strip reason ∷ [])
              ∙ elem-append (strip reason) p.candidate.reasons),
        (λ x.
            rw (← kept, ← reasoned) (elem-from_keys x (p.candidate.reasons ++ strip reason ∷ []))),
        valid,
      )
