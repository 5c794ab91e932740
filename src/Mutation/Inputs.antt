-- ===== src/Mutation/Inputs.antt =====
-- The input validators of app/policies/content_mutation.py.
use brunova_knowledge_gatewa.Prelude.{
  ◌≤◌, String, ◌≡◌, true, false, some, arith, Bool-cases, ◌||◌, not, leb, ap, sym, inl, inr,
}
use brunova_knowledge_gatewa.Prelude.Text.{len, is_empty, strip}
use brunova_knowledge_gatewa.Prelude.Text.Trimming.{strip_idem}
use brunova_knowledge_gatewa.Errors.{ok}
use brunova_knowledge_gatewa.Mutation.{
  is_approval_reference, normalized_approval_reference, validate_name,
}

len_pos : (s : String) → is_empty s ≡ false → 1 ≤ len s
len_pos String.[] h = cc
len_pos (String.◌∷◌ c s) h = omega arith

-- A normalized approval reference matches the pattern, and normalizing it again changes nothing.
pub normalized_approval_reference_idem :
    (value candidate : String)
    → normalized_approval_reference value ≡ some candidate
    → (is_approval_reference candidate ≡ true)
      × (normalized_approval_reference candidate ≡ some candidate)
unfolding normalized_approval_reference
normalized_approval_reference_idem value candidate h =
    elim (Bool-cases (is_approval_reference (strip value))) [
      | inl matched ↦
          let trimmed : strip value ≡ candidate = ground arith in
          let fixed : strip candidate ≡ candidate =
            cc (trimmed, ap strip trimmed, strip_idem value) in
          let valid : is_approval_reference candidate ≡ true =
            cc (matched, ap is_approval_reference trimmed) in
          (valid, rw (fixed, valid))
      | inr other ↦ ground arith
    ]

-- A validated name is the name without its outer white space, has 1 to 100 characters, and
-- validates to itself.
pub validate_name_lem :
    (name candidate : String)
    → validate_name name ≡ ok candidate
    → (candidate ≡ strip name)
      × (1 ≤ len candidate)
      × (len candidate ≤ 100)
      × (validate_name candidate ≡ ok candidate)
unfolding validate_name
validate_name_lem name candidate h =
    elim (Bool-cases (is_empty (strip name) || not (leb (len (strip name)) 100))) [
      | inl bad ↦ cc (rw (bad, validate_name) at h)
      | inr good ↦
          let trimmed : strip name ≡ candidate = ground arith in
          let fixed : strip candidate ≡ candidate =
            cc (trimmed, ap strip trimmed, strip_idem name) in
          let fits : (is_empty candidate || not (leb (len candidate) 100)) ≡ false =
            rw trimmed at good in
          (sym trimmed, len_pos candidate (ground arith), ground arith, rw (fixed, fits))
    ]
