-- ===== src/Proposals.antt =====
-- app/source_governance.py, the identifiers of app/source_discovery/interface.py and, below, the store of
-- proposals. The digest `sha256(...).hexdigest()` is a parameter; the `version` of a document and the
-- status of a proposal admit one value each and are left out, and so are the views of a proposal that
-- only copy its fields.
pub mod Store
pub mod Intent
use brunova_knowledge_gatewa.Prelude.{
  ℕ, zero, suc, String, ◌==◌, Bool, true, false, not, ◌&&◌, ◌||◌, List, [], ◌∷◌, ◌++◌, Option, none,
  some, leb, length, keep, find, if◌then◌else◌,
}
use brunova_knowledge_gatewa.Prelude.Text.{
  len, is_empty, strip, append, starts_with, matches, is_hex,
}
use brunova_knowledge_gatewa.Errors.{
  Result, ok, err, adapter, value_error, ◌>>=◌, ◌>>◌, require, source_proposal_invalid,
  source_candidate_not_found,
}
use brunova_knowledge_gatewa.Registry.{Classification}

pub record CandidateSource : Type 0 where
  pub system : String
  pub location_type : String
  pub location_id : String
  pub name : String
  pub classification_suggestion : Classification
  pub reasons : List String
  pub exists : Bool

pub data Confidence : Type 0 where
  low medium high : Confidence

pub record SourceProposal : Type 0 where
  pub proposal_id : String
  pub candidate : CandidateSource
  pub suggested_name : String
  pub classification : Classification
  pub reason : String
  pub timestamp : ℕ
  pub request_id : String

pub record SourceProposalRecord : Type 0 where
  pub proposal_id : String
  pub candidate_id : String
  pub candidate_name : String
  pub location_type : String
  pub suggested_classification : Classification
  pub confidence : Confidence
  pub reasons : List String
  pub created_at : ℕ
  pub request_id : String

-- s[:n]
unfoldable pub prefix_of : ℕ → String → String
prefix_of zero s = ""
prefix_of (suc n) String.[] = ""
prefix_of (suc n) (String.◌∷◌ c s) = String.◌∷◌ c (prefix_of n s)

-- s[n:]
unfoldable pub suffix_of : ℕ → String → String
suffix_of zero s = s
suffix_of (suc n) String.[] = ""
suffix_of (suc n) (String.◌∷◌ c s) = suffix_of n s

-- ^<prefix>[a-f0-9]{32}$
unfoldable pub is_identifier : String → String → Bool
is_identifier prefix s = starts_with prefix s && matches is_hex 32 32 (suffix_of (len prefix) s)

-- candidate_confidence
unfoldable pub candidate_confidence : CandidateSource → Confidence
candidate_confidence candidate = if candidate.location_type == "shared_drive" then medium else low

-- tuple(dict.fromkeys(xs)): each element at its first place
unfoldable pub from_keys : List String → List String
from_keys [] = []
from_keys (x ∷ xs) = x ∷ keep (λ y. not (y == x)) (from_keys xs)

-- the field constraints of a record
unfoldable pub is_valid_record : SourceProposalRecord → Bool
is_valid_record r =
    is_identifier "proposal_" r.proposal_id
    && is_identifier "candidate_" r.candidate_id
    && leb 1 (len r.candidate_name)
    && leb (len r.candidate_name) 100
    && (r.location_type == "shared_drive" || r.location_type == "folder")
    && leb 1 (length r.reasons)
    && leb 1 (len r.request_id)
    && leb (len r.request_id) 128

module _ (sha256_hex : String → String) where
  unfoldable pub candidate_identifier : CandidateSource → String
  unfolding prefix_of
  candidate_identifier c = append "candidate_" (
      prefix_of 32 (
        sha256_hex
          (append c.system (append "\0" (append c.location_type (append "\0" c.location_id))))))

  -- the arguments that `from_proposal` gives to the constructor
  unfoldable pub record_of : SourceProposal → SourceProposalRecord
  unfolding candidate_identifier candidate_confidence from_keys
  record_of proposal = record {
    proposal_id = proposal.proposal_id;
    candidate_id = candidate_identifier proposal.candidate;
    candidate_name = proposal.suggested_name;
    location_type = proposal.candidate.location_type;
    suggested_classification = proposal.classification;
    confidence = candidate_confidence proposal.candidate;
    reasons = from_keys (proposal.candidate.reasons ++ proposal.reason ∷ []);
    created_at = proposal.timestamp;
    request_id = proposal.request_id;
  }

  -- SourceProposalRecord.from_proposal; `ValueError` is pydantic's refusal
  unfoldable pub from_proposal : SourceProposal → Result SourceProposalRecord
  unfolding is_valid_record
  from_proposal proposal =
      if is_valid_record (record_of proposal) then ok (record_of proposal) else err value_error

  abbrev pub candidate_found : Option CandidateSource → Result CandidateSource
  candidate_found none = err (adapter source_candidate_not_found 404)
  candidate_found (some candidate) = ok candidate

  -- `_candidate_from_result`, of the candidates of a result
  unfoldable pub candidate_from_result : List CandidateSource → String → Result CandidateSource
  candidate_from_result candidates candidate_id =
      if is_identifier "candidate_" candidate_id
      then candidate_found (find (λ c. candidate_identifier c == candidate_id) candidates)
      else err (adapter source_candidate_not_found 404)

  -- a text of at least one character and at most `max`
  abbrev pub brief : ℕ → String → Bool
  brief max s = not (is_empty s || not (leb (len s) max))

  -- `create_source_proposal`: `uuid` is `uuid4().hex`, `now` the time
  unfoldable pub create_source_proposal :
      String
      → ℕ
      → List CandidateSource
      → String
      → String
      → Classification
      → String
      → String
      → Result SourceProposal
  create_source_proposal uuid now candidates candidate_id name classification reason request_id = do
    candidate ← candidate_from_result candidates candidate_id
    require (brief 100 (strip name)) source_proposal_invalid 422
    require (brief 1000 (strip reason)) source_proposal_invalid 422
    ok (record {
      proposal_id = append "proposal_" uuid;
      candidate = candidate;
      suggested_name = strip name;
      classification = classification;
      reason = strip reason;
      timestamp = now;
      request_id = request_id;
    })
