-- ===== src/Tests/Proposals.antt =====
-- A proposal of a discovered folder, recorded in an empty bucket.
use brunova_knowledge_gatewa.Prelude.{String, ◌≡◌, refl, Bool, true, [], ◌∷◌}
use brunova_knowledge_gatewa.Prelude.Text.{strip, lstrip, rstrip, is_space, matches, starts_with}
use brunova_knowledge_gatewa.Errors.{ok}
use brunova_knowledge_gatewa.Registry.{Classification}
use brunova_knowledge_gatewa.Storage.{ObjectStore}
use brunova_knowledge_gatewa.Storage.Log.{write, LogState, log_store}
use brunova_knowledge_gatewa.Proposals.{
  CandidateSource, SourceProposal, SourceProposalRecord, Confidence, is_identifier, suffix_of,
  prefix_of, from_keys, is_valid_record, record_of, candidate_confidence, candidate_identifier,
  from_proposal, candidate_from_result, create_source_proposal,
}
use brunova_knowledge_gatewa.Proposals.Store
use brunova_knowledge_gatewa.Proposals.Store.{Document}

abbrev digits : String
digits = "0123456789abcdef0123456789abcdef"

abbrev digest : String → String
digest s = digits

abbrev candidate : CandidateSource
candidate = record {
  system = "google_workspace";
  location_type = "folder";
  location_id = "folder0003";
  name = "Plans";
  classification_suggestion = Classification.internal_delivery;
  reasons = "new folder" ∷ [];
  exists = true;
}

abbrev proposal : SourceProposal
proposal = record {
  proposal_id = "proposal_0123456789abcdef0123456789abcdef";
  candidate = candidate;
  suggested_name = "Plans";
  classification = Classification.internal_delivery;
  reason = "needed";
  timestamp = 5;
  request_id = "r1";
}

created :
    create_source_proposal digest digits 5
      (candidate ∷ [])
      "candidate_0123456789abcdef0123456789abcdef"
      " Plans "
      Classification.internal_delivery
      "needed"
      "r1"
    ≡ ok proposal
unfolding create_source_proposal candidate_from_result is_identifier suffix_of prefix_of starts_with
    matches candidate_identifier strip lstrip rstrip is_space
created = refl

abbrev recorded : SourceProposalRecord
recorded = record {
  proposal_id = "proposal_0123456789abcdef0123456789abcdef";
  candidate_id = "candidate_0123456789abcdef0123456789abcdef";
  candidate_name = "Plans";
  location_type = "folder";
  suggested_classification = Classification.internal_delivery;
  confidence = Confidence.low;
  reasons = "new folder" ∷ "needed" ∷ [];
  created_at = 5;
  request_id = "r1";
}

proposed : from_proposal digest proposal ≡ ok recorded
unfolding from_proposal is_valid_record record_of candidate_identifier candidate_confidence
    from_keys is_identifier suffix_of prefix_of starts_with matches
proposed = refl

abbrev accepts : String → Document → Bool
accepts name document = true

abbrev store : ObjectStore Document
store = log_store Document accepts

abbrev empty : LogState Document
empty = record { log = []; pending = []; now = 0 }

abbrev full : LogState Document
full = record { log = write "proposals.yaml" (recorded ∷ []) ∷ []; pending = []; now = 0 }
