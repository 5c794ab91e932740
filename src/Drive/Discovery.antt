-- ===== src/Drive/Discovery.antt =====
-- `discover_source_candidates` of app/adapters/google_workspace/drive.py, and the discovery of
-- app/source_discovery/google_workspace.py over it.
pub mod Unregistered
use brunova_knowledge_gatewa.Prelude.{
  ℕ, ◌-◌, String, Bool, true, false, ◌&&◌, ◌||◌, not, List, [], ◌∷◌, ◌++◌, Option, none, some, elem,
  leb, length, map, if◌then◌else◌, eqb,
}
use Prim.Native.Char.{code}
use brunova_knowledge_gatewa.Prelude.Text.{is_empty, strip, is_lower, is_digit, append}
use brunova_knowledge_gatewa.Errors.{ok}
use brunova_knowledge_gatewa.Exec.{Exec, pure, ◌>>=◌, ◌>>◌}
use brunova_knowledge_gatewa.Google.{execute}
use brunova_knowledge_gatewa.Registry.{SourceRegistry, Classification}
use brunova_knowledge_gatewa.Proposals.{
  CandidateSource, Confidence, candidate_confidence, prefix_of,
}
use brunova_knowledge_gatewa.Drive.{DriveApi, LocationItem, drive, get_or}

abbrev pub location_of : LocationItem → String
location_of item = get_or item.id ""

abbrev pub candidate_of : String → List String → LocationItem → CandidateSource
candidate_of location_type reasons item = record {
  system = "google_workspace";
  location_type = location_type;
  location_id = location_of item;
  name = get_or item.name "";
  classification_suggestion = Classification.management_only;
  reasons = reasons;
  exists = true;
}

-- One of the two loops, and whether it stopped at the limit.
unfoldable pub collect :
    String
    → List String
    → List String
    → ℕ
    → List LocationItem
    → List CandidateSource
    → List CandidateSource × Bool
collect location_type reasons excluded limit [] candidates = (candidates, false)
collect location_type reasons excluded limit (item ∷ items) candidates =
    let grown = candidates ++ candidate_of location_type reasons item ∷ [] in
    let skipped = collect location_type reasons excluded limit items candidates in
    let more = collect location_type reasons excluded limit items grown in
    if is_empty (location_of item) || elem (location_of item) excluded
    then skipped
    else if leb limit (length grown)
    then (grown, true)
    else more

abbrev pub root_reasons : List String
root_reasons =
    "unregistered root folder detected" ∷ "located under delegated user's Drive root" ∷ []

abbrev pub drive_reasons : List String
drive_reasons = "new shared drive detected" ∷ []

module _ {S : Type 0} (api : DriveApi S) where
  abbrev pub with_folders :
      List String → ℕ → List CandidateSource → List LocationItem → Exec S (List CandidateSource)
  with_folders excluded limit candidates folders =
      pure (collect "folder" root_reasons excluded limit folders candidates).0

  abbrev pub with_drives :
      List String → ℕ → List CandidateSource × Bool → Exec S (List CandidateSource)
  with_drives excluded limit (candidates, true) = pure candidates
  with_drives excluded limit (candidates, false) =
      execute (api.root_folders (limit - length candidates))
      >>= with_folders excluded limit candidates

  unfoldable pub discover_source_candidates : List String → ℕ → Exec S (List CandidateSource)
  unfolding collect
  discover_source_candidates excluded limit =
      drive api >> execute (api.drives_list limit) >>= λ drives.
      with_drives excluded limit (collect "shared_drive" drive_reasons excluded limit drives [])

pub record SourceProposalSuggestion : Type 0 where
  pub candidate : CandidateSource
  pub proposed_id : String
  pub suggested_classification : Classification
  pub confidence : Confidence
  pub reasons : List String

pub record DiscoveryResult : Type 0 where
  pub candidates : List CandidateSource
  pub proposals : List SourceProposalSuggestion

-- re.sub(r"[^a-z0-9]+", "_", s), where `gap` tells that a run is going on
unfoldable pub underscored : Bool → String → String
underscored gap String.[] = ""
underscored gap (String.◌∷◌ c s) =
    let kept = String.◌∷◌ c (underscored false s) in
    let run = underscored true s in
    if is_lower (code c) || is_digit (code c) then kept else if gap then run else append "_" run

-- s.lstrip("_") and s.rstrip("_")
unfoldable pub drop_left : String → String
drop_left String.[] = ""
drop_left (String.◌∷◌ c s) = if eqb (code c) b'_' then drop_left s else String.◌∷◌ c s

unfoldable pub drop_right : String → String
drop_right String.[] = ""
drop_right (String.◌∷◌ c s) =
    let rest = drop_right s in if eqb (code c) b'_' && is_empty rest then "" else String.◌∷◌ c rest

-- `normalized` begins with a letter; its characters are a-z, 0-9 and _ here
abbrev begins_alpha : String → Bool
begins_alpha String.[] = false
begins_alpha (String.◌∷◌ c s) = is_lower (code c)

abbrev completed_id : String → String
completed_id normalized =
    if begins_alpha normalized then normalized else drop_right (append "source_" normalized)

-- `lower` is `str.lower`
unfoldable pub proposed_id : (String → String) → String → String
unfolding underscored drop_left drop_right prefix_of
proposed_id lower name =
    prefix_of 64 (completed_id (drop_right (drop_left (underscored false (lower (strip name))))))

abbrev suggestion_of : (String → String) → CandidateSource → SourceProposalSuggestion
suggestion_of lower candidate = record {
  candidate = candidate;
  proposed_id = proposed_id lower candidate.name;
  suggested_classification = candidate.classification_suggestion;
  confidence = candidate_confidence candidate;
  reasons = candidate.reasons;
}

abbrev pub excluded_of : SourceRegistry → List String → List String
excluded_of registry blocked = map (λ s. s.location_id) registry.sources ++ blocked

abbrev pub result_of : (String → String) → List CandidateSource → DiscoveryResult
result_of lower candidates = record {
  candidates = candidates;
  proposals = map (suggestion_of lower) candidates;
}

-- `GoogleWorkspaceSourceDiscovery.discover`
unfoldable pub discover :
    {S : Type 0}
    → DriveApi S
    → (String → String)
    → SourceRegistry
    → List String
    → ℕ
    → Exec S DiscoveryResult
unfolding discover_source_candidates
discover api lower registry blocked limit =
    discover_source_candidates api (excluded_of registry blocked) limit >>= λ candidates.
    pure (result_of lower candidates)
