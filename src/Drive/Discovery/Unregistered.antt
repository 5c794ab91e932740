-- ===== src/Drive/Discovery/Unregistered.antt =====
-- What the discovery of app/source_discovery/google_workspace.py proposes.
use brunova_knowledge_gatewa.Prelude.{
  ℕ, ◌≤◌, ◌<◌, String, ◌≡◌, ◌≢◌, refl, ap, subst, Bool, true, false, ◌||◌, inl, inr, List, [], ◌∷◌,
  ◌++◌, elem, map, leb, length, length-append, All, All-snoc, Bool-cases, elem-append,
  elem-map_of_listed, arith,
}
use mathlib.Core.List.{Memᴰ}
use brunova_knowledge_gatewa.Prelude.Text.{is_empty}
use brunova_knowledge_gatewa.Errors.{ok, ok-injective}
use brunova_knowledge_gatewa.Exec.{bind-eq-ok, pure, ◌>>◌}
use brunova_knowledge_gatewa.Google.{execute}
use brunova_knowledge_gatewa.Registry.{SourceDefinition, SourceRegistry, Classification}
use brunova_knowledge_gatewa.Proposals.{CandidateSource}
use brunova_knowledge_gatewa.Drive.{DriveApi, LocationItem, drive}
use brunova_knowledge_gatewa.Drive.Discovery.{
  collect, location_of, candidate_of, discover_source_candidates, with_drives, with_folders,
  drive_reasons, root_reasons, DiscoveryResult, discover, excluded_of, result_of,
}

-- a candidate that is not excluded, and that nobody but the management sees until it is registered
abbrev pub IsNew : List String → CandidateSource → Type 0
IsNew excluded c =
    (elem c.location_id excluded ≡ false)
    × (is_empty c.location_id ≡ false)
    × (c.classification_suggestion ≡ Classification.management_only)

module _ (excluded : List String) (limit : ℕ) where
  abbrev AreNew : List CandidateSource → Type 0
  AreNew candidates = All (IsNew excluded) candidates × (length candidates ≤ limit)

  collect-AreNew :
      (location_type : String) (reasons : List String) (items : List LocationItem)
      (candidates : List CandidateSource)
      → AreNew candidates
      → (length candidates < limit)
      → AreNew (collect location_type reasons excluded limit items candidates).0
        × ((collect location_type reasons excluded limit items candidates).1 ≡ false
            → length (collect location_type reasons excluded limit items candidates).0 < limit)
  unfolding collect
  collect-AreNew location_type reasons [] candidates new room = (new, λ e. room)
  collect-AreNew location_type reasons (item ∷ items) candidates new room =
      let location = location_of item in
      let c = candidate_of location_type reasons item in
      let grown = candidates ++ c ∷ [] in
      elim (Bool-cases (is_empty location || elem location excluded)) [
        | inl skipped ↦ rw skipped (collect-AreNew location_type reasons items candidates new room)
        | inr kept ↦
            let all =
              All-snoc (IsNew excluded) candidates c new.0 (ground arith, ground arith, refl) in
            let bounded : AreNew grown = (all, omega (arith, length-append candidates (c ∷ []))) in
            elim (Bool-cases (leb limit (length grown))) [
              | inl full ↦ rw (kept, full) (bounded, λ e. cc)
              | inr more ↦
                  rw (kept, more)
                    (collect-AreNew location_type reasons items grown bounded (ground arith))
            ]
      ]

  module _ {S : Type 0} (api : DriveApi S) where
    with_drives-AreNew :
        (found : List CandidateSource × Bool) (candidates : List CandidateSource) (s s' : S)
        → AreNew found.0
        → (found.1 ≡ false → length found.0 < limit)
        → with_drives api excluded limit found s ≡ (ok candidates, s')
        → AreNew candidates
    with_drives-AreNew (cs, true) candidates s s' new room h =
        subst AreNew (ok-injective (ap (λ x. x.0) h)) new
    with_drives-AreNew (cs, false) candidates s s' new room h =
        let (folders, s1, e, h1) =
          bind-eq-ok (execute (api.root_folders _)) (with_folders api excluded limit cs) s s'
            candidates h in
        subst AreNew (ok-injective (ap (λ x. x.0) h1))
          (collect-AreNew "folder" root_reasons folders cs new (room refl)).0

    discover_source_candidates-AreNew :
        (candidates : List CandidateSource) (s s' : S)
        → 0 < limit
        → discover_source_candidates api excluded limit s ≡ (ok candidates, s')
        → AreNew candidates
    unfolding discover_source_candidates
    discover_source_candidates-AreNew candidates s s' positive h =
        let (drives, s1, e, h1) =
          bind-eq-ok (drive api >> execute (api.drives_list limit))
            (λ x.
              with_drives api excluded limit
                (collect "shared_drive" drive_reasons excluded limit x []))
            s s' candidates h in
        let (new, room) =
          collect-AreNew "shared_drive" drive_reasons drives [] (tt, omega arith) positive in
        with_drives-AreNew (collect "shared_drive" drive_reasons excluded limit drives [])
          candidates s1 s' new room h1

-- A location that the registry and the configuration do not know.
abbrev pub IsUnregistered : SourceRegistry → List String → CandidateSource → Type 0
IsUnregistered registry blocked c =
    ((source : SourceDefinition)
      → Memᴰ source registry.sources
      → source.location_id ≢ c.location_id)
    × (elem c.location_id blocked ≡ false)
    × (c.classification_suggestion ≡ Classification.management_only)

IsNew-IsUnregistered :
    (registry : SourceRegistry) (blocked : List String) (cs : List CandidateSource)
    → All (IsNew (excluded_of registry blocked)) cs
    → All (IsUnregistered registry blocked) cs
IsNew-IsUnregistered registry blocked [] new = tt
IsNew-IsUnregistered registry blocked (c ∷ cs) new =
    let split = elem-append c.location_id (map (λ s. s.location_id) registry.sources) blocked in
    (
      (
        λ source m same.
            let known =
              elem-map_of_listed (λ (x : SourceDefinition). x.location_id) source registry.sources
                m in
            ground
              (arith, ap (λ l. elem l (map (λ s. s.location_id) registry.sources)) same, split),
        ground (arith, split),
        new.0.2,
      ),
      IsNew-IsUnregistered registry blocked cs new.1,
    )

-- A discovery with a positive limit that returned proposes at most that many candidates; each is at a location of no
-- registered source, which is not blocked, and is suggested for the management only.
pub discover-IsUnregistered :
    {S : Type 0} (api : DriveApi S) (lower : String → String) (registry : SourceRegistry)
    (blocked : List String) (limit : ℕ) (result : DiscoveryResult) (s s' : S)
    → 0 < limit
    → discover api lower registry blocked limit s ≡ (ok result, s')
    → All (IsUnregistered registry blocked) result.candidates × (length result.candidates ≤ limit)
unfolding discover
discover-IsUnregistered api lower registry blocked limit result s s' positive h =
    let excluded = excluded_of registry blocked in
    let (candidates, s1, e, h1) =
      bind-eq-ok (discover_source_candidates api excluded limit) (λ x. pure (result_of lower x)) s
        s' result h in
    let (new, bounded) =
      discover_source_candidates-AreNew excluded limit api candidates s s1 positive e in
    let same : result_of lower candidates ≡ result = ok-injective (ap (λ x. x.0) h1) in
    subst
      (λ (r : DiscoveryResult).
        All (IsUnregistered registry blocked) r.candidates × (length r.candidates ≤ limit))
      same (IsNew-IsUnregistered registry blocked candidates new, bounded)
