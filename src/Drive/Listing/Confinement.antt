-- ===== src/Drive/Listing/Confinement.antt =====
-- What `list_files` and `list_source_files` of app/adapters/google_workspace/drive.py return.
use brunova_knowledge_gatewa.Prelude.{
  ℕ, ◌-◌, ◌≤◌, ◌≡◌, refl, ap, inl, inr, List, [], ◌∷◌, length, All, Distinct, Bool-cases, leb,
  arith, subst,
}
use mathlib.Core.List.{Memᴰ}
use brunova_knowledge_gatewa.Errors.{ok, ok-injective}
use brunova_knowledge_gatewa.Exec.{bind-eq-ok, lift}
use brunova_knowledge_gatewa.Google.{execute, returned, answered-eq-ok}
use brunova_knowledge_gatewa.SourceAccess.{
  SourceAccessPolicy, AllowedSource, AllowedSources, allowed_sources,
}
use brunova_knowledge_gatewa.Drive.{DriveApi, FileItem}
use brunova_knowledge_gatewa.Drive.Listing.{
  DriveFile, Listing, file_of, append_allowed_files, list_source_location, list_each,
  list_allowed_sources, list_files, both,
}
use brunova_knowledge_gatewa.Drive.Listing.Selected.{
  ids, IsShowable, IsListing, append_allowed_files-IsListing,
}

All-of_listed : {A : Type 0} (P : A → Type 0) (xs : List A) → ((x : A) → Memᴰ x xs → P x) → All P xs
All-of_listed P [] f = tt
All-of_listed P (x ∷ xs) f = (f x (Memᴰ.head refl), All-of_listed P xs (λ y m. f y (Memᴰ.tail m)))

module _ {S : Type 0} (policy : SourceAccessPolicy) (limit : ℕ) (api : DriveApi S) where
  -- Drive answered the file, at some time, for the location of one of the sources, and it carries the
  -- metadata of that source.
  abbrev pub IsFrom : List AllowedSource → DriveFile → Type 0
  IsFrom sources file =
      (source : AllowedSource) × Memᴰ source sources
      × (page_size : ℕ) × (s : S) × (s' : S) × (items : List FileItem) × (api.files_list
            source.definition.location_type source.definition.location_id page_size s
          ≡ (returned items, s'))
      × (item : FileItem) × Memᴰ item items
      × (file ≡ file_of source.context item)

  -- Files of the sources that may be shown, each once and within the limit.
  abbrev pub AreSelected : List AllowedSource → List DriveFile → Type 0
  AreSelected sources files =
      All (IsFrom sources) files
      × All (IsShowable policy) files
      × Distinct (ids files)
      × (length files ≤ limit)

  module _ (all_sources : List AllowedSource) where
    list_each-AreSelected :
        (sources : List AllowedSource) (l : Listing) (files : List DriveFile) (s s' : S)
        → ((source : AllowedSource) → Memᴰ source sources → Memᴰ source all_sources)
        → IsListing policy (IsFrom all_sources) l
        → length l.files ≤ limit
        → list_each policy limit api sources l s ≡ (ok files, s')
        → AreSelected all_sources files
    unfolding list_each
    list_each-AreSelected [] l files s s' known i short h =
        let same : l.files ≡ files = ok-injective (ap (λ x. x.0) h) in
        subst (AreSelected all_sources) same (i.each, i.showable, i.distinct, short)
    list_each-AreSelected (source ∷ sources) l files s s' known i short h =
        elim (Bool-cases (leb limit (length l.files))) [
          | inl full ↦
              let same : l.files ≡ files = ok-injective (ap (λ x. x.0) (rw full at h)) in
              subst (AreSelected all_sources) same (i.each, i.showable, i.distinct, short)
          | inr room ↦
              let (items, s1, e, rest) =
                bind-eq-ok (list_source_location policy limit api source (limit - length l.files))
                  (λ items.
                    list_each policy limit api sources
                      (append_allowed_files policy limit source.context items l))
                  s s' files (rw room at h) in
              let answered =
                answered-eq-ok
                  (api.files_list source.definition.location_type source.definition.location_id
                    (limit - length l.files) s)
                  items s1 e in
              let listed =
                All-of_listed (λ item. IsFrom all_sources (file_of source.context item)) items
                  (λ item m. (
                    source,
                    known source (Memᴰ.head refl),
                    limit - length l.files,
                    s,
                    s1,
                    items,
                    answered,
                    item,
                    m,
                    refl,
                  )) in
              let (grown, bounded) =
                append_allowed_files-IsListing policy (IsFrom all_sources) limit source.context
                  items l listed i (ground arith) in
              list_each-AreSelected sources
                (append_allowed_files policy limit source.context items l) files s1 s'
                (λ x m. known x (Memᴰ.tail m)) grown bounded rest
        ]

    pub list_allowed_sources-AreSelected :
        (files : List DriveFile) (s s' : S)
        → list_allowed_sources policy limit api all_sources s ≡ (ok files, s')
        → AreSelected all_sources files
    unfolding list_allowed_sources
    list_allowed_sources-AreSelected files s s' h =
        let start : Listing = record { files = []; seen_ids = [] } in
        let (u, s1, e, rest) =
          bind-eq-ok (execute api.connect) (λ _. list_each policy limit api all_sources start) s s'
            files h in
        list_each-AreSelected all_sources start files s1 s' (λ x m. m)
          (record { each = tt; showable = tt; distinct = tt; seen = λ a m. m }) (omega arith) rest

  -- Files that were listed are at most as many as the limit, and no id occurs twice or is blocked or
  -- empty; Drive answered each of them for the location of one of the sources that the policy allows,
  -- and it carries that source's metadata.
  pub list_files-AreSelected :
      (files : List DriveFile) (s s' : S)
      → list_files policy limit api s ≡ (ok files, s')
      → (sources : AllowedSources) × (allowed_sources policy ≡ ok sources)
        × AreSelected (both policy limit api sources) files
  unfolding list_files
  list_files-AreSelected files s s' h =
      let (sources, s1, e, rest) =
        bind-eq-ok (lift (allowed_sources policy))
          (λ x. list_allowed_sources policy limit api (both policy limit api x)) s s' files h in
      (
        sources,
        ap (λ x. x.0) e,
        list_allowed_sources-AreSelected (both policy limit api sources) files s1 s' rest,
      )
