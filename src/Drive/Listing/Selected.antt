-- ===== src/Drive/Listing/Selected.antt =====
-- Which files `_list_allowed_sources` of app/adapters/google_workspace/drive.py returns.
use brunova_knowledge_gatewa.Prelude.{
  ℕ, ◌≤◌, ◌<◌, String, ◌≡◌, refl, ap, true, false, inl, inr, List, [], ◌∷◌, ◌++◌, elem, map, length,
  length-append, All, All-snoc, Distinct, Distinct-append, elem-append, Bool-cases, leb, arith,
}
use brunova_knowledge_gatewa.Prelude.Text.{is_empty}
use brunova_knowledge_gatewa.Registry.{SourceContext}
use brunova_knowledge_gatewa.SourceAccess.{SourceAccessPolicy, is_blocked_id}
use brunova_knowledge_gatewa.Drive.{FileItem}
use brunova_knowledge_gatewa.Drive.Listing.{
  DriveFile, Listing, id_of, file_of, is_skipped, with_file, append_allowed_files,
}

abbrev pub ids : List DriveFile → List String
ids files = map (λ f. f.id) files

ids-append : (xs : List DriveFile) (x : DriveFile) → ids (xs ++ x ∷ []) ≡ ids xs ++ x.id ∷ []
ids-append [] x = refl
ids-append (y ∷ xs) x = ap (λ (r : List String). y.id ∷ r) (ids-append xs x)

-- A file that may be shown: it has an id, which is not blocked.
abbrev pub IsShowable : SourceAccessPolicy → DriveFile → Type 0
IsShowable policy f = (is_empty f.id ≡ false) × (elem f.id policy.blocked ≡ false)

pub record IsListing (policy : SourceAccessPolicy) (P : DriveFile → Type 0) (l : Listing)
    : Type 0 where
  pub each : All P l.files
  pub showable : All (IsShowable policy) l.files
  pub distinct : Distinct (ids l.files)
  pub seen : (a : String) → elem a (ids l.files) ≡ true → elem a l.seen_ids ≡ true

module _ (policy : SourceAccessPolicy) (P : DriveFile → Type 0) where
  with_file-IsListing :
      (file : DriveFile) (l : Listing)
      → is_skipped policy file.id l.seen_ids ≡ false
      → P file
      → IsListing policy P l
      → IsListing policy P (with_file file l)
  unfolding is_blocked_id
  with_file-IsListing file l kept p i = record {
    each = All-snoc P l.files file i.each p;
    showable = All-snoc (IsShowable policy) l.files file i.showable (ground arith, ground arith);
    distinct =
        rw (ids-append l.files file)
          (Distinct-append (ids l.files) file.id i.distinct (ground (arith, i.seen file.id)));
    seen = λ a m. ground (
      arith,
      ap (elem a) (ids-append l.files file),
      elem-append a (ids l.files) (file.id ∷ []),
      i.seen a,
    );
  }

  module _ (limit : ℕ) (context : SourceContext) where
    pub append_allowed_files-IsListing :
        (items : List FileItem) (l : Listing)
        → All (λ item. P (file_of context item)) items
        → IsListing policy P l
        → length l.files < limit
        → IsListing policy P (append_allowed_files policy limit context items l)
          × (length (append_allowed_files policy limit context items l).files ≤ limit)
    unfolding append_allowed_files
    append_allowed_files-IsListing [] l p i short = (i, omega arith)
    append_allowed_files-IsListing (item ∷ items) l p i short =
        elim (Bool-cases (is_skipped policy (id_of item) l.seen_ids)) [
          | inl skipped ↦ rw (skipped) (append_allowed_files-IsListing items l p.1 i short)
          | inr kept ↦
              let file = file_of context item in
              let grown = with_file file l in
              let listed = with_file-IsListing file l kept p.0 i in
              elim (Bool-cases (leb limit (length grown.files))) [
                | inl full ↦
                    rw (kept, full) (listed, omega (arith, length-append l.files (file ∷ [])))
                | inr open' ↦
                    rw (kept, open')
                      (append_allowed_files-IsListing items grown p.1 listed (ground arith))
              ]
        ]
