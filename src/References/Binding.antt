-- ===== src/References/Binding.antt =====
-- Which references of app/artifact_refs.py are accepted: one decodes for the source, the artifact and the
-- kind that it was made for, and for no other.
use brunova_knowledge_gatewa.Prelude.{
  ℕ, String, ◌==◌, ◌≡◌, ◌≢◌, refl, sym, ap, ◌∙◌, Bool, true, false, not, ◌&&◌, none, some, List, [],
  ◌∷◌, arith, if◌then◌else◌,
}
use brunova_knowledge_gatewa.Prelude.Text.{append, is_empty}
use brunova_knowledge_gatewa.Errors.{
  Result, ok, err, adapter, artifact_reference_invalid, asset_reference_invalid,
  docx_anchor_invalid, document_image_reference_invalid, document_tab_reference_invalid,
  spreadsheet_sheet_reference_invalid,
}
use brunova_knowledge_gatewa.Json.{lookup}
use brunova_knowledge_gatewa.References.{
  Vault, Claims, indexes_of, index_items, raw_of, token_of, opened, is_version_one,
  artifact_purpose, asset_purpose, docx_anchor_purpose, document_image_purpose, tab_purpose,
  sheet_purpose, artifact_claims, asset_claims, docx_anchor_claims, document_image_claims,
  tab_claims, sheet_claims, encode, decode, encode_asset, decode_asset, encode_docx_anchor,
  decode_docx_anchor, encode_document_image, decode_document_image, encode_tab, decode_tab,
  encode_sheet, decode_sheet,
}
use brunova_knowledge_gatewa.References.Sealing.{IsVault, IsBase64, opened-token_of, opened-eq-none}

indexes_of-index_items : (is : List ℕ) → indexes_of (index_items is) ≡ some is
indexes_of-index_items [] = refl
indexes_of-index_items (i ∷ is) = rw (indexes_of-index_items is)

module _ (vault : Vault) (law : IsVault vault) (nonce : vault.Nonce)
    (source_id artifact_id : String) where
  -- The reference of an artifact decodes to it for the source that it was made for, and is refused with
  -- 403 for every other source and for an empty artifact id. It is assumed that AES-GCM, `json` and
  -- base64 undo what they did.
  pub decode-encode :
      (IsBase64 vault
        (raw_of vault nonce artifact_purpose (artifact_claims vault source_id artifact_id)))
      → (other_source : String)
      → decode vault (encode vault nonce source_id artifact_id) other_source ≡ (
          if source_id == other_source && not (is_empty artifact_id)
          then ok artifact_id
          else err (adapter artifact_reference_invalid 403))
  unfolding decode encode is_version_one lookup
  decode-encode base64 other_source =
      rw
        (opened-token_of vault law nonce artifact_purpose
          (artifact_claims vault source_id artifact_id) base64 "artifact_")
        (ground arith)

  -- The reference of a visual asset decodes to the artifact and the MIME type for the source that it was
  -- made for only.
  pub decode_asset-encode_asset :
      (mime_type : String)
      → IsBase64 vault
          (raw_of vault nonce asset_purpose (asset_claims vault source_id artifact_id mime_type))
      → (other_source : String)
      → decode_asset vault (encode_asset vault nonce source_id artifact_id mime_type) other_source
        ≡ (if source_id == other_source && (not (is_empty artifact_id) && not (is_empty mime_type))
            then ok (artifact_id, mime_type)
            else err (adapter asset_reference_invalid 403))
  unfolding decode_asset encode_asset is_version_one lookup
  decode_asset-encode_asset mime_type base64 other_source =
      rw
        (opened-token_of vault law nonce asset_purpose
          (asset_claims vault source_id artifact_id mime_type) base64 "asset_")
        (ground arith)

  -- An anchor of a DOCX artifact decodes to its part, kind and indexes for the source and the artifact that
  -- it was made for, and is refused with 403 for every other. It is assumed that AES-GCM, `json` and
  -- base64 undo what they did.
  pub decode_docx_anchor-encode_docx_anchor :
      (part : String) (kind : String) (indexes : List ℕ)
      → IsBase64 vault (
          raw_of vault nonce docx_anchor_purpose
            (docx_anchor_claims vault source_id artifact_id part kind indexes))
      → (other_source other_artifact : String)
      → decode_docx_anchor vault
          (encode_docx_anchor vault nonce source_id artifact_id part kind indexes)
          other_source
          other_artifact
        ≡ (if source_id == other_source && artifact_id == other_artifact
            then ok (part, kind, indexes)
            else err (adapter docx_anchor_invalid 403))
  unfolding decode_docx_anchor encode_docx_anchor is_version_one lookup
  decode_docx_anchor-encode_docx_anchor part kind indexes base64 other_source other_artifact =
      rw
        (
          opened-token_of vault law nonce docx_anchor_purpose
              (docx_anchor_claims vault source_id artifact_id part kind indexes) base64
              "docx_anchor_",
          indexes_of-index_items indexes,
        )
        (ground arith)

  pub decode_document_image-encode_document_image :
      (object_id : String) (tab_id : String)
      → IsBase64 vault (
          raw_of vault nonce document_image_purpose
            (document_image_claims vault source_id artifact_id object_id tab_id))
      → (other_source other_artifact : String)
      → decode_document_image vault
          (encode_document_image vault nonce source_id artifact_id object_id tab_id)
          other_source
          other_artifact
        ≡ (if source_id == other_source
              && (artifact_id == other_artifact && not (is_empty object_id))
            then ok (object_id, tab_id)
            else err (adapter document_image_reference_invalid 403))
  unfolding decode_document_image encode_document_image is_version_one lookup
  decode_document_image-encode_document_image object_id tab_id base64 other_source other_artifact =
      rw
        (opened-token_of vault law nonce document_image_purpose
          (document_image_claims vault source_id artifact_id object_id tab_id) base64 "doc_image_")
        (ground arith)

  pub decode_tab-encode_tab :
      (tab_id : String)
      → IsBase64 vault
          (raw_of vault nonce tab_purpose (tab_claims vault source_id artifact_id tab_id))
      → (other_source other_artifact : String)
      → decode_tab vault
          (encode_tab vault nonce source_id artifact_id tab_id)
          other_source
          other_artifact
        ≡ (if source_id == other_source && (artifact_id == other_artifact && not (is_empty tab_id))
            then ok tab_id
            else err (adapter document_tab_reference_invalid 403))
  unfolding decode_tab encode_tab is_version_one lookup
  decode_tab-encode_tab tab_id base64 other_source other_artifact =
      rw
        (opened-token_of vault law nonce tab_purpose (tab_claims vault source_id artifact_id tab_id)
          base64 "tab_")
        (ground arith)

  -- The reference of a sheet decodes to its id for the source and the spreadsheet that it was made for,
  -- and is refused with 403 for every other and for an empty id. It is assumed that AES-GCM, `json` and
  -- base64 undo what they did.
  pub decode_sheet-encode_sheet :
      (sheet_id : String)
      → IsBase64 vault
          (raw_of vault nonce sheet_purpose (sheet_claims vault source_id artifact_id sheet_id))
      → (other_source other_artifact : String)
      → decode_sheet vault
          (encode_sheet vault nonce source_id artifact_id sheet_id)
          other_source
          other_artifact
        ≡ (if source_id == other_source
              && (artifact_id == other_artifact && not (is_empty sheet_id))
            then ok sheet_id
            else err (adapter spreadsheet_sheet_reference_invalid 403))
  unfolding decode_sheet encode_sheet is_version_one lookup
  decode_sheet-encode_sheet sheet_id base64 other_source other_artifact =
      rw
        (opened-token_of vault law nonce sheet_purpose
          (sheet_claims vault source_id artifact_id sheet_id) base64 "sheet_")
        (ground arith)

-- The kinds of references.
pub data Kind : Type 0 where
  artifact asset docx_anchor document_image tab sheet : Kind

abbrev pub purpose_of : Kind → String
purpose_of artifact = artifact_purpose
purpose_of asset = asset_purpose
purpose_of docx_anchor = docx_anchor_purpose
purpose_of document_image = document_image_purpose
purpose_of tab = tab_purpose
purpose_of sheet = sheet_purpose

abbrev pub prefix_of : Kind → String
prefix_of artifact = "artifact_"
prefix_of asset = "asset_"
prefix_of docx_anchor = "docx_anchor_"
prefix_of document_image = "doc_image_"
prefix_of tab = "tab_"
prefix_of sheet = "sheet_"

abbrev kind_of : String → Kind
kind_of purpose =
    if purpose == artifact_purpose
    then artifact
    else if purpose == asset_purpose
    then asset
    else if purpose == docx_anchor_purpose
    then docx_anchor
    else if purpose == document_image_purpose
    then document_image
    else if purpose == tab_purpose
    then tab
    else sheet

kind_of-purpose_of : (kind : Kind) → kind_of (purpose_of kind) ≡ kind
kind_of-purpose_of artifact = refl
kind_of-purpose_of asset = refl
kind_of-purpose_of docx_anchor = refl
kind_of-purpose_of document_image = refl
kind_of-purpose_of tab = refl
kind_of-purpose_of sheet = refl

purpose_of-injective : (kind another : Kind) → purpose_of kind ≡ purpose_of another → kind ≡ another
purpose_of-injective kind another h =
    sym (kind_of-purpose_of kind) ∙ ap kind_of h ∙ kind_of-purpose_of another

abbrev accepted {ℓ} : {A : Type ℓ} → Result A → Bool
accepted (ok a) = true
accepted (err e) = false

module _ (vault : Vault) where
  -- whether the decoding of a kind returns; the first two kinds are not bound to an artifact
  unfoldable pub accepts : Kind → String → String → String → Bool
  accepts artifact ref source_id artifact_id = accepted (decode vault ref source_id)
  accepts asset ref source_id artifact_id = accepted (decode_asset vault ref source_id)
  accepts docx_anchor ref source_id artifact_id =
      accepted (decode_docx_anchor vault ref source_id artifact_id)
  accepts document_image ref source_id artifact_id =
      accepted (decode_document_image vault ref source_id artifact_id)
  accepts tab ref source_id artifact_id = accepted (decode_tab vault ref source_id artifact_id)
  accepts sheet ref source_id artifact_id = accepted (decode_sheet vault ref source_id artifact_id)

  closed :
      (kind : Kind) (ref source_id artifact_id : String)
      → opened vault (prefix_of kind) (purpose_of kind) ref ≡ none
      → accepts kind ref source_id artifact_id ≡ false
  unfolding accepts decode decode_asset decode_docx_anchor decode_document_image decode_tab
      decode_sheet
  closed artifact ref source_id artifact_id h = rw h
  closed asset ref source_id artifact_id h = rw h
  closed docx_anchor ref source_id artifact_id h = rw h
  closed document_image ref source_id artifact_id h = rw h
  closed tab ref source_id artifact_id h = rw h
  closed sheet ref source_id artifact_id h = rw h

  -- A token that was sealed for one kind of reference is accepted as no other kind, whatever its claims
  -- say and even if its prefix is exchanged for that of the other kind. It is assumed that base64
  -- undoes what it did and that AES-GCM refuses other associated data.
  pub accepts-token_of :
      (law : IsVault vault) (nonce : vault.Nonce) (kind another : Kind) (claims : Claims)
      (source_id artifact_id : String)
      → IsBase64 vault (raw_of vault nonce (purpose_of kind) claims)
      → kind ≢ another
      → accepts another
          (append (prefix_of another) (token_of vault nonce (purpose_of kind) claims))
          source_id
          artifact_id
        ≡ false
  accepts-token_of law nonce kind another claims source_id artifact_id base64 differ =
      closed another (append (prefix_of another) (token_of vault nonce (purpose_of kind) claims))
        source_id artifact_id
        (opened-eq-none vault law nonce (purpose_of kind) claims base64 (prefix_of another)
          (purpose_of another) (λ same. differ (purpose_of-injective kind another same)))
