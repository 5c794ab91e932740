-- ===== src/References.antt =====
-- app/artifact_refs.py: the encrypted references of `ArtifactReferenceCodec`. AES-GCM, base64 and `json` are
-- parameters, and so is the nonce that a call draws. Every exception of a decoding becomes the error of
-- its kind, so a decoding is an `Option` until its last step.
pub mod Sealing
pub mod Binding
use Prim.Native.Char.{Char, code}
use Prim.Native.String
use brunova_knowledge_gatewa.Prelude.{
  ℕ, zero, suc, ◌-◌, ◌%◌, String, ◌==◌, Bool, true, false, not, ◌&&◌, Option, none, some, List, [],
  ◌∷◌, eqb, if◌then◌else◌,
}
use brunova_knowledge_gatewa.Prelude.Text.{append, is_empty, len}
use brunova_knowledge_gatewa.Errors.{
  Code, Result, ok, err, adapter, artifact_reference_invalid, asset_reference_invalid,
  docx_anchor_invalid, document_image_reference_invalid, document_tab_reference_invalid,
  spreadsheet_sheet_reference_invalid,
}
use brunova_knowledge_gatewa.Json.{lookup}

-- An element of a JSON array, and a value of a JSON object, as far as they are looked at. A
-- `number` is one that is no non-negative integer.
pub data Item : Type 0 where
  index : ℕ → Item
  flag : Bool → Item
  something : Item

pub data Value : Type 0 where
  text number : String → Value
  natural : ℕ → Value
  boolean : Bool → Value
  array : List Item → Value
  other : Value

abbrev pub Claims : Type 0
Claims = List (String × Value)

-- What the codec calls, under its key.
pub record Vault : Type 1 where
  pub Nonce : Type 0
  pub Payload : Type 0
  pub Bytes : Type 0
  -- json.dumps(…).encode(), and json.loads where its result is a `dict`
  pub dumps : Claims → Payload
  pub loads : Payload → Option Claims
  -- AESGCM(key), with the associated data last
  pub encrypt : Nonce → Payload → String → Bytes
  pub decrypt : Nonce → Bytes → String → Option Payload
  -- nonce + encrypted, and (raw[:12], raw[12:])
  pub join : Nonce → Bytes → Bytes
  pub divide : Bytes → Nonce × Bytes
  -- base64.urlsafe_b64encode(…).decode() and its inverse
  pub encode64 : Bytes → String
  pub decode64 : String → Option Bytes
  -- whether a number that is no non-negative integer equals 1, as 1.0 does
  pub equals_one : String → Bool

-- ref[len(prefix):] if ref.startswith(prefix)
unfoldable pub after_prefix : String → String → Option String
after_prefix String.[] s = some s
after_prefix (String.◌∷◌ c p) String.[] = none
after_prefix (String.◌∷◌ c p) (String.◌∷◌ d s) =
    if eqb (code c) (code d) then after_prefix p s else none

-- s.rstrip("=")
unfoldable pub strip_padding : String → String
strip_padding String.[] = ""
strip_padding (String.◌∷◌ c s) =
    let rest = strip_padding s in
    if is_empty rest && eqb (code c) b'=' then "" else String.◌∷◌ c rest

-- "=" * n
unfoldable pub equal_signs : ℕ → String
equal_signs zero = ""
equal_signs (suc n) = String.◌∷◌ "=" (equal_signs n)

-- encoded + "=" * (-len(encoded) % 4)
unfoldable pub padded : String → String
padded encoded = append encoded (equal_signs ((4 - len encoded % 4) % 4))

infixl 5 ◌>>=◌ ◌>>◌
abbrev pub ◌>>=◌ {ℓ κ} : {A : Type ℓ} {B : Type κ} → Option A → (A → Option B) → Option B
none >>= f = none
some a >>= f = f a

abbrev pub ◌>>◌ {ℓ} : {B : Type ℓ} → Option (Unit {0}) → Option B → Option B
m >> rest = m >>= λ _. rest

abbrev pub check : Bool → Option (Unit {0})
check true = some tt
check false = none

abbrev text_of : Option Value → Option String
text_of (some (text s)) = some s
text_of _ = none

-- isinstance(value, str) and value
abbrev filled : Option Value → Option String
filled value = text_of value >>= λ s. if is_empty s then none else some s

abbrev pub is_text : Option Value → String → Bool
is_text (some (text s)) expected = s == expected
is_text _ expected = false

-- isinstance(i, int) and i >= 0, with `True` as the integer 1
abbrev pub indexes_of : List Item → Option (List ℕ)
indexes_of [] = some []
indexes_of (index i ∷ items) = indexes_of items >>= λ is. some (i ∷ is)
indexes_of (flag b ∷ items) = indexes_of items >>= λ is. some ((if b then 1 else 0) ∷ is)
indexes_of (something ∷ items) = none

abbrev array_of : Option Value → Option (List ℕ)
array_of (some (array items)) = indexes_of items
array_of _ = none

abbrev pub index_items : List ℕ → List Item
index_items [] = []
index_items (i ∷ is) = index i ∷ index_items is

-- payload.get("tab_id", "")
abbrev tab_or_empty : Option Value → Option String
tab_or_empty none = some ""
tab_or_empty value = text_of value

abbrev pub or_invalid {ℓ} : {A : Type ℓ} → Code → Option A → Result A
or_invalid code none = err (adapter code 403)
or_invalid code (some a) = ok a

-- the associated data of the six kinds
abbrev pub artifact_purpose : String
artifact_purpose = "brunova-artifact-ref"

abbrev pub asset_purpose : String
asset_purpose = "brunova-visual-asset-ref"

abbrev pub docx_anchor_purpose : String
docx_anchor_purpose = "brunova-docx-anchor-ref"

abbrev pub document_image_purpose : String
document_image_purpose = "brunova-document-image-ref"

abbrev pub tab_purpose : String
tab_purpose = "brunova-document-tab-ref"

abbrev pub sheet_purpose : String
sheet_purpose = "brunova-spreadsheet-sheet-ref"

module _ (vault : Vault) where
  -- the bytes of a reference
  abbrev pub raw_of : vault.Nonce → String → Claims → vault.Bytes
  raw_of nonce purpose claims = vault.join nonce (vault.encrypt nonce (vault.dumps claims) purpose)

  -- the end of every `encode`
  unfoldable pub token_of : vault.Nonce → String → Claims → String
  token_of nonce purpose claims = strip_padding (vault.encode64 (raw_of nonce purpose claims))

  -- the start of every `decode`, to the claims
  unfoldable pub opened : String → String → String → Option Claims
  opened prefix purpose ref = do
    encoded ← after_prefix prefix ref
    raw ← vault.decode64 (padded encoded)
    payload ← vault.decrypt (vault.divide raw).0 (vault.divide raw).1 purpose
    vault.loads payload

  -- claims.get("v") == 1; `True` and 1.0 equal 1
  unfoldable pub is_version_one : Option Value → Bool
  is_version_one (some (natural n)) = eqb n 1
  is_version_one (some (boolean b)) = b
  is_version_one (some (number t)) = vault.equals_one t
  is_version_one _ = false

  abbrev bound_to : String → Claims → Option (Unit {0})
  bound_to source_id claims =
      check (is_version_one (lookup "v" claims) && is_text (lookup "source_id" claims) source_id)

  abbrev bound_to_artifact : String → String → Claims → Option (Unit {0})
  bound_to_artifact source_id artifact_id claims = do
    bound_to source_id claims
    check (is_text (lookup "artifact_id" claims) artifact_id)

  abbrev pub artifact_claims : String → String → Claims
  artifact_claims source_id artifact_id =
      ("v", natural 1) ∷ ("source_id", text source_id) ∷ ("artifact_id", text artifact_id) ∷ []

  unfoldable pub encode : vault.Nonce → String → String → String
  encode nonce source_id artifact_id =
      append "artifact_" (token_of nonce artifact_purpose (artifact_claims source_id artifact_id))

  unfoldable pub decode : String → String → Result String
  decode artifact_ref source_id = or_invalid artifact_reference_invalid (do
    claims ← opened "artifact_" artifact_purpose artifact_ref
    bound_to source_id claims
    filled (lookup "artifact_id" claims))

  abbrev pub asset_claims : String → String → String → Claims
  asset_claims source_id artifact_id mime_type =
      ("v", natural 1)
      ∷ ("source_id", text source_id)
      ∷ ("artifact_id", text artifact_id)
      ∷ ("mime_type", text mime_type)
      ∷ []

  unfoldable pub encode_asset : vault.Nonce → String → String → String → String
  encode_asset nonce source_id artifact_id mime_type =
      append "asset_" (token_of nonce asset_purpose (asset_claims source_id artifact_id mime_type))

  unfoldable pub decode_asset : String → String → Result (String × String)
  decode_asset asset_ref source_id = or_invalid asset_reference_invalid (do
    claims ← opened "asset_" asset_purpose asset_ref
    bound_to source_id claims
    artifact_id ← filled (lookup "artifact_id" claims)
    mime_type ← filled (lookup "mime_type" claims)
    some (artifact_id, mime_type))

  abbrev pub docx_anchor_claims : String → String → String → String → List ℕ → Claims
  docx_anchor_claims source_id artifact_id part kind indexes =
      ("v", natural 1)
      ∷ ("source_id", text source_id)
      ∷ ("artifact_id", text artifact_id)
      ∷ ("part", text part)
      ∷ ("kind", text kind)
      ∷ ("indexes", array (index_items indexes))
      ∷ []

  unfoldable pub encode_docx_anchor :
      vault.Nonce → String → String → String → String → List ℕ → String
  encode_docx_anchor nonce source_id artifact_id part kind indexes = append "docx_anchor_" (
      token_of nonce docx_anchor_purpose
        (docx_anchor_claims source_id artifact_id part kind indexes))

  unfoldable pub decode_docx_anchor : String → String → String → Result (String × String × List ℕ)
  decode_docx_anchor anchor source_id artifact_id = or_invalid docx_anchor_invalid (do
    payload ← opened "docx_anchor_" docx_anchor_purpose anchor
    bound_to_artifact source_id artifact_id payload
    part ← text_of (lookup "part" payload)
    kind ← text_of (lookup "kind" payload)
    indexes ← array_of (lookup "indexes" payload)
    some (part, kind, indexes))

  abbrev pub document_image_claims : String → String → String → String → Claims
  document_image_claims source_id artifact_id object_id tab_id =
      ("v", natural 1)
      ∷ ("source_id", text source_id)
      ∷ ("artifact_id", text artifact_id)
      ∷ ("object_id", text object_id)
      ∷ ("tab_id", text tab_id)
      ∷ []

  unfoldable pub encode_document_image : vault.Nonce → String → String → String → String → String
  encode_document_image nonce source_id artifact_id object_id tab_id = append "doc_image_" (
      token_of nonce document_image_purpose
        (document_image_claims source_id artifact_id object_id tab_id))

  unfoldable pub decode_document_image : String → String → String → Result (String × String)
  decode_document_image image_ref source_id artifact_id =
      or_invalid document_image_reference_invalid (do
        payload ← opened "doc_image_" document_image_purpose image_ref
        bound_to_artifact source_id artifact_id payload
        object_id ← filled (lookup "object_id" payload)
        tab_id ← tab_or_empty (lookup "tab_id" payload)
        some (object_id, tab_id))

  abbrev pub tab_claims : String → String → String → Claims
  tab_claims source_id artifact_id tab_id =
      ("v", natural 1)
      ∷ ("source_id", text source_id)
      ∷ ("artifact_id", text artifact_id)
      ∷ ("tab_id", text tab_id)
      ∷ []

  unfoldable pub encode_tab : vault.Nonce → String → String → String → String
  encode_tab nonce source_id artifact_id tab_id =
      append "tab_" (token_of nonce tab_purpose (tab_claims source_id artifact_id tab_id))

  unfoldable pub decode_tab : String → String → String → Result String
  decode_tab tab_ref source_id artifact_id = or_invalid document_tab_reference_invalid (do
    claims ← opened "tab_" tab_purpose tab_ref
    bound_to_artifact source_id artifact_id claims
    filled (lookup "tab_id" claims))

  abbrev pub sheet_claims : String → String → String → Claims
  sheet_claims source_id artifact_id sheet_id =
      ("v", natural 1)
      ∷ ("source_id", text source_id)
      ∷ ("artifact_id", text artifact_id)
      ∷ ("sheet_id", text sheet_id)
      ∷ []

  unfoldable pub encode_sheet : vault.Nonce → String → String → String → String
  encode_sheet nonce source_id artifact_id sheet_id =
      append "sheet_" (token_of nonce sheet_purpose (sheet_claims source_id artifact_id sheet_id))

  unfoldable pub decode_sheet : String → String → String → Result String
  decode_sheet sheet_ref source_id artifact_id = or_invalid spreadsheet_sheet_reference_invalid (do
    claims ← opened "sheet_" sheet_purpose sheet_ref
    bound_to_artifact source_id artifact_id claims
    filled (lookup "sheet_id" claims))
