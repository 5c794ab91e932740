-- ===== src/Tests/References.antt =====
-- References that are sealed by a stand-in for AES-GCM, and read back.
use brunova_knowledge_gatewa.Prelude.{
  String, ◌==◌, ◌≡◌, ◌≢◌, refl, Option, none, some, [], ◌∷◌, arith, eq_iff, if◌then◌else◌,
}
use text.Mathlib.TextPositions.{eq_refl}
use brunova_knowledge_gatewa.Errors.{ok}
use brunova_knowledge_gatewa.References.{
  Vault, Claims, artifact_purpose, docx_anchor_purpose, sheet_purpose, strip_padding, equal_signs,
  Value, Item, encode_sheet, decode_sheet,
}
use brunova_knowledge_gatewa.References.Sealing.{IsVault, IsBase64}
use brunova_knowledge_gatewa.References.Binding.{decode_sheet-encode_sheet}

-- A ciphertext shows what it is of; the one text of base64 stands for the bytes that are given.
abbrev decrypt : Claims × String → String → Option Claims
decrypt (claims, purpose) another = if purpose == another then some claims else none

abbrev vault : Claims × String → Vault
vault raw = record {
  Nonce = Unit {0};
  Payload = Claims;
  Bytes = Claims × String;
  dumps = λ claims. claims;
  loads = some;
  encrypt = λ nonce claims purpose. (claims, purpose);
  decrypt = λ nonce bytes purpose. decrypt bytes purpose;
  join = λ nonce bytes. bytes;
  divide = λ bytes. (tt, bytes);
  encode64 = λ bytes. "QUJDRA==";
  decode64 = λ t. if t == "QUJDRA==" then some raw else none;
  equals_one = λ t. t == "1.0";
}

decrypted : (purpose : String) (claims : Claims) → decrypt (claims, purpose) purpose ≡ some claims
decrypted purpose claims = rw (eq_refl purpose)

refused :
    (claims : Claims) (purpose another : String)
    → purpose ≢ another
    → decrypt (claims, purpose) another ≡ none
refused claims purpose another h = ground (arith, eq_iff purpose another, h)

vault-IsVault : (raw : Claims × String) → IsVault (vault raw)
vault-IsVault raw = record {
  loads-dumps = λ claims. refl;
  divide-join = λ nonce bytes. refl;
  decrypt-encrypt = λ nonce claims purpose. decrypted purpose claims;
  refused = λ nonce claims purpose another h. refused claims purpose another h;
}

vault-IsBase64 : (raw : Claims × String) → IsBase64 (vault raw) raw
unfolding strip_padding equal_signs
vault-IsBase64 raw = record {
  body = "QUJDRA";
  signs = 2;
  padding = refl;
  few = omega arith;
  unpadded = refl;
  quads = refl;
  decoded = refl;
}

abbrev report : Claims × String
report = (
  ("v", Value.natural 1) ∷ ("source_id", Value.text "s") ∷ ("artifact_id", Value.text "a") ∷ [],
  artifact_purpose,
)

abbrev anchor : Claims × String
anchor = (
  ("v", Value.natural 1)
      ∷ ("source_id", Value.text "s")
      ∷ ("artifact_id", Value.text "a")
      ∷ ("part", Value.text "word/document.xml")
      ∷ ("kind", Value.text "paragraph")
      ∷ ("indexes", Value.array (Item.index 4 ∷ []))
      ∷ [],
  docx_anchor_purpose,
)

abbrev sheet : Claims × String
sheet = (
  ("v", Value.natural 1)
      ∷ ("source_id", Value.text "s")
      ∷ ("artifact_id", Value.text "a")
      ∷ ("sheet_id", Value.text "7")
      ∷ [],
  sheet_purpose,
)

decode_sheet-encode_sheet_example :
    decode_sheet (vault sheet) (encode_sheet (vault sheet) tt "s" "a" "7") "s" "a" ≡ ok "7"
decode_sheet-encode_sheet_example =
    decode_sheet-encode_sheet (vault sheet) (vault-IsVault sheet) tt "s" "a" "7"
      (vault-IsBase64 sheet) "s" "a"
