-- ===== src/References/Sealing.antt =====
-- What a sealed reference of app/artifact_refs.py opens to: base64 without its padding, encrypted for
-- one purpose.
use text.Mathlib.TextLemmas.{nil-append, cons-append}
use brunova_knowledge_gatewa.Prelude.{
  ℕ, zero, suc, ◌+◌, ◌-◌, ◌%◌, ◌≤◌, String, ◌≡◌, ◌≢◌, refl, sym, ap, ◌∙◌, none, some, arith,
}
use brunova_knowledge_gatewa.Prelude.Text.{append, len}
use brunova_knowledge_gatewa.References.{
  Vault, Claims, after_prefix, strip_padding, equal_signs, padded, ◌>>=◌, raw_of, token_of, opened,
}

-- What the documentation of `cryptography` and `json` promises: what was encrypted is decrypted under the
-- same nonce and associated data, and refused under other data; what was written is read.
pub record IsVault (vault : Vault) : Type 0 where
  pub loads-dumps : (claims : Claims) → vault.loads (vault.dumps claims) ≡ some claims
  pub divide-join :
      (nonce : vault.Nonce) (bytes : vault.Bytes)
      → vault.divide (vault.join nonce bytes) ≡ (nonce, bytes)
  pub decrypt-encrypt :
      (nonce : vault.Nonce) (payload : vault.Payload) (purpose : String)
      → vault.decrypt nonce (vault.encrypt nonce payload purpose) purpose ≡ some payload
  pub refused :
      (nonce : vault.Nonce) (payload : vault.Payload) (purpose another : String)
      → purpose ≢ another
      → vault.decrypt nonce (vault.encrypt nonce payload purpose) another ≡ none

-- The base64 text of some bytes: of a length that 4 divides, with at most two `=`, all at its end, and
-- decoded to the bytes.
pub record IsBase64 (vault : Vault) (raw : vault.Bytes) : Type 0 where
  pub body : String
  pub signs : ℕ
  pub padding : vault.encode64 raw ≡ append body (equal_signs signs)
  pub few : signs ≤ 2
  pub unpadded : strip_padding body ≡ body
  pub quads : len (vault.encode64 raw) % 4 ≡ 0
  pub decoded : vault.decode64 (vault.encode64 raw) ≡ some raw

pub after_prefix-append : (p s : String) → after_prefix p (append p s) ≡ some s
unfolding after_prefix
after_prefix-append String.[] s = ap some (nil-append s)
after_prefix-append (String.◌∷◌ c p) s =
    rw (cons-append c p s) (ground (arith, after_prefix-append p s))

len-append : (s t : String) → len (append s t) ≡ len s + len t
len-append String.[] t = rw (nil-append t) (omega arith)
len-append (String.◌∷◌ c s) t = rw (cons-append c s t) (omega (arith, len-append s t))

len-equal_signs : (n : ℕ) → len (equal_signs n) ≡ n
unfolding equal_signs
len-equal_signs zero = refl
len-equal_signs (suc n) = ap suc (len-equal_signs n)

strip_padding-equal_signs : (n : ℕ) → strip_padding (equal_signs n) ≡ ""
unfolding strip_padding equal_signs
strip_padding-equal_signs zero = refl
strip_padding-equal_signs (suc n) = rw (strip_padding-equal_signs n)

strip_padding-append :
    (s : String) (n : ℕ) → strip_padding (append s (equal_signs n)) ≡ strip_padding s
unfolding strip_padding
strip_padding-append String.[] n =
    ap strip_padding (nil-append (equal_signs n)) ∙ strip_padding-equal_signs n
strip_padding-append (String.◌∷◌ c s) n =
    rw (cons-append c s (equal_signs n), strip_padding-append s n)

-- The padding that was stripped is put back.
padded-strip_padding :
    (s body : String) (n : ℕ)
    → s ≡ append body (equal_signs n)
    → n ≤ 2
    → strip_padding body ≡ body
    → len s % 4 ≡ 0
    → padded (strip_padding s) ≡ s
unfolding padded
padded-strip_padding s body n e few stripped quads =
    let bare : strip_padding s ≡ body =
      ap strip_padding e ∙ strip_padding-append body n ∙ stripped in
    let total : len s ≡ len body + n =
      ap len e ∙ len-append body (equal_signs n) ∙ ap (λ k. len body + k) (len-equal_signs n) in
    let missing : (4 - len body % 4) % 4 ≡ n = omega arith in
    rw bare (ap (λ k. append body (equal_signs k)) missing ∙ sym e)

module _ (vault : Vault) (law : IsVault vault) where
  module _ (nonce : vault.Nonce) (purpose : String) (claims : Claims)
      (base64 : IsBase64 vault (raw_of vault nonce purpose claims)) where
    back :
        padded (token_of vault nonce purpose claims)
        ≡ vault.encode64 (raw_of vault nonce purpose claims)
    unfolding token_of
    back =
        padded-strip_padding (vault.encode64 (raw_of vault nonce purpose claims)) base64.body
          base64.signs base64.padding base64.few base64.unpadded base64.quads

    opened_as :
        (prefix another : String)
        → opened vault prefix another (append prefix (token_of vault nonce purpose claims)) ≡ (
            vault.decrypt nonce (vault.encrypt nonce (vault.dumps claims) purpose) another
            >>= vault.loads)
    unfolding opened
    opened_as prefix another = rw (
      after_prefix-append prefix (token_of vault nonce purpose claims),
      back,
      base64.decoded,
      law.divide-join nonce (vault.encrypt nonce (vault.dumps claims) purpose),
    )

    -- A sealed reference opens, under its purpose, to what was sealed.
    pub opened-token_of :
        (prefix : String)
        → opened vault prefix purpose (append prefix (token_of vault nonce purpose claims))
          ≡ some claims
    opened-token_of prefix =
        opened_as prefix purpose
        ∙ rw (law.decrypt-encrypt nonce (vault.dumps claims) purpose) (law.loads-dumps claims)

    -- Under another purpose it does not open, whatever its prefix was changed to.
    pub opened-eq-none :
        (prefix another : String)
        → purpose ≢ another
        → opened vault prefix another (append prefix (token_of vault nonce purpose claims)) ≡ none
    opened-eq-none prefix another h =
        opened_as prefix another ∙ rw (law.refused nonce (vault.dumps claims) purpose another h)
