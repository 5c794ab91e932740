-- ===== src/Approval/Scope.antt =====
-- What a reference of app/openwa_approval.py approves.
use Prim.Native.Char.{code}
use text.Mathlib.TextLemmas.{nil-append, cons-append, append-nil}
use brunova_knowledge_gatewa.Prelude.{
  ℕ, zero, suc, ◌≤◌, String, ◌==◌, ◌≡◌, ◌≢◌, eq_refl, sym, ap, ◌∙◌, true, ◌||◌, some, arith,
  Bool-cases, inl, inr, if◌then◌else◌,
}
use brunova_knowledge_gatewa.Prelude.Text.{append, is_empty, strip}
use brunova_knowledge_gatewa.Errors.{
  ok, err, adapter, value_error, ok-injective, openwa_approval_scope_mismatch,
}
use brunova_knowledge_gatewa.References.Sealing.{after_prefix-append}
use brunova_knowledge_gatewa.Approval.{
  is_lower_hex, first, hex_block, full_match, Digests, short, reference_of,
  reference_for_confirmed_operation, check_scope_of, validate_reference,
}

-- A text of `n` lower-case hexadecimal digits.
abbrev pub IsHex : ℕ → String → Type 0
IsHex zero String.[] = Unit
IsHex zero (String.◌∷◌ c s) = ⊥
IsHex (suc n) String.[] = ⊥
IsHex (suc n) (String.◌∷◌ c s) = (is_lower_hex (code c) ≡ true) × IsHex n s

hex_block-append :
    (n : ℕ) (block rest : String)
    → IsHex n block
    → hex_block n (append block rest) ≡ some (block, rest)
unfolding hex_block
hex_block-append zero String.[] rest h = ap (λ s. some ("", s)) (nil-append rest)
hex_block-append (suc n) (String.◌∷◌ c s) rest (digit, h) =
    rw (cons-append c s rest, hex_block-append n s rest h, digit)
hex_block-append zero (String.◌∷◌ c s) rest h = elim h [ ]
hex_block-append (suc n) String.[] rest h = elim h [ ]

-- the first digits of a longer text
IsHex-first : (n m : ℕ) (s : String) → n ≤ m → IsHex m s → IsHex n (first n s)
unfolding first
IsHex-first zero m s short h = tt
IsHex-first (suc n) zero s short h = absurd (omega arith)
IsHex-first (suc n) (suc m) String.[] short h = elim h [ ]
IsHex-first (suc n) (suc m) (String.◌∷◌ c s) short (digit, h) =
    (digit, IsHex-first n m s (omega arith) h)

-- The digests of SHA-256 are 64 lower-case hexadecimal digits.
pub record AreHex {A : Type 0} (digests : Digests A) : Type 0 where
  pub text_hex : (s : String) → IsHex 64 (digests.of_text s)
  pub scope_hex :
      (thread confirmation tool : String) (arguments : A)
      → IsHex 64 (digests.of_scope thread confirmation tool arguments)

no_reference : {reference : String} → err value_error ≢ ok reference
no_reference h = cc

module _ {A : Type 0} (digests : Digests A) where
  full_match-reference_of :
      (thread confirmation tool : String) (arguments : A)
      → IsHex 16 thread
      → IsHex 16 confirmation
      → IsHex 64 (digests.of_scope thread confirmation tool arguments)
      → full_match (reference_of digests thread confirmation tool arguments)
        ≡ some (thread, confirmation, digests.of_scope thread confirmation tool arguments)
  unfolding full_match
  full_match-reference_of thread confirmation tool arguments ht hc hs =
      let scope : String = digests.of_scope thread confirmation tool arguments in
      let last : hex_block 64 scope ≡ some (scope, "") =
        ap (hex_block 64) (sym (append-nil scope)) ∙ hex_block-append 64 scope "" hs in
      rw (
        after_prefix-append "owa1:"
            (append thread (append ":" (append confirmation (append ":" scope)))),
        hex_block-append 16 thread (append ":" (append confirmation (append ":" scope))) ht,
        after_prefix-append ":" (append confirmation (append ":" scope)),
        hex_block-append 16 confirmation (append ":" scope) hc,
        after_prefix-append ":" scope,
        last,
      )

  -- A reference that was made for a confirmed operation is accepted for an operation exactly if the
  -- digests of the two scopes agree, and is refused with 403 otherwise; for the operation that it was
  -- made for it is accepted. It is assumed that a digest is 64 lower-case hexadecimal digits.
  pub validate_reference-reference_for_confirmed_operation :
      (hex : AreHex digests) (thread_id confirmation_id tool other_tool : String)
      (arguments other_arguments : A) (reference : String)
      → reference_for_confirmed_operation digests thread_id confirmation_id tool arguments
        ≡ ok reference
      → (validate_reference digests (some reference) other_tool other_arguments ≡ (
          if digests.of_scope
              (short digests thread_id)
              (short digests confirmation_id)
              tool
              arguments
            == digests.of_scope
                (short digests thread_id)
                (short digests confirmation_id)
                other_tool
                other_arguments
          then ok reference
          else err (adapter openwa_approval_scope_mismatch 403)))
        × (validate_reference digests (some reference) tool arguments ≡ ok reference)
  unfolding reference_for_confirmed_operation validate_reference
  validate_reference-reference_for_confirmed_operation hex thread_id confirmation_id tool other_tool
        arguments other_arguments reference h =
      elim (Bool-cases (is_empty (strip thread_id) || is_empty (strip confirmation_id))) [
        | inl missing ↦ absurd (no_reference (rw (missing, reference_for_confirmed_operation) at h))
        | inr given ↦
            let thread : String = short digests thread_id in
            let confirmation : String = short digests confirmation_id in
            let same : reference_of digests thread confirmation tool arguments ≡ reference =
              ok-injective (rw (given, reference_for_confirmed_operation) at h) in
            let matches_it : full_match reference
                ≡ some (thread, confirmation, digests.of_scope thread confirmation tool arguments) =
              ap full_match (sym same)
              ∙ full_match-reference_of thread confirmation tool arguments
                  (IsHex-first 16 64 (digests.of_text thread_id) (omega arith)
                    (hex.text_hex thread_id))
                  (IsHex-first 16 64 (digests.of_text confirmation_id) (omega arith)
                    (hex.text_hex confirmation_id))
                  (hex.scope_hex thread confirmation tool arguments) in
            (
              ap (check_scope_of digests reference other_tool other_arguments) matches_it,
              ap (check_scope_of digests reference tool arguments) matches_it
                  ∙ rw (eq_refl (digests.of_scope thread confirmation tool arguments)),
            )
      ]
