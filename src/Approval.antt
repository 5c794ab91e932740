-- ===== src/Approval.antt =====
-- app/openwa_approval.py: references of human approvals that are bound to one operation of OpenWA. The
-- SHA-256 digests of canonical JSON texts are parameters; `A` is the type of a tool's arguments.
pub mod Scope
use Prim.Native.Char.{Char, code}
use Prim.Native.String
use brunova_knowledge_gatewa.Prelude.{
  ℕ, zero, suc, String, ◌==◌, Bool, true, false, not, ◌&&◌, ◌||◌, Option, none, some, leb, eqb,
  if◌then◌else◌,
}
use brunova_knowledge_gatewa.Prelude.Text.{append, is_empty, strip, is_digit}
use brunova_knowledge_gatewa.Errors.{
  Result, ok, err, adapter, value_error, openwa_approval_required, openwa_approval_scope_mismatch,
}
use brunova_knowledge_gatewa.References.{after_prefix, ◌>>=◌}

-- [a-f0-9]
abbrev pub is_lower_hex : ℕ → Bool
is_lower_hex c = is_digit c || (leb b'a' c && leb c b'f')

-- s[:n]
unfoldable pub first : ℕ → String → String
first zero s = ""
first (suc n) String.[] = ""
first (suc n) (String.◌∷◌ c s) = String.◌∷◌ c (first n s)

-- ([a-f0-9]{n}), with what follows
unfoldable pub hex_block : ℕ → String → Option (String × String)
hex_block zero s = some ("", s)
hex_block (suc n) String.[] = none
hex_block (suc n) (String.◌∷◌ c s) = elim (hex_block n s) [
  | none ↦ none
  | some (block, rest) ↦ if is_lower_hex (code c) then some (String.◌∷◌ c block, rest) else none
]

abbrev pub at_end : String × String → Option String
at_end (scope, rest) = if is_empty rest then some scope else none

-- _PATTERN.fullmatch: the thread, the confirmation and the scope
unfoldable pub full_match : String → Option (String × String × String)
unfolding after_prefix hex_block
full_match reference = after_prefix "owa1:" reference >>= λ s. hex_block 16 s >>= λ thread.
    after_prefix ":" thread.1 >>= λ s'. hex_block 16 s' >>= λ confirmation.
    after_prefix ":" confirmation.1 >>= λ s''.
    hex_block 64 s'' >>= λ scope. at_end scope >>= λ end. some (thread.0, confirmation.0, end)

-- `_digest` of a text, and of the list of a thread, a confirmation, a tool and its arguments
pub record Digests (A : Type 0) : Type 0 where
  pub of_text : String → String
  pub of_scope : String → String → String → A → String

module _ {A : Type 0} (digests : Digests A) where
  abbrev pub short : String → String
  short s = first 16 (digests.of_text s)

  abbrev pub reference_of : String → String → String → A → String
  reference_of thread confirmation tool arguments = append "owa1:" (
      append thread (
        append ":"
          (append confirmation (append ":" (digests.of_scope thread confirmation tool arguments)))))

  unfoldable pub reference_for_confirmed_operation : String → String → String → A → Result String
  unfolding first strip
  reference_for_confirmed_operation thread_id confirmation_id tool arguments =
      if is_empty (strip thread_id) || is_empty (strip confirmation_id)
      then err value_error
      else ok (reference_of (short thread_id) (short confirmation_id) tool arguments)

  abbrev pub check_scope_of :
      String → String → A → Option (String × String × String) → Result String
  check_scope_of reference tool arguments none = err (adapter openwa_approval_required 403)
  check_scope_of reference tool arguments (some (thread, confirmation, scope)) =
      if scope == digests.of_scope thread confirmation tool arguments
      then ok reference
      else err (adapter openwa_approval_scope_mismatch 403)

  -- A value that is no text is `none`. The texts that are compared are hexadecimal, for which
  -- `hmac.compare_digest` is equality.
  unfoldable pub validate_reference : Option String → String → A → Result String
  unfolding full_match
  validate_reference none tool arguments = err (adapter openwa_approval_required 403)
  validate_reference (some reference) tool arguments =
      check_scope_of reference tool arguments (full_match reference)
