-- ===== src/Tests/Approval.antt =====
-- An approval of sending one message, tried on another tool.
use brunova_knowledge_gatewa.Prelude.{
  String, ◌==◌, ◌≡◌, refl, true, false, some, arith, if◌then◌else◌,
}
use brunova_knowledge_gatewa.Prelude.Text.{is_space}
use brunova_knowledge_gatewa.Errors.{ok, err, adapter, Code}
use brunova_knowledge_gatewa.Approval.{
  Digests, reference_for_confirmed_operation, validate_reference,
}
use brunova_knowledge_gatewa.Approval.Scope.{
  IsHex, AreHex, validate_reference-reference_for_confirmed_operation,
}

abbrev a64 : String
a64 = "aaaaaaaaaaaaaaaaaaaaaaaaaaaaaaaaaaaaaaaaaaaaaaaaaaaaaaaaaaaaaaaa"

abbrev b64 : String
b64 = "bbbbbbbbbbbbbbbbbbbbbbbbbbbbbbbbbbbbbbbbbbbbbbbbbbbbbbbbbbbbbbbb"

-- two digests: that of scopes for the tool "send", and another
abbrev digests : Digests String
digests = record {
  of_text = λ s. a64;
  of_scope = λ thread confirmation tool arguments. if tool == "send" then a64 else b64;
}

scope-IsHex : (tool : String) → IsHex 64 (if tool == "send" then a64 else b64)
scope-IsHex tool = elim (tool == "send") as (λ b. IsHex 64 (if b then a64 else b64)) [
  | true ↦ hex_a
  | false ↦ hex_b
]
  where
    hex_a : IsHex 64 a64
    hex_a = ground arith

    hex_b : IsHex 64 b64
    hex_b = ground arith

digests-AreHex : AreHex digests
digests-AreHex = record {
  text_hex = λ s. scope-IsHex "send";
  scope_hex = λ thread confirmation tool arguments. scope-IsHex tool;
}

abbrev reference : String
reference =
    "owa1:aaaaaaaaaaaaaaaa:aaaaaaaaaaaaaaaa:aaaaaaaaaaaaaaaaaaaaaaaaaaaaaaaaaaaaaaaaaaaaaaaaaaaaaaaaaaaaaaaa"

made : reference_for_confirmed_operation digests "c1" "m1" "send" "hello" ≡ ok reference
unfolding reference_for_confirmed_operation is_space
made = refl

validate_reference-reference_for_confirmed_operation_example :
    (validate_reference digests (some reference) "delete" "hello"
      ≡ err (adapter Code.openwa_approval_scope_mismatch 403))
    × (validate_reference digests (some reference) "send" "hello" ≡ ok reference)
validate_reference-reference_for_confirmed_operation_example =
    validate_reference-reference_for_confirmed_operation digests digests-AreHex "c1" "m1" "send"
      "delete" "hello" "hello" reference made
