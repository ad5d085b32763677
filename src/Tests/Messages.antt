-- ===== src/Tests/Messages.antt =====
-- The message of a resolution error, and the descriptions of failures.
use compact.Errors.{type_error, assert, is_compact_error, thrown_object}
use compact.Base.{◌≡◌, refl, some, [], ◌∷◌, ◌==◌, if◌then◌else◌, message, err, true}
use compact.Conformance.{argument_type}
use compact.Resolution.{
  ModuleResolutionContext, nonconformant_implementation, incomplete_module, contract_export,
  expected_vk_export, error,
}
use compact.Resolution.Messages.{describe_failure, resolution_message}

-- A call of `get` at address `b` from address `a`.
abbrev example_call : ModuleResolutionContext
example_call = record {
  callee_address = "b";
  callee_circuit_id = "get";
  interface_name = "Store";
  caller_address = "a";
}

message_of_argument :
    resolution_message example_call (nonconformant_implementation "get" argument_type (some 12))
    ≡ "Cross-contract call from 'a' to 'get' at 'b' through contract type 'Store' could not be bound to an implementation: the resolved module does not implement the contract type: circuit 'get' argument 12 has a different type."
unfolding resolution_message describe_failure
message_of_argument = refl

message_of_exports :
    describe_failure (incomplete_module (contract_export ∷ expected_vk_export ∷ []))
    ≡ "the resolved module does not export Contract, expectedVk; it was built before dynamic resolution"
unfolding describe_failure
message_of_exports = refl

message_of_type :
    type_error (λ n. if n == 3 then "3n" else "?") "f" "argument 1" "a.compact line 2" "Boolean" 3
    ≡ message
        "type error: f argument 1 at a.compact line 2; expected value of type Boolean but received 3n"
unfolding type_error
message_of_type = refl

failed_assertion : assert (3 == 4) "no" ≡ err (message "failed assert: no")
unfolding assert
failed_assertion = refl

recognized : is_compact_error (thrown_object (error (message "no"))) ≡ true
unfolding is_compact_error thrown_object
recognized = refl
