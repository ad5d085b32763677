-- ===== src/Lib.antt =====
-- The Compact runtime: the library that the code generated from a Compact contract calls.
--
-- The program. A contract computes on values of its types; the ledger and the proof system see
-- each value as a list of byte atoms with an alignment, a list of segments. A runtime type
-- (runtime/src/compact-types.ts) carries an alignment, an encoder `toValue` and a decoder
-- `fromValue`. The hash functions take the binary representation of a value, which `toBinaryRepr`
-- makes of its encoding. The casts of the language between numbers and bytes are in
-- runtime/src/casts.ts, and the arithmetic of the native and the foreign fields in
-- runtime/src/built-ins.ts.
--
-- A circuit runs in a circuit context (runtime/src/circuit-context.ts): it queries the state of its
-- contract, which records a transcript, creates coins (runtime/src/zswap.ts) and calls circuits of
-- other contracts (runtime/src/contract.ts). A call loads the callee's module from a provider,
-- compares its signatures with the declared contract type (runtime/src/conformance.ts) and the
-- fingerprints of its keys with the deployed ones, enters the callee's query context, runs it,
-- hands the context back, and claims the call on the caller's transcript.
--
-- Which file models which part:
--   Constants        runtime/src/constants.ts: the moduli and the largest numbers of the fields.
--   Casts            runtime/src/casts.ts, every function. Casts/Store and Casts/Load say what the
--                    functions return, Casts/RoundTrip how they go together.
--   Codec            runtime/src/compact-types.ts: atoms, values, alignments and `CompactType`, a
--                    record of the alignment, `to_value` and `from_value`. A decoder of the source
--                    takes its atoms off the value that it is given; here it returns the rest.
--     Codec/Ocrt       the functions of the onchain runtime that the codecs call, as a parameter.
--     Codec/Laws       `IsCodec`, what every runtime type promises.
--     Codec/Field      `CompactTypeField`, which `CompactTypeJubjubScalar` is another name of.
--     Codec/Foreign    `ForeignField8_24`, its five instances, and `CompactTypeCurve25519Scalar`.
--     Codec/Scalar     enums, unsigned integers, Booleans, bytes and opaque values.
--     Codec/Point      the points of the four curves.
--     Codec/Composite  vectors and Merkle tree paths, over the codecs of their parts.
--     Codec/Binary     `toBinaryRepr`.
--   Fields           runtime/src/built-ins.ts: `addField`, `subField` and `mulField` in
--                    Fields/Native, and the thirty operations of the foreign fields in one file for
--                    each curve; Fields names them by their field.
--   Curves           the addition, the multiplication and the coordinates of points in
--                    runtime/src/built-ins.ts, with the conversions of runtime/src/utils.ts.
--                    Curves/Library is the curve library as a parameter; Curves/Group and
--                    Curves/Edwards hold the laws of the secp256 curves, whose code is the same for
--                    the two, and of Curve25519; Curves/Checks the tests for points and the recovery
--                    of ECDSA keys of runtime/src/utils.ts, which Curves/Validity, Curves/Subgroup
--                    and Curves/Recovery are about.
--   Aligned          `alignedConcat` of runtime/src/built-ins.ts.
--   Hashes           the hash functions of runtime/src/built-ins.ts: the type's encoding or binary
--                    representation, the library's function, and what is made of its result.
--   Signature        runtime/src/interface-descriptor.ts: the types of circuits, as mutual data.
--   Conformance      runtime/src/conformance.ts. Conformance/Outcome is about its verdicts,
--                    Conformance/Own about a module and its own interface.
--   Resolution       runtime/src/verifier-key-hash.ts and the failures of
--                    runtime/src/module-resolution.ts; Resolution/Messages has their texts, of
--                    which Resolution/Kinds reads the kind again.
--   Errors           runtime/src/error.ts: the assertions, the text of a type error, and the tests
--                    that recognize errors.
--   Zswap            the types of runtime/src/zswap.ts and their encoding.
--   Context          runtime/src/circuit-context.ts and proof-data.ts: the state, and the monad of
--                    functions that change it and may throw. Context/Create constructs it, and
--                    the contexts of runtime/src/constructor-context.ts; Context/Query is
--                    `queryLedgerState`, Context/Query/Invariant the invariant of a circuit that
--                    runs; Context/Steps has the rules for chains of steps.
--   Calls            runtime/src/contract.ts: Calls/Resolve has the module and its keys,
--                    Calls/Enter the callee's state, Calls/Claim the claim, Calls/Check the checks
--                    that come first, Calls/Cross `crossContractCall` as `cross_contract_call`.
--                    Calls/Nested ties calls within calls, to a depth; Calls/Progress has the steps
--                    that return; Calls/Runs the runs of circuits as a step relation over the
--                    operations of Context, Coins and Calls. The other files prove.
--   Coins            the operations of runtime/src/zswap.ts on a context that runs.
--   Schnorr          the JubJub operations of runtime/src/built-ins.ts and the Schnorr signatures of
--                    runtime/src/utils.ts; Schnorr/Laws has what is documented of the embedded
--                    curve.
--   Base             what the files share: lists, machine numbers, bytes and the results of functions
--                    that may throw.
--   Tests            the models at concrete inputs, with a concrete field encoding, a
--                    concrete curve of two points and a small ledger of two contracts.
--
-- Choices. A `bigint` is an integer, a byte array a list of numbers, and the hypotheses say where
-- its elements are below 256. A function that throws returns an error with the parts of its
-- message. The shifts and masks of 32-bit numbers are written out. Every loop is a structural
-- recursion on the number of rounds that are left, on a list or on an index, so there is no fuel.
-- Calls within calls are nested to a depth that is a number, and Calls/Nested/Settled says which depth
-- is enough.
-- A query context is an object that several places refer to and that a call changes in place, so it
-- is a number, a place in the list of all query contexts; that list and the set of active contracts
-- are the `World`, which all circuits of a transaction share. The rest of a circuit context is
-- copied when a circuit starts, as `copyCircuitContext` does. A circuit of another module is a
-- function of its arguments, its context and the world. The circuits of a module are a plain object,
-- which has the members of `Object.prototype` besides its own. A promise is what it comes to, and what the
-- clock and the random generator return is an argument.
--
-- Not modelled. The functions of the onchain runtime, of the curve and of the hash libraries, and
-- the platform's UTF-8, are parameters with their documented behaviour as hypotheses. So are the
-- application's module and state providers; a state provider that rejects is left out. The witnesses
-- that a callee must not call are part of its circuit. A context of the ledger's read accessors,
-- with no address, no maps and no set of active contracts, is left out. Casts are modelled on numbers that are not negative. The compiler (Scheme)
-- and the tools (Rust) are other programs.
pub mod Base
pub mod Constants
pub mod Casts
pub mod Codec
pub mod Signature
pub mod Conformance
pub mod Resolution
pub mod Errors
pub mod Zswap
pub mod Context
pub mod Calls
pub mod Coins
pub mod Schnorr
pub mod Fields
pub mod Aligned
pub mod Curves
pub mod Hashes
pub mod Tests
