-- ===== src/Tests.antt =====
-- Tests of the models at concrete inputs.
mod Runtime
mod Casts
mod Fields
mod Codecs
mod Curves
mod Validity
mod Hashes
mod Aligned
mod Chain
mod Conformance
mod Messages
mod Context
mod Calls
mod Nested
mod Progress
mod Inherited
mod Runs
mod Coins
mod Schnorr
