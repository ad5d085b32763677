-- ===== src/Codec.antt =====
-- runtime/src/compact-types.ts: the runtime types of Compact, each an encoder into field-aligned
-- binary values and a decoder. The types stand in the children.
pub mod Ocrt
pub mod Laws
pub mod Field
pub mod Foreign
pub mod Scalar
pub mod Point
pub mod Composite
pub mod Binary
use compact.Base.{ℕ, Result, List, String}

-- A value is a list of atoms, and an atom a list of bytes.
abbrev pub Atom : Type 0
Atom = List ℕ

abbrev pub Value : Type 0
Value = List Atom

pub data AlignmentAtom : Type 0 where
  compress field : AlignmentAtom
  bytes : ℕ → AlignmentAtom

-- A segment that is no atom is known by its tag alone, which is all that the code reads of it.
pub data AlignmentSegment : Type 0 where
  atom : AlignmentAtom → AlignmentSegment
  tagged : String → AlignmentSegment

abbrev pub Alignment : Type 0
Alignment = List AlignmentSegment

-- The interface `CompactType`. A decoder takes atoms off the front of a value that the caller
-- shares with it, so it returns what it left.
pub record CompactType (A : Type 0) : Type 0 where
  pub alignment : Alignment
  pub to_value : A → Result Value
  pub from_value : Value → Result (A × Value)
