-- ===== src/Model/OpenEnum.antt =====
-- crates/tossinvest-model/src/enum_macro.rs: what the macro `open_enum!` expands to, over the
-- variants of one enum, the wire text of each, and the constructor of its `Unknown` tail.
use package.tossinvest_rust.Common.{String, ◌≡◌, ite, List, [], ◌∷◌, arith, String-discrete}

module _ {E : Type 0} (as_wire : E → String) (unknown : String → E) where
  -- `From<&str>`: the arms of the `match` in order, then `other => Unknown(other)`.
  unfoldable pub from_wire : List E → String → E
  from_wire [] s = unknown s
  from_wire (v ∷ vs) s = ite (String-discrete (as_wire v) s) v (from_wire vs s)

  -- Whatever the variants are, reading a text and writing it back gives the same text.
  pub as_wire-from_wire :
      ((s : String) → as_wire (unknown s) ≡ s)
      → (vs : List E) (s : String) → as_wire (from_wire vs s) ≡ s
  unfolding from_wire
  as_wire-from_wire keeps [] s = keeps s
  as_wire-from_wire keeps (v ∷ vs) s = ground (arith, as_wire-from_wire keeps vs s)
