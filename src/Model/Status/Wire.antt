-- ===== src/Model/Status/Wire.antt =====
-- The wire texts of `OrderStatus`, and its groups.
use package.tossinvest_rust.Common.{String, ◌≡◌, refl, ◌↔◌, true, false, none, some, arith}
use mathlib.Core.Bool.{false≢true}
use package.tossinvest_rust.Model.OpenEnum.{as_wire-from_wire}
use package.tossinvest_rust.Model.Status.{
  OrderStatus, unknown, status_wire, status_variants, status_from, is_known, is_open, is_terminal,
  open_group, closed_group, group,
}

-- Reading any status text and writing it back gives that text, and a known status is written and
-- read back as itself.
pub status_roundtrip :
    ((s : String) → status_wire (status_from s) ≡ s)
    × ((v : OrderStatus) → is_known v ≡ true → status_from (status_wire v) ≡ v)
unfolding status_from status_wire is_known
status_roundtrip = (as_wire-from_wire status_wire unknown (λ s. refl) status_variants, known)
  where
    known : (v : OrderStatus) → is_known v ≡ true → status_from (status_wire v) ≡ v
    known (unknown s) h = absurd (false≢true h)
    known _ h = refl

-- Every status is exactly one of open, terminal and unknown, and `group` names which.
pub group-cases :
    (s : OrderStatus)
    → ((group s ≡ some open_group) ↔ (is_open s ≡ true))
      × ((group s ≡ some closed_group) ↔ (is_terminal s ≡ true))
      × ((group s ≡ none) ↔ (is_known s ≡ false))
unfolding group is_open is_terminal is_known
group-cases s = ground arith
