-- ===== src/Base/Text/Append.antt =====
-- Two ways to cut one text.
use mathlib.Core.Path.{◌≡◌, refl, sym}
use mathlib.Core.List.{[], ◌∷◌, ◌++◌}
use Prim.Native.Nat.{◌≤◌}
use native.Mathlib.Omega.{arith}
use rototo.Base.Lists.{length}
use rototo.Base.Text.Split.{Bytes}

-- Of two cuts the one further left leaves the longer rest.
pub append_cut :
    (a b c d : Bytes)
    → a ++ b ≡ c ++ d
    → length c ≤ length a
    → (y : Bytes) × (a ≡ c ++ y) × (d ≡ y ++ b)
append_cut a b [] d e h = (a, refl, sym e)
append_cut [] b (x ∷ c) d e h = absurd (omega arith)
append_cut (w ∷ a) b (x ∷ c) d e h =
    let (y, same, rest) = append_cut a b c d (ground arith) (omega arith) in (y, ground arith, rest)
