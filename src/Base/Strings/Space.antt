-- ===== src/Base/Strings/Space.antt =====
-- `strings.TrimSpace`, `strings.HasPrefix`, `strings.HasSuffix` and `strings.Join`.
use Prim.Native.Nat.{ℕ}
use mathlib.Core.Bool.{Bool, true, false, ◌&&◌, ◌||◌}
use mathlib.Core.List.{List, [], ◌∷◌, ◌++◌}
use mathlib.Core.Path.{◌≡◌}
use native.Mathlib.Omega.{arith}
use envd.Base.Tests.{leb, ◌==◌, if◌then◌else◌}
use envd.Base.Text.{Text}
use envd.Base.Lists.{All}

-- `unicode.IsSpace`, and bufio's own table, which is the same.
unfoldable pub is_space : ℕ → Bool
is_space c =
    c == b' '
    || (leb 9 c && leb c 13)
    || c == 0x85
    || c == 0xa0
    || c == 0x1680
    || (leb 0x2000 c && leb c 0x200a)
    || c == 0x2028
    || c == 0x2029
    || c == 0x202f
    || c == 0x205f
    || c == 0x3000

unfoldable pub trim_left : Text → Text
trim_left [] = []
trim_left (c ∷ cs) = let rest = trim_left cs in if is_space c then rest else c ∷ cs

abbrev pub keep_unless_last : Bool → ℕ → Text → Text
keep_unless_last true c [] = []
keep_unless_last _ c cs = c ∷ cs

unfoldable pub trim_right : Text → Text
trim_right [] = []
trim_right (c ∷ cs) = keep_unless_last (is_space c) c (trim_right cs)

unfoldable pub trim_space : Text → Text
trim_space t = trim_left (trim_right t)

-- `strings.HasPrefix(s, p)`
unfoldable pub has_prefix : Text → Text → Bool
has_prefix s [] = true
has_prefix [] (x ∷ p) = false
has_prefix (c ∷ s) (x ∷ p) = c == x && has_prefix s p

-- `strings.Join(l, sep)`
unfoldable pub join : Text → List Text → Text
join sep [] = []
join sep (w ∷ []) = w
join sep (w ∷ v ∷ ws) = w ++ (sep ++ join sep (v ∷ ws))

-- A text with no space in it.
abbrev pub IsSolid : Text → Type 0
IsSolid = All (λ c. is_space c ≡ false)

-- A word, as `bufio.ScanWords` gives them.
abbrev pub IsWord : Text → Type 0
IsWord [] = ⊥
IsWord (c ∷ cs) = (is_space c ≡ false) × IsSolid cs

pub trim_right-cons :
    (c : ℕ) (cs : Text) → is_space c ≡ false → trim_right (c ∷ cs) ≡ c ∷ trim_right cs
unfolding trim_right
trim_right-cons c cs h = ground arith

pub trim_left-cons : (c : ℕ) (cs : Text) → is_space c ≡ false → trim_left (c ∷ cs) ≡ c ∷ cs
unfolding trim_left
trim_left-cons c cs h = ground arith

pub trim_space-cons :
    (c : ℕ) (cs : Text) → is_space c ≡ false → trim_space (c ∷ cs) ≡ c ∷ trim_right cs
unfolding trim_space
trim_space-cons c cs h = ground (arith, trim_right-cons c cs, trim_left-cons c (trim_right cs))

-- Two blanks in front of a line are trimmed.
pub trim_space-indent :
    (c : ℕ) (cs : Text) → is_space c ≡ false → trim_space (b' ' ∷ b' ' ∷ c ∷ cs) ≡ c ∷ trim_right cs
unfolding trim_space
trim_space-indent c cs h =
    unfold trim_right trim_left is_space in ground (arith, trim_left-cons c (trim_right cs) h)
