-- ===== src/Base/Strings/Lines.antt =====
-- `bufio.Scanner` with `ScanLines`.
use Prim.Native.Nat.{ℕ, ◌+◌}
use mathlib.Core.Bool.{Bool, true, false}
use mathlib.Core.List.{List, [], ◌∷◌, ◌++◌, map, append_assoc}
use mathlib.Core.Logic.{inl, inr}
use mathlib.Core.Path.{◌≡◌, refl, ap, ◌∙◌}
use native.Mathlib.Omega.{arith}
use envd.Base.Tests.{ltb, ◌==◌, if◌then◌else◌, Bool-cases}
use envd.Base.Text.{Text}
use envd.Base.Lists.{All}
use envd.Base.Strings.Space.{is_space, keep_unless_last, trim_right, trim_space}

abbrev push : ℕ → List Text → List Text
push c [] = (c ∷ []) ∷ []
push c (l ∷ ls) = (c ∷ l) ∷ ls

-- Cut at the newlines. There is no empty line after the last newline.
unfoldable pub cut_lines : Text → List Text
cut_lines [] = []
cut_lines (c ∷ cs) = let rest = cut_lines cs in if c == b'\n' then [] ∷ rest else push c rest

-- The bytes of a code point and of a text in UTF-8.
abbrev pub rune_len : ℕ → ℕ
rune_len c = if ltb c 0x80 then 1 else if ltb c 0x800 then 2 else if ltb c 0x10000 then 3 else 4

unfoldable pub byte_len : Text → ℕ
byte_len [] = 0
byte_len (c ∷ cs) = rune_len c + byte_len cs

-- `bufio.MaxScanTokenSize`: a line fits the scanner's buffer with its newline, or the scan ends.
abbrev pub fits_buffer : Text → Bool
fits_buffer l = ltb (byte_len l) 65536

unfoldable pub until_too_long : List Text → List Text
until_too_long [] = []
until_too_long (l ∷ ls) = if fits_buffer l then l ∷ until_too_long ls else []

unfoldable pub drop_cr : Text → Text
drop_cr [] = []
drop_cr (c ∷ []) = if c == b'\r' then [] else c ∷ []
drop_cr (c ∷ d ∷ cs) = c ∷ drop_cr (d ∷ cs)

unfoldable pub scan_lines : Text → List Text
unfolding cut_lines until_too_long drop_cr byte_len
scan_lines t = map drop_cr (until_too_long (cut_lines t))

-- Each line with a newline behind it.
unfoldable pub unlines : List Text → Text
unlines [] = []
unlines (l ∷ ls) = l ++ (b'\n' ∷ unlines ls)

pub unlines-append : (ls ms : List Text) → unlines (ls ++ ms) ≡ unlines ls ++ unlines ms
unfolding unlines
unlines-append [] ms = refl
unlines-append (l ∷ ls) ms = simp (unlines-append ls ms, append_assoc)

-- A text with no newline in it.
abbrev pub IsLine : Text → Type 0
IsLine = All (λ c. (c == b'\n') ≡ false)

pub cut_lines-append :
    (l rest : Text) → IsLine l → cut_lines (l ++ (b'\n' ∷ rest)) ≡ l ∷ cut_lines rest
unfolding cut_lines
cut_lines-append [] rest h = refl
cut_lines-append (c ∷ cs) rest h = rw (cut_lines-append cs rest h.1) (ground arith)

pub cut_lines-unlines : (ls : List Text) → All IsLine ls → cut_lines (unlines ls) ≡ ls
unfolding unlines
cut_lines-unlines [] h = unfold cut_lines in refl
cut_lines-unlines (l ∷ ls) h =
    cut_lines-append l (unlines ls) h.0 ∙ ap (λ x. l ∷ x) (cut_lines-unlines ls h.1)

pub until_too_long-All :
    (ls : List Text) → All (λ l. fits_buffer l ≡ true) ls → until_too_long ls ≡ ls
unfolding until_too_long
until_too_long-All [] h = refl
until_too_long-All (l ∷ ls) h = rw (h.0, until_too_long-All ls h.1)

pub scan_lines-unlines :
    (ls : List Text)
    → All IsLine ls
    → All (λ l. fits_buffer l ≡ true) ls
    → scan_lines (unlines ls) ≡ map drop_cr ls
scan_lines-unlines ls h k =
    unfold scan_lines in
    ap (map drop_cr) (ap until_too_long (cut_lines-unlines ls h) ∙ until_too_long-All ls k)

-- The carriage return that `ScanLines` drops is one that `TrimSpace` drops too.
trim_right-drop_cr : (l : Text) → trim_right (drop_cr l) ≡ trim_right l
unfolding trim_right drop_cr is_space
trim_right-drop_cr [] = refl
trim_right-drop_cr (c ∷ []) = ground arith
trim_right-drop_cr (c ∷ d ∷ cs) = ap (keep_unless_last (is_space c) c) (trim_right-drop_cr (d ∷ cs))

pub trim_space-drop_cr : (l : Text) → trim_space (drop_cr l) ≡ trim_space l
unfolding trim_space
trim_space-drop_cr l = rw trim_right-drop_cr

-- The lines that are cut hold no newline.
push-IsLine :
    (c : ℕ) (ls : List Text) → (c == b'\n') ≡ false → All IsLine ls → All IsLine (push c ls)
push-IsLine c [] h a = ((h, tt), tt)
push-IsLine c (l ∷ ls) h a = ((h, a.0), a.1)

pub cut_lines-IsLine : (t : Text) → All IsLine (cut_lines t)
unfolding cut_lines
cut_lines-IsLine [] = tt
cut_lines-IsLine (c ∷ cs) = elim (Bool-cases (c == b'\n')) [
  | inl e ↦ rw e (tt, cut_lines-IsLine cs)
  | inr e ↦ rw e (push-IsLine c (cut_lines cs) e (cut_lines-IsLine cs))
]
