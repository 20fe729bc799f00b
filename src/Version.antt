-- ===== src/Version.antt =====
-- pkg/lang/version: which version of the build language a file is written in.
use envd.Base.{ℕ, false, List, [], ◌∷◌, ◌++◌, map, ◌≡◌, refl, ap, ◌∙◌, arith, ◌==◌, if◌then◌else◌}
use envd.Base.Text.{Text, codes, text_eq}
use envd.Base.Strings.Space.{has_prefix}
use envd.Base.Strings.Lines.{scan_lines, cut_lines-append, until_too_long, drop_cr, byte_len}
use envd.Options.{contains}

-- The source has a third constant, `unknown`, which no function gives.
pub data LanguageVersion : Type 0 where
  v0 v1 : LanguageVersion

-- `NewByVersion`
unfoldable pub new_by_version : Text → LanguageVersion
new_by_version ver =
    if text_eq ver (codes "v1") then v1 else if text_eq ver (codes "v0") then v0 else v0

-- `fscanner.Scan()`, then `fscanner.Text()`, which is empty if there is no line.
abbrev pub first_line : List Text → Text
first_line [] = []
first_line (l ∷ ls) = l

abbrev pub comment_version : Text → LanguageVersion
comment_version comment =
    if contains comment (codes "# syntax=v1")
    then v1
    else if contains comment (codes "# syntax=v0")
    then v0
    else v0

-- `New`, on the file's text. A file that cannot be opened ends the program.
unfoldable pub new_version : Text → LanguageVersion
new_version file = comment_version (first_line (scan_lines file))

abbrev pub syntax_comment : Text → Text
syntax_comment ver = codes "# syntax=" ++ ver

comment_version-two :
    (a b : ℕ) → comment_version (syntax_comment (a ∷ b ∷ [])) ≡ new_by_version (a ∷ b ∷ [])
unfolding contains has_prefix new_by_version text_eq
comment_version-two a b = ground arith

first_line-syntax_comment :
    (a b : ℕ) (rest : Text)
    → (a == b'\n') ≡ false
    → (b == b'\n') ≡ false
    → (b == b'\r') ≡ false
    → first_line (scan_lines (syntax_comment (a ∷ b ∷ []) ++ (b'\n' ∷ rest)))
      ≡ syntax_comment (a ∷ b ∷ [])
unfolding scan_lines until_too_long drop_cr byte_len
first_line-syntax_comment a b rest h k r =
    ap (λ ls. first_line (map drop_cr (until_too_long ls)))
      (cut_lines-append (syntax_comment (a ∷ b ∷ [])) rest
        (refl, (refl, (refl, (refl, (refl, (refl, (refl, (refl, (refl, (h, (k, tt))))))))))))
    ∙ ground arith

-- A file whose first line is `# syntax=` and a version of two characters is read in the version
-- that `NewByVersion` gives for these characters, whatever the other lines are. The two characters
-- are no line break, and the second is no carriage return.
pub new_version-syntax_comment :
    (a b : ℕ) (rest : Text)
    → (a == b'\n') ≡ false
    → (b == b'\n') ≡ false
    → (b == b'\r') ≡ false
    → new_version (syntax_comment (a ∷ b ∷ []) ++ (b'\n' ∷ rest)) ≡ new_by_version (a ∷ b ∷ [])
unfolding new_version
new_version-syntax_comment a b rest h k r =
    ap comment_version (first_line-syntax_comment a b rest h k r) ∙ comment_version-two a b
