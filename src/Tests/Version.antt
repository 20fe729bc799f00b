-- ===== src/Tests/Version.antt =====
-- pkg/lang/version at a concrete input.
use envd.Base.{◌∷◌, [], ◌++◌, ◌≡◌, refl}
use envd.Base.Text.{codes}
use envd.Version.{new_by_version, new_version, syntax_comment, new_version-syntax_comment}

new_version-syntax_comment_example :
    new_version (syntax_comment (b'v' ∷ b'1' ∷ []) ++ (b'\n' ∷ codes "def build():"))
    ≡ new_by_version (b'v' ∷ b'1' ∷ [])
new_version-syntax_comment_example =
    new_version-syntax_comment b'v' b'1' (codes "def build():") refl refl refl
