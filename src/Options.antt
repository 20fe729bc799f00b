-- ===== src/Options.antt =====
-- pkg/builder/util.go and pkg/app/build/build.go: what the command line's options are parsed into.
pub mod Csv
pub mod Cache
pub mod Output
pub mod EnvName
pub mod From
use envd.Base.{ℕ, Bool, true, false, ◌||◌, Option, none, some, List, [], ◌∷◌, ◌==◌, if◌then◌else◌}
use envd.Base.Text.{Text, codes}
use envd.Base.Strings.Space.{has_prefix}

-- `strings.Contains`
unfoldable pub contains : Text → Text → Bool
contains [] needle = has_prefix [] needle
contains (c ∷ cs) needle = has_prefix (c ∷ cs) needle || contains cs needle

abbrev in_first : ℕ → List Text → List Text
in_first c [] = (c ∷ []) ∷ []
in_first c (t ∷ ts) = (c ∷ t) ∷ ts

-- `strings.Split` at one character.
unfoldable pub split : ℕ → Text → List Text
split sep [] = [] ∷ []
split sep (c ∷ cs) = let rest = split sep cs in if c == sep then [] ∷ rest else in_first c rest

abbrev pub default_file : Text
default_file = codes "build.envd"

abbrev pub default_func : Text
default_func = codes "build"

abbrev pub or_default : Text → Text → Text
or_default [] d = d
or_default (c ∷ cs) d = c ∷ cs

abbrev pub from_parts : List Text → Option (Text × Text)
from_parts (file ∷ func ∷ []) = some (or_default file default_file, or_default func default_func)
from_parts _ = none

-- `ParseFromStr`; `none` is the error.
unfoldable pub parse_from_str : Text → Option (Text × Text)
parse_from_str from =
    if contains from (b':' ∷ [])
    then from_parts (split b':' from)
    else some (or_default from default_file, default_func)
