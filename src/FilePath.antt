-- ===== src/FilePath.antt =====
-- `filepath.Clean` and `filepath.Join` of the standard library where the separator is "/", and the
-- paths of pkg/util/fileutil/file.go that are built with them.
use Prim.Native.String.{String}
use envd.Base.{Bool, true, false, not, ◌&&◌, ◌||◌, List, [], ◌∷◌, ◌++◌, map, ◌==◌, if◌then◌else◌}
use envd.Base.Text.{Text, codes, text_eq}
use envd.Base.Strings.Space.{join}
use envd.Base.Native.{to_string}
use envd.Options.{split}

abbrev pub slash : Text
slash = b'/' ∷ []

abbrev pub dot : Text
dot = codes "."

abbrev pub dot_dot : Text
dot_dot = codes ".."

-- One step up. A rooted path does not leave the root.
unfoldable pub up : Bool → List Text → List Text
up true [] = []
up false [] = dot_dot ∷ []
up rooted (t ∷ stack) = if not rooted && text_eq t dot_dot then dot_dot ∷ t ∷ stack else stack

-- The stack has the last part on top.
unfoldable pub push_part : Bool → List Text → Text → List Text
push_part rooted stack p =
    if text_eq p [] || text_eq p dot
    then stack
    else if text_eq p dot_dot
    then up rooted stack
    else p ∷ stack

unfoldable pub clean_parts : Bool → List Text → List Text → List Text
clean_parts rooted stack [] = stack
clean_parts rooted stack (p ∷ ps) = clean_parts rooted (push_part rooted stack p) ps

abbrev pub reversed {ℓ} : {A : Type ℓ} → List A → List A → List A
reversed [] acc = acc
reversed (x ∷ xs) acc = reversed xs (x ∷ acc)

abbrev pub is_rooted : Text → Bool
is_rooted [] = false
is_rooted (c ∷ cs) = c == b'/'

abbrev pub or_dot : Text → Text
or_dot [] = dot
or_dot (c ∷ cs) = c ∷ cs

abbrev pub root_text : Bool → Text
root_text true = slash
root_text false = []

-- `filepath.Clean`
unfoldable pub clean : Text → Text
clean path =
    let rooted = is_rooted path in
    let parts = reversed (clean_parts rooted [] (split b'/' path)) [] in
    or_dot (root_text rooted ++ join slash parts)

abbrev pub non_empty : List Text → List Text
non_empty [] = []
non_empty ([] ∷ ts) = non_empty ts
non_empty ((c ∷ t) ∷ ts) = (c ∷ t) ∷ non_empty ts

abbrev pub clean_unless_empty : Text → Text
clean_unless_empty [] = []
clean_unless_empty (c ∷ cs) = clean (c ∷ cs)

-- `filepath.Join`
unfoldable pub join_path : List Text → Text
join_path parts = clean_unless_empty (join slash (non_empty parts))

-- `EnvdHomeDir`
unfoldable pub envd_home_dir : List String → String
envd_home_dir path =
    to_string (join_path (codes "/" ∷ codes "home" ∷ codes "envd" ∷ map codes path))

-- `DefaultHomeDir`
unfoldable pub default_home_dir : List String → String
default_home_dir path = to_string (join_path (codes "~" ∷ map codes path))

abbrev is_nil : Text → Bool
is_nil [] = true
is_nil (c ∷ cs) = false

-- Without the slashes at the end.
unfoldable pub trim_slashes : Text → Text
trim_slashes [] = []
trim_slashes (c ∷ cs) =
    let rest = trim_slashes cs in if c == b'/' && is_nil rest then [] else c ∷ rest

abbrev last_part : Text → List Text → Text
last_part p [] = p
last_part p (q ∷ qs) = last_part q qs

abbrev or_slash : Text → Text
or_slash [] = slash
or_slash (c ∷ cs) = last_part [] (split b'/' (c ∷ cs))

-- `filepath.Base`
unfoldable pub base_name : Text → Text
base_name [] = dot
base_name (c ∷ cs) = or_slash (trim_slashes (c ∷ cs))
