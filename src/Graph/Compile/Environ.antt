-- ===== src/Graph/Compile/Environ.antt =====
-- The environment that an image gets (`GetEnviron` of pkg/lang/ir/v1/compile.go), read back by a build
-- that starts from the image (`compileBaseImage` of system.go).
use Prim.Native.String.{String, ◌++◌}
use Prim.Native.Char.{code}
use Prim.Native.String.append
use envd.Base.{false, some, [], ◌∷◌, ◌++◌ as join, map, ◌≡◌, refl, ap, ◌∙◌, ◌==◌, All, All-append}
use envd.Base.Dict.{Dict, put, put_all}
use envd.Base.Native.{cut_string, join_with}
use envd.Graph.{Graph}
use envd.Graph.Compile.{Buildkit, World, ok}
use envd.Graph.Compile.System.{keep_envs}
use envd.Graph.Compile.Entry.{env_entry, env_string, get_environ}

-- A name of the environment has no "=".
abbrev pub IsName : String → Type 0
IsName String.[] = Unit
IsName (String.◌∷◌ c s) = ((code c == b'=') ≡ false) × IsName s

cut_string-entry : (k v : String) → IsName k → cut_string b'=' (env_entry (k, v)) ≡ some (k, v)
unfolding cut_string
cut_string-entry String.[] v h =
    rw (append.nil ("=" ++ v), append.cons "=" String.[] v, append.nil v)
cut_string-entry (String.◌∷◌ c k) v h =
    rw (append.cons c k ("=" ++ v), h.0, cut_string-entry k v h.1)

keep_envs-entries :
    (b : Buildkit) (w : World) (es d : Dict String)
    → All (λ (e : String × String). IsName e.0) es
    → keep_envs b w (map env_entry es) d ≡ ok (put_all d es)
unfolding keep_envs put_all
keep_envs-entries b w [] d h = refl
keep_envs-entries b w ((k, v) ∷ es) d h =
    rw (cut_string-entry k v h.0, keep_envs) (keep_envs-entries b w es (put d k v) h.1)

abbrev pub entries : Graph → Dict String
entries g = join g.runtime.runtime_environ (
    ("PATH", join_with ":" g.runtime.runtime_env_paths)
    ∷ ("LC_ALL", "en_US.UTF-8")
    ∷ ("LANG", "C.UTF-8")
    ∷ [])

map-entries :
    (es : Dict String) (p : String × String) (rest : Dict String)
    → join (join (map env_entry es) (env_entry p ∷ [])) (map env_entry rest)
      ≡ map env_entry (join es (p ∷ rest))
map-entries [] p rest = refl
map-entries (e ∷ es) p rest = ap (λ l. env_entry e ∷ l) (map-entries es p rest)

get_environ-entries : (g : Graph) → get_environ g ≡ map env_entry (entries g)
unfolding get_environ env_string
get_environ-entries g =
    map-entries g.runtime.runtime_environ ("PATH", join_with ":" g.runtime.runtime_env_paths)
      (("LC_ALL", "en_US.UTF-8") ∷ ("LANG", "C.UTF-8") ∷ [])

own_names : IsName "PATH" × (IsName "LC_ALL" × (IsName "LANG" × Unit {0}))
own_names = (
  (refl, (refl, (refl, (refl, tt)))),
  ((refl, (refl, (refl, (refl, (refl, (refl, tt)))))), ((refl, (refl, (refl, (refl, tt)))), tt)),
)

-- A build whose base image has the environment that `GetEnviron` gave reads back every variable of the
-- graph, then the path, `LC_ALL` and `LANG`, where no variable's name has a "=".
pub keep_envs-get_environ :
    (b : Buildkit) (w : World) (g : Graph) (d : Dict String)
    → All (λ (e : String × String). IsName e.0) g.runtime.runtime_environ
    → keep_envs b w (get_environ g) d ≡ ok (put_all d (entries g))
keep_envs-get_environ b w g d h =
    ap (λ es. keep_envs b w es d) (get_environ-entries g)
    ∙ keep_envs-entries b w (entries g) d (All-append _ g.runtime.runtime_environ _ h own_names)
