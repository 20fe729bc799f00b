-- ===== src/Graph/Compile/Entry.antt =====
-- pkg/lang/ir/v1/compile.go: `Compile`, and what the image gets from the graph after it.
use Prim.Native.String.{◌++◌}
use envd.Base.{String, Option, none, some, List, [], ◌∷◌, ◌++◌ as append, if◌then◌else◌, map}
use envd.Base.Text.{Text}
use envd.Base.Native.{join_with, to_string}
use envd.Base.Strings.Decimal.{ℤ}
use envd.FilePath.{envd_home_dir, base_name}
use envd.Graph.{Graph}
use envd.Graph.Owner.{System, get_uid_gid}
use envd.Graph.Compile.{
  Buildkit, World, owner_failed, marshal_failed, Result, ok, err, M, ◌>>=◌, ◌>>◌, modify, kept,
}
use envd.Graph.Compile.System.{set_environ}
use envd.Graph.Compile.Pipeline.{compile_llb}

abbrev pub name_env : String → String → Graph → Graph
name_env env_name key g = record g { environment_name = env_name; public_key_path = key }

abbrev pub owner_or_fail : Option (ℤ × ℤ) → Result (ℤ × ℤ)
owner_or_fail none = err owner_failed
owner_or_fail (some ids) = ok ids

abbrev pub marshal_or_fail {ℓ} : {D : Type ℓ} → Option D → Result D
marshal_or_fail none = err marshal_failed
marshal_or_fail (some d) = ok d

-- `Compile`. `state.Marshal` is the first argument, and the flag for the owner comes after the key's
-- path.
unfoldable pub compile {ℓ} :
    (b : Buildkit)
    → World
    → {D : Type ℓ} → (b.State → Option D)
    → String
    → String
    → Text
    → System
    → M D
compile b w marshal env_name key flag s = do
  modify (name_env env_name key)
  ids ← kept (λ g. owner_or_fail (get_uid_gid flag s g))
  state ← compile_llb b w ids.0 ids.1
  kept (λ g. marshal_or_fail (marshal state))

abbrev pub env_entry : String × String → String
env_entry (k, v) = k ++ ("=" ++ v)

-- `EnvString`
unfoldable pub env_string : Graph → List String
env_string g =
    append (map env_entry g.runtime.runtime_environ)
      (env_entry ("PATH", join_with ":" g.runtime.runtime_env_paths) ∷ [])

unfoldable pub get_environ : Graph → List String
get_environ g = append (env_string g) ("LC_ALL=en_US.UTF-8" ∷ "LANG=C.UTF-8" ∷ [])

-- `GetEntrypoint`
unfoldable pub get_entrypoint : Text → M (List String)
get_entrypoint build_context_dir g =
    if g.dev
    then ok (
      "horust" ∷ [],
      set_environ "ENVD_WORKDIR" (envd_home_dir (to_string (base_name build_context_dir) ∷ [])) g,
    )
    else ok (g.entrypoint, g)
