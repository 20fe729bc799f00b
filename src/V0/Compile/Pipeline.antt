-- ===== src/V0/Compile/Pipeline.antt =====
-- `Compile` and `CompileLLB` of pkg/lang/ir/v0/compile.go, `compileBase` of system.go and `getUIDGID` of
-- util.go, and what the image gets from the graph after it.
use envd.Base.{
  String, Option, none, some, List, [], ◌∷◌, ◌++◌ as append, if◌then◌else◌, map, str_eq,
}
use envd.Base.Int.{int_eq}
use envd.Base.Native.{cat, join_with, to_string}
use envd.Base.Strings.Decimal.{ℤ, pos, atoi}
use envd.Base.Text.{Text}
use envd.FilePath.{envd_home_dir, base_name}
use envd.Options.{split}
use envd.Graph.Owner.{pair, from_flag}
use envd.Graph.Compile.{Buildkit, ◌▷◌}
use envd.Graph.Compile.Entry.{env_entry}
use envd.Graph.Compile.System.{version_for_image_tag}
use envd.V0.{Graph}
use envd.V0.Compile.{
  World, owner_failed, marshal_failed, Result, ok, err, M, ◌>>=◌, ◌>>◌, reads, modify, kept,
  set_environ,
}
use envd.V0.Compile.System.{
  prepare_python_base, compile_cuda_packages, compile_sshd, compile_starship, compile_extra_source,
  custom_base, compile_copy, compile_run, compile_mount_dir, compile_user_own, compile_user_group,
}
use envd.V0.Compile.Conda.{install_conda}
use envd.V0.Compile.Supervisor.{install_horust, compile_entrypoint}
use envd.V0.Compile.Python.{compile_python, compile_custom_python}
use envd.V0.Compile.Languages.{compile_r_lang, compile_julia}
use envd.V0.Compile.Shell.{compile_git, compile_prompt}

-- The user and the group 1000 are taken in the base image of R.
abbrev not_taken : ℤ → ℤ
not_taken z = if int_eq z (pos 1000) then pos 1001 else z

abbrev pub free_ids : Graph → Graph
free_ids g = record g { uid = not_taken g.uid; gid = not_taken g.gid }

abbrev from_user : Option (Text × Text) → Option (ℤ × ℤ)
from_user none = none
from_user (some (u, g)) = pair (atoi u) (atoi g)

-- `getUIDGID`: from the flag, or from the current user. `none` is an error.
unfoldable pub get_uid_gid : Text → Option (Text × Text) → Option (ℤ × ℤ)
get_uid_gid [] user = from_user user
get_uid_gid (c ∷ owner) user = from_flag (split b':' (c ∷ owner))

-- The group is 1001, whatever is asked for.
abbrev pub set_ids : ℤ → Graph → Graph
set_ids uid g = record g { uid = uid; gid = pos 1001 }

abbrev name_env : String → String → Graph → Graph
name_env env_name key g = record g { environment_name = env_name; public_key_path = key }

abbrev owner_or_fail : Option (ℤ × ℤ) → Result (ℤ × ℤ)
owner_or_fail none = err owner_failed
owner_or_fail (some ids) = ok ids

abbrev marshal_or_fail {ℓ} : {D : Type ℓ} → Option D → Result D
marshal_or_fail none = err marshal_failed
marshal_or_fail (some d) = ok d

module _ (b : Buildkit) (w : World b.State) where
  open b use {State, image}

  -- The base image without CUDA, by the language.
  abbrev pub cpu_base : M State
  cpu_base g =
      if str_eq g.language.name "r"
      then ok (
        image (
            cat (
              "docker.io/"
              ∷ w.organization
              ∷ "/r-base:4.2-envd-"
              ∷ version_for_image_tag w.shared
              ∷ [])),
        free_ids g,
      )
      else if str_eq g.language.name "python"
      then ok (prepare_python_base b w (image "ubuntu:20.04"), g)
      else if str_eq g.language.name "julia"
      then ok (
        image (
            cat (
              "docker.io/"
              ∷ w.organization
              ∷ "/julia:1.8rc1-ubuntu20.04-envd-"
              ∷ version_for_image_tag w.shared
              ∷ [])),
        g,
      )
      else ok (w.empty, g)

  abbrev pub plain_base : Option String → M State
  plain_base none g = cpu_base g
  plain_base (some cuda) g = ok (compile_cuda_packages b w cuda g, g)

  abbrev pub built_base : M State
  built_base = do
    base ← λ g. plain_base g.cuda g
    conda ← install_conda b w base
    source ← reads (
        compile_extra_source b w
          (conda ▷ install_horust b w ▷ compile_sshd b w ▷ compile_starship b w))
    reads (compile_user_group b w source)

  abbrev pub base_of : Option String → M State
  base_of none = built_base
  base_of (some name) = custom_base b w name

  unfoldable pub compile_base : M State
  compile_base g = base_of g.image g

  abbrev pub language_of : State → M State
  language_of base g =
      if str_eq g.language.name "r"
      then compile_r_lang b w base g
      else if str_eq g.language.name "python"
      then compile_python b w base g
      else if str_eq g.language.name "julia"
      then compile_julia b w base g
      else ok (w.empty, g)

  abbrev pub merged_of : Option String → State → M State
  merged_of none base g = language_of base g
  merged_of (some name) base g = ok (compile_custom_python b w base g, g)

  unfoldable pub compile_llb : ℤ → ℤ → M State
  compile_llb uid gid = do
    modify (set_ids uid)
    base ← compile_base
    merged ← λ g. merged_of g.image base g
    prompt ← reads (compile_prompt b w merged)
    copied ← reads (compile_copy b w prompt)
    ran ← reads (compile_run b w copied)
    git ← reads (compile_git b w ran)
    own ← compile_user_own b w git
    mount ← reads (compile_mount_dir b w own)
    compile_entrypoint b w mount

  -- `state.Marshal` is the first argument, and the flag for the owner comes after the key's path.
  unfoldable pub compile {ℓ} :
      {D : Type ℓ} → (State → Option D) → String → String → Text → Option (Text × Text) → M D
  compile marshal env_name key flag user = do
    modify (name_env env_name key)
    ids ← kept (λ g. owner_or_fail (get_uid_gid flag user))
    state ← compile_llb ids.0 ids.1
    kept (λ g. marshal_or_fail (marshal state))

-- `EnvString`
unfoldable pub env_string : Graph → List String
env_string g =
    append (map env_entry g.runtime.runtime_environ)
      (env_entry ("PATH", join_with ":" g.runtime.runtime_env_paths) ∷ [])

abbrev locale_of : Option String → List String
locale_of none = "LC_ALL=en_US.UTF-8" ∷ "LANG=en_US.UTF-8" ∷ []
locale_of (some name) = []

unfoldable pub get_environ : Graph → List String
get_environ g = append (env_string g) (locale_of g.image)

abbrev entrypoint_of : Option String → Text → M (List String)
entrypoint_of (some name) dir g = ok (g.entrypoint, g)
entrypoint_of none dir g =
    ok
      ("horust" ∷ [], set_environ "ENVD_WORKDIR" (envd_home_dir (to_string (base_name dir) ∷ [])) g)

-- `GetEntrypoint`
unfoldable pub get_entrypoint : Text → M (List String)
get_entrypoint build_context_dir g = entrypoint_of g.image build_context_dir g

-- `DefaultCacheImporter`, for an organization and the version of the image tag.
unfoldable pub default_cache_importer : String → String → Graph → String
default_cache_importer organization tag g = elim g.cuda [
  | none ↦ cat ("type=registry,ref=docker.io/" ∷ organization ∷ "/python-cache:envd-" ∷ tag ∷ [])
  | some cuda ↦ cat (
      "type=registry,ref=docker.io/" ∷ organization ∷ "/python-cache:envd-" ∷ tag ∷ "-cuda-" ∷ cuda
      ∷ "-cudnn-" ∷ g.cudnn ∷ [])
]
