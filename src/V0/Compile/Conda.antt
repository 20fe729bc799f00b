-- ===== src/V0/Compile/Conda.antt =====
-- conda.go of pkg/lang/ir/v0, and the choice of the version of Python in python.go.
use Prim.Native.String.{◌++◌}
use envd.Base.{String, false, ◌||◌, ◌&&◌, Option, none, some, [], ◌∷◌, if◌then◌else◌, str_eq}
use envd.Base.Native.{cat, join_with, has_prefix}
use envd.Graph.Compile.{no_owner, mkdir, mkfile, cached, plain, Buildkit, ◌▷◌}
use envd.Graph.Compile.System.{build_context, is_empty, conda_path}
use envd.Graph.Compile.Conda as V1
use envd.V0.{Graph}
use envd.V0.Compile.{
  World, python_not_supported, Result, ok, err, M, owner_of, add_user_directory, cache_id,
  working_dir, ◌>>=◌, update_env_path,
}

abbrev pub version_of : Option String → Result String
version_of none = ok "3.9"
version_of (some v) =
    if str_eq v "3" || str_eq v ""
    then ok "3.9"
    else if has_prefix v "3."
    then ok v
    else err python_not_supported

-- `getAppropriatePythonVersion`
unfoldable pub python_version : Graph → Result String
python_version g = version_of g.language.version

unfoldable pub conda_command_path : Graph → String
conda_command_path g = V1.conda_command_path g.conda_config

unfoldable pub conda_init_shell : String → Graph → String
conda_init_shell shell g = V1.conda_init_shell g.conda_config shell

unfoldable pub conda_update_from_file : Graph → String
conda_update_from_file g = V1.conda_update_from_file g.conda_config

module _ (b : Buildkit) (w : World b.State) where
  open b use {State, scratch, local_dir, file, run, dir, add_env}

  unfoldable pub compile_conda_channel : State → Graph → State
  compile_conda_channel root g = elim g.conda_config.conda_channel [
    | none ↦ root
    | some channel ↦
        file (mkfile "/opt/conda/.condarc" 0o644 channel (owner_of g))
          "[internal] setting conda channel" root
  ]

  unfoldable pub compile_conda_packages : State → Graph → State
  compile_conda_packages root g =
      let cache_mount =
        file (mkdir "/cache-conda" 0o755 no_owner)
          "[internal] setting conda cache mount permissions" scratch in
      let cmd = V1.conda_install_command g.conda_config in
      if is_empty g.conda_config.conda_packages && str_eq g.conda_config.conda_env_file_name ""
      then root
      else root
        ▷ dir (working_dir g)
        ▷ run cmd
            (cat ("[internal] " ∷ cmd ∷ " " ∷ join_with " " g.conda_config.conda_packages ∷ []))
            (plain (working_dir g) (local_dir build_context) false
              ∷ cached "/opt/conda/pkgs" cache_mount (cache_id "/opt/conda/pkgs" g) "/cache-conda"
              ∷ [])

  unfoldable pub compile_conda_environment : State → Graph → Result State
  compile_conda_environment root g =
      let initialized =
        run (cat ("bash -c \"" ∷ conda_init_shell "bash" g ∷ "\"" ∷ []))
          "[internal] initialize conda bash environment" [] root in
      elim (python_version g) [
        | err e ↦ err e
        | ok version ↦
            let cmd = cat (
              "bash -c \""
              ∷ conda_command_path g
              ∷ " create -n envd python="
              ∷ version
              ∷ "\""
              ∷ []) in
            ok (run cmd ("[internal] create conda environment: " ++ cmd) [] initialized)
      ]

  -- The states of `installConda`, behind the path.
  unfoldable pub conda_of : State → Graph → State
  conda_of root g =
      if g.conda_config.use_micro_mamba
      then root
        ▷ add_env "MAMBA_BIN_DIR" "/opt/conda/bin"
        ▷ add_env "MAMBA_ROOT_PREFIX" "/opt/conda"
        ▷ add_env "MAMBA_VERSION" "0.25.1"
        ▷ run (cat ("bash -c '" ∷ w.install_mamba ∷ "'" ∷ [])) "[internal] install micro mamba" []
      else root
        ▷ add_env "CONDA_VERSION" "py39_4.11.0"
        ▷ file (mkdir "/opt/conda" 0o755 no_owner) "[internal] create conda directory"
        ▷ run (cat ("bash -c '" ∷ w.install_conda ∷ "'" ∷ [])) "[internal] install conda" []

  abbrev conda_meta : Graph → Graph
  conda_meta g = add_user_directory "/opt/conda/envs/envd/conda-meta" g

  unfoldable pub install_conda : State → M State
  install_conda root = update_env_path b conda_path root >>= λ root'.
      λ g. ok (conda_of root' (conda_meta g), conda_meta g)
