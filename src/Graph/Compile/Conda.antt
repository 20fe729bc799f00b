-- ===== src/Graph/Compile/Conda.antt =====
-- conda.go of pkg/lang/ir/v1, and the choice of the version of Python.
use Prim.Native.String.{◌++◌}
use envd.Base.{String, false, ◌||◌, ◌&&◌, Option, none, some, List, [], ◌∷◌, if◌then◌else◌, str_eq}
use envd.Base.Native.{cat, join_with, has_prefix}
use envd.Graph.{Graph, CondaConfig}
use envd.Graph.Compile.{
  no_owner, mkdir, mkfile, copy, rm, cached, plain, Buildkit, World, python_not_supported, Result,
  ok, err, M, ◌▷◌,
}
use envd.Graph.Compile.System.{
  owner_of, set_environ, add_user_directory, cache_id, working_dir, build_context, is_empty,
}

abbrev pub builder_image : String
builder_image = "curlimages/curl:7.86.0"

abbrev pub micro_mamba_image : String
micro_mamba_image = "mambaorg/micromamba:1.0.0"

unfoldable pub version_of : Option String → Result String
version_of none = ok "3.9"
version_of (some v) =
    if str_eq v "3" || str_eq v ""
    then ok "3.9"
    else if has_prefix v "3."
    then ok v
    else err python_not_supported

-- `getAppropriatePythonVersion`
abbrev pub python_version : Graph → Result String
python_version g = version_of g.language.version

unfoldable pub conda_command_path : CondaConfig → String
conda_command_path c =
    if c.use_micro_mamba then "/opt/conda/bin/micromamba" else "/opt/conda/bin/conda"

unfoldable pub conda_init_shell : CondaConfig → String → String
conda_init_shell c shell =
    if c.use_micro_mamba
    then cat (conda_command_path c ∷ " shell init -p " ∷ "/opt/conda" ∷ " -s " ∷ shell ∷ [])
    else cat (conda_command_path c ∷ " init " ∷ shell ∷ [])

unfoldable pub conda_update_from_file : CondaConfig → String
conda_update_from_file c =
    let args = "update -n envd --file " ++ c.conda_env_file_name in
    if c.use_micro_mamba
    then cat (conda_command_path c ∷ " " ∷ args ∷ [])
    else cat (conda_command_path c ∷ " env " ∷ args ∷ [])

abbrev prefixed : String → List String → String
prefixed sep [] = ""
prefixed sep (s ∷ ss) = sep ++ (s ++ prefixed sep ss)

-- The command that `compileCondaPackages` composes.
unfoldable pub conda_install_command : CondaConfig → String
conda_install_command c =
    if str_eq c.conda_env_file_name ""
    then cat (
        conda_command_path c
        ∷ " install -n envd"
        ∷ prefixed " -c " c.additional_channels
        ∷ prefixed " " c.conda_packages
        ∷ [])
    else conda_update_from_file c

module _ (b : Buildkit) (w : World) where
  open b use {State, image, scratch, local_dir, file, run, dir, add_env}

  unfoldable pub compile_conda_channel : CondaConfig → State → Graph → State
  compile_conda_channel c root g = elim c.conda_channel [
    | none ↦ root
    | some channel ↦
        file (mkfile "/opt/conda/.condarc" 0o644 channel (owner_of g))
          "[internal] setting conda channel" root
  ]

  unfoldable pub compile_conda_packages : CondaConfig → State → Graph → State
  compile_conda_packages c root g =
      let cache_mount =
        file (mkdir "/cache-conda" 0o755 no_owner)
          "[internal] setting conda cache mount permissions" scratch in
      let cmd = conda_install_command c in
      if is_empty c.conda_packages && str_eq c.conda_env_file_name ""
      then root
      else root
        ▷ dir (working_dir g)
        ▷ add_env "MAMBA_ROOT_PREFIX" "/opt/conda"
        ▷ run cmd (cat ("[internal] " ∷ cmd ∷ " " ∷ join_with " " c.conda_packages ∷ [])) (
            plain (working_dir g) (local_dir build_context) false
            ∷ cached "/opt/conda/pkgs" cache_mount (cache_id "/opt/conda/pkgs" g) "/cache-conda"
            ∷ [])

  unfoldable pub compile_conda_environment : CondaConfig → State → Graph → Result State
  compile_conda_environment c root g =
      let initialized =
        run (cat ("bash -c \"" ∷ conda_init_shell c "bash" ∷ "\"" ∷ []))
          "[internal] initialize conda bash environment" [] root in
      elim (python_version g) [
        | err e ↦ err e
        | ok version ↦
            let cmd = cat (
              "bash -c \""
              ∷ conda_command_path c
              ∷ " create -n envd python="
              ∷ version
              ∷ "\""
              ∷ []) in
            ok (run cmd ("[internal] create conda environment: " ++ cmd) [] initialized)
      ]

  unfoldable pub install_mini_conda : State → State
  install_mini_conda root =
      let builder =
        image builder_image
        ▷ add_env "CONDA_VERSION" "py39_4.11.0"
        ▷ run (cat ("sh -c '" ∷ w.get_conda ∷ "'" ∷ [])) "[internal] download conda" [] in
      root
      ▷ file (copy builder "/tmp/miniconda.sh" "/tmp/miniconda.sh" false no_owner)
          "copy conda from builder"
      ▷ file (mkdir "/opt/conda" 0o755 no_owner) "[internal] create conda directory"
      ▷ run (cat ("bash -c '" ∷ w.install_conda ∷ "'" ∷ [])) "[internal] install conda" []
      ▷ file (rm "/tmp/miniconda.sh") "[internal] rm conda source file"

  -- The states of `installMicroMamba`.
  unfoldable pub micro_mamba : State → State
  micro_mamba root =
      root
      ▷ add_env "MAMBA_ROOT_PREFIX" "/opt/conda"
      ▷ add_env "MAMBA_TARGET_PREFIX" "/opt/conda"
      ▷ file (mkdir "/etc/ssl/certs" 0o755 no_owner) "[internal] mkdir certs"
      ▷ file
          (copy (image micro_mamba_image) "/etc/ssl/certs/ca-certificates.crt" "/etc/ssl/certs"
            false no_owner)
          "[internal] copy cert from mamba"
      ▷ file (mkdir "/opt/conda/bin" 0o755 no_owner) "[internal] create mamba path"
      ▷ file (copy (image micro_mamba_image) "/bin/micromamba" "/opt/conda/bin" false no_owner)
          "[internal] copy micromamba binary"
      ▷ file (mkfile "/opt/conda/.mambarc" 0o644 "\nchannels:\n    - defaults\n" no_owner)
          "[internal] create the mamba rc file"
      ▷ file
          (mkfile "/opt/conda/bin/activate" 0o755
            (cat (
              "\n#!/bin/sh\n"
              ∷ "eval \"$(/opt/conda/bin/micromamba shell hook --shell=bash)\" || return $?\n"
              ∷ "micromamba activate \"$@\"\n" ∷ []))
            no_owner)
          "[internal] create the mamba activate file"
      ▷ run "update-alternatives --install /usr/bin/conda conda /opt/conda/bin/micromamba 1"
          "[internal] update alternative micromamba to conda" []
      ▷ run "bash -c \"/opt/conda/bin/micromamba shell init --shell bash\""
          "[internal] init micromamba for bash" []

  unfoldable pub mamba_environ : Graph → Graph
  mamba_environ g =
      set_environ "MAMBA_TARGET_PREFIX" "/opt/conda"
        (set_environ "MAMBA_ROOT_PREFIX" "/opt/conda" g)

  unfoldable pub install_micro_mamba : State → M State
  install_micro_mamba root g = ok (micro_mamba root, mamba_environ g)

  -- The `conda-meta` directory, which goes to the user of a development image.
  abbrev pub own_conda_meta : Graph → Graph
  own_conda_meta g = if g.dev then add_user_directory "/opt/conda/envs/envd/conda-meta" g else g

  unfoldable pub install_conda : CondaConfig → State → M State
  install_conda c root g =
      if c.use_micro_mamba
      then install_micro_mamba root (own_conda_meta g)
      else ok (install_mini_conda root, own_conda_meta g)
