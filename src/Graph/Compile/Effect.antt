-- ===== src/Graph/Compile/Effect.antt =====
-- What `CompileLLB` of pkg/lang/ir/v1/compile.go does to the graph, and which error it reports, told
-- without a state of buildkit: a specification that the pipeline implements.
use envd.Base.{
  String, Bool, true, false, not, ◌&&◌, Option, none, some, List, [], ◌∷◌, if◌then◌else◌, str_eq,
  snoc,
}
use envd.Base.Dict.{Dict, put}
use envd.Base.Native.{cut_string}
use envd.Plugin.{Plugin}
use envd.Graph.{Graph, CondaConfig, JupyterConfig}
use envd.Graph.Compile.{
  Buildkit, World, Error, metadata_failed, key_failed, zsh_failed, plugin_failed,
  entrypoint_not_allowed, index_out_of_range, Result, ok, err,
}
use envd.Graph.Compile.System.{is_empty, conda_path, cuda_image}
use envd.Graph.Compile.Conda.{python_version}
use envd.Graph.Compile.Languages.{julia_bin_dir, julia_pkg_dir}
use envd.Graph.Compile.User.{is_root}
use envd.Graph.Compile.Shell.{is_zsh, shell_path}
use envd.Graph.Compile.Supervisor.{with_token}

pub data Kind : Type 0 where
  python r_lang julia other : Kind

abbrev pub kind : Graph → Kind
kind g =
    if str_eq g.language.name "python"
    then python
    else if str_eq g.language.name "r"
    then r_lang
    else if str_eq g.language.name "julia"
    then julia
    else other

abbrev pub base_image : Graph → String
base_image g = elim g.cuda [ none ↦ g.image | some cuda ↦ cuda_image g.image cuda g.cudnn g.dev ]

-- Every text has a "=".
abbrev pub all_pairs : List String → Bool
all_pairs [] = true
all_pairs (e ∷ es) = elim (cut_string b'=' e) [ none ↦ false | some _ ↦ all_pairs es ]

-- The environment of the base image, over the one that the rules gave.
abbrev pub overlay : List String → Dict String → Dict String
overlay [] d = d
overlay (e ∷ es) d = elim (cut_string b'=' e) [ none ↦ d | some (k, v) ↦ overlay es (put d k v) ]

abbrev pub all_downloaded : World → List Plugin → Bool
all_downloaded w [] = true
all_downloaded w (p ∷ ps) = w.download_plugin p && all_downloaded w ps

abbrev pub version_error : Kind → Result String → Option Error
version_error python (err e) = some e
version_error python (ok v) = none
version_error r_lang v = none
version_error julia v = none
version_error other v = none

abbrev pub key_error : Option String → Option Error
key_error none = some key_failed
key_error (some _) = none

-- The first error that there is.
abbrev pub first : Option Error → Option Error → Option Error
first none e = e
first (some e) _ = some e

abbrev pub unless : Bool → Error → Option Error
unless b e = if b then none else some e

abbrev pub dev_error : World → Graph → Option Error
dev_error w g = first (key_error (w.public_key g.public_key_path)) (
    first (if is_zsh g then unless w.download_zsh zsh_failed else none) (
      first (unless (is_empty g.entrypoint) entrypoint_not_allowed)
        (unless (all_downloaded w g.vscode_plugins) plugin_failed)))

abbrev pub env_error : Option (List String) → Option Error
env_error none = some metadata_failed
env_error (some envs) = unless (all_pairs envs) index_out_of_range

-- The error of a compilation, in the order of its steps.
abbrev pub first_error : Buildkit → World → Graph → Option Error
first_error b w g =
    first (env_error (b.image_env (base_image g)))
      (first (version_error (kind g) (python_version g)) (if g.dev then dev_error w g else none))

abbrev pub overlay_of : Option (List String) → Dict String → Dict String
overlay_of none d = d
overlay_of (some envs) d = overlay envs d

abbrev pub after_base : Buildkit → Graph → Graph
after_base b g = record g {
  image = base_image g;
  user = "";
  runtime = record g.runtime {
    runtime_environ = overlay_of (b.image_env (base_image g)) g.runtime.runtime_environ;
  };
}

abbrev pub language_paths : Kind → List String → List String
language_paths python paths = snoc paths conda_path
language_paths r_lang paths = paths
language_paths julia paths = snoc paths julia_bin_dir
language_paths other paths = paths

abbrev pub language_dirs : Kind → Option CondaConfig → Bool → List String → List String
language_dirs python (some c) true dirs = snoc dirs "/opt/conda/envs/envd/conda-meta"
language_dirs _ _ _ dirs = dirs

abbrev pub conda_environ : Bool → Dict String → Dict String
conda_environ true d =
    put (put d "MAMBA_ROOT_PREFIX" "/opt/conda") "MAMBA_TARGET_PREFIX" "/opt/conda"
conda_environ false d = d

abbrev pub language_environ : Kind → Option CondaConfig → Dict String → Dict String
language_environ python (some c) d = conda_environ c.use_micro_mamba d
language_environ _ _ d = d

abbrev pub after_kind : Kind → Graph → Graph
after_kind k g = record g {
  user_directories = language_dirs k g.conda_config g.dev g.user_directories;
  runtime = record g.runtime {
    runtime_environ = language_environ k g.conda_config g.runtime.runtime_environ;
    runtime_env_paths = language_paths k g.runtime.runtime_env_paths;
  };
}

abbrev pub after_language : Graph → Graph
after_language g = after_kind (kind g) g

abbrev pub adds_julia : Graph → Bool
adds_julia g = elim (kind g) [
  | python ↦ false
  | r_lang ↦ false
  | julia ↦ not (is_empty g.julia_packages)
  | other ↦ false
]

abbrev pub after_packages : Graph → Graph
after_packages g = record g {
  user_directories =
      if adds_julia g then snoc g.user_directories julia_pkg_dir else g.user_directories;
  runtime = record g.runtime {
    runtime_environ =
        if adds_julia g
        then put g.runtime.runtime_environ "JULIA_DEPOT_PATH" julia_pkg_dir
        else g.runtime.runtime_environ;
    runtime_env_paths =
        if adds_julia g
        then snoc g.runtime.runtime_env_paths julia_bin_dir
        else g.runtime.runtime_env_paths;
  };
}

abbrev pub tokens : Option JupyterConfig → Option JupyterConfig
tokens none = none
tokens (some c) = some (with_token c)

abbrev pub dev_environ : Graph → Dict String
dev_environ g =
    put (put g.runtime.runtime_environ "USER" (if is_root g then "root" else "envd")) "SHELL"
      (shell_path g)

-- What the user's part of a development image leaves.
abbrev pub finished : Graph → Graph
finished g = record g {
  user = if is_root g then g.user else "envd";
  jupyter_config = tokens g.jupyter_config;
  runtime = record g.runtime { runtime_environ = dev_environ g };
}

abbrev pub after_dev : Graph → Graph
after_dev g = if g.dev then finished g else g

-- The graph before the part that depends on the user.
abbrev pub built : Buildkit → Graph → Graph
built b g = after_packages (after_language (after_base b g))

-- The graph after a compilation without an error.
abbrev pub final_graph : Buildkit → Graph → Graph
final_graph b g = after_dev (built b g)

-- An error, or the graph.
abbrev pub gate : Option Error → Graph → Result Graph
gate none g = ok g
gate (some e) g = err e
