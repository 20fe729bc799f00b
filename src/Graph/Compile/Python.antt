-- ===== src/Graph/Compile/Python.antt =====
-- python.go of pkg/lang/ir/v1.
use Prim.Native.String.{◌++◌}
use envd.Base.{
  String, Bool, true, false, not, ◌&&◌, Option, none, some, List, [], ◌∷◌, if◌then◌else◌, str_eq,
}
use envd.Base.Native.{cat, join_with}
use envd.Graph.{Graph, CondaConfig}
use envd.Graph.Compile.{
  no_owner, mkdir, mkfile, copy, ExecMount, cached, plain, Buildkit, World, ok, err, M, ◌▷◌, ◌>>=◌,
  kept,
}
use envd.Graph.Compile.System.{
  owner_of, cache_id, working_dir, build_context, is_empty, conda_path, update_env_path,
  compile_cache_dir,
}
use envd.Graph.Compile.Conda.{
  micro_mamba_image, python_version, compile_conda_environment, install_conda,
}

abbrev is_none {ℓ} : {A : Type ℓ} → Option A → Bool
is_none none = true
is_none (some _) = false

-- The two index URLs that are given, in the order of the source.
abbrev pub given : Option String → Option String → List String
given none none = []
given none (some q) = q ∷ []
given (some p) none = p ∷ []
given (some p) (some q) = p ∷ q ∷ []

abbrev pub hosts_of : World → List String → List String
hosts_of w [] = []
hosts_of w (p ∷ ps) =
    if str_eq (w.hostname p) "" then hosts_of w ps else w.hostname p ∷ hosts_of w ps

-- The line of trusted hosts of `compilePyPIIndex`.
unfoldable pub trusted_hosts : World → Graph → String
trusted_hosts w g =
    let hosts = hosts_of w (given g.pypi_index_url g.pypi_extra_index_url) in
    if g.pypi_trust && not (is_empty hosts) then "trusted-host=" ++ join_with " " hosts else ""

module _ (b : Buildkit) (w : World) where
  open b use {State, image, scratch, local_dir, file, run, dir}

  unfoldable pub compile_alternative : State → State
  compile_alternative root =
      root
      ▷ run "update-alternatives --install /usr/bin/python python /opt/conda/envs/envd/bin/python 1"
          "[internal] update alternative python to envd" []
      ▷ run
          "update-alternatives --install /usr/bin/python3 python3 /opt/conda/envs/envd/bin/python3 1"
          "[internal] update alternative python3 to envd" []
      ▷ run "update-alternatives --install /usr/bin/pip pip /opt/conda/envs/envd/bin/pip 1"
          "[internal] update alternative pip to envd" []
      ▷ run "update-alternatives --install /usr/bin/pip3 pip3 /opt/conda/envs/envd/bin/pip3 1"
          "[internal] update alternative pip3 to envd" []

  -- The states of `installPython` without a configuration of conda.
  unfoldable pub plain_python : String → State → State
  plain_python version root =
      root
      ▷ file (mkdir "/etc/ssl/certs" 0o755 no_owner) "[internal] mkdir certs"
      ▷ file
          (copy (image micro_mamba_image) "/etc/ssl/certs/ca-certificates.crt" "/etc/ssl/certs"
            false no_owner)
          "[internal] copy cert from mamba"
      ▷ file (copy (image micro_mamba_image) "/bin/micromamba" "/usr/local/bin" false no_owner)
          "[internal] copy micromamba binary"
      ▷ run
          (cat (
            "bash -c \"/usr/local/bin/micromamba create -p /opt/conda/envs/envd -c defaults python="
            ∷ version ∷ "\"" ∷ []))
          ("[internal] create envd python=" ++ version) []
      ▷ run "rm /usr/local/bin/micromamba" "[internal] rm micromamba binary" []

  abbrev pub python_of : Option CondaConfig → State → M State
  python_of none root = kept python_version >>= λ version.
      λ g. ok (compile_alternative (plain_python version root), g)
  python_of (some c) root = install_conda b w c root >>= λ py.
      kept (compile_conda_environment b w c py) >>= λ env. λ g. ok (compile_alternative env, g)

  unfoldable pub install_python : State → M State
  install_python root =
      update_env_path b w conda_path root >>= λ root'. λ g. python_of g.conda_config root' g

  abbrev pip_cache : String
  pip_cache = "/root/.cache/pip"

  abbrev pip_mount : Graph → ExecMount State
  pip_mount g =
      cached pip_cache
        (file (mkdir "/cache/pip" 0o755 no_owner) "[internal] setting pip cache mount permissions"
          scratch)
        (cache_id pip_cache g) "/cache/pip"

  unfoldable pub pip_install : Graph → List (List String) → State → State
  pip_install g [] root = root
  pip_install g (p ∷ ps) root = pip_install g ps (
      run ("python -m pip install " ++ join_with " " p)
        ("[internal] pip install " ++ join_with " " p) (pip_mount g ∷ []) root)

  unfoldable pub pip_requirements : Graph → State → State
  pip_requirements g root = elim g.requirements_file [
    | none ↦ root
    | some f ↦
        root
        ▷ dir (working_dir g)
        ▷ run ("python -m pip install -r " ++ f) ("pip install -r " ++ f)
            (pip_mount g ∷ plain (working_dir g) (local_dir build_context) false ∷ [])
  ]

  unfoldable pub pip_wheels : Graph → List String → State → State
  pip_wheels g [] root = root
  pip_wheels g (f ∷ fs) root = pip_wheels g fs (
      run ("python -m pip install " ++ f) ("pip install " ++ f)
        (plain (working_dir g) (local_dir build_context) true ∷ pip_mount g ∷ []) root)

  abbrev pub pip_wheels_dir : Graph → State → State
  pip_wheels_dir g root =
      if is_empty g.python_wheels
      then root
      else pip_wheels g g.python_wheels (dir (working_dir g) root)

  abbrev pub pip_all : Graph → State → State
  pip_all g root = pip_wheels_dir g (pip_requirements g (pip_install g g.pypi_packages root))

  -- `compilePyPIPackages`. Its receiver is a copy, whose list of directories is dropped with it.
  unfoldable pub compile_pypi_packages : State → Graph → State
  compile_pypi_packages root g =
      if is_empty g.pypi_packages && (is_none g.requirements_file && is_empty g.python_wheels)
      then root
      else elim (compile_cache_dir b w pip_cache root g) [
        | err e ↦ root
        | ok (root', g') ↦ pip_all g' root'
      ]

  abbrev extra_line : Option String → String
  extra_line none = ""
  extra_line (some u) = "extra-index-url=" ++ u

  unfoldable pub compile_pypi_index : State → Graph → State
  compile_pypi_index root g = elim g.pypi_index_url [
    | none ↦ root
    | some url ↦
        root
        ▷ file (mkdir "/etc" 0o755 (owner_of g)) "[internal] setting PyPI index dir /etc"
        ▷ file
            (mkfile "/etc/pip.conf" 0o644
              (cat (
                "\n[global]\nindex-url="
                ∷ url
                ∷ "\n"
                ∷ extra_line g.pypi_extra_index_url
                ∷ "\n"
                ∷ trusted_hosts w g
                ∷ "\n\n[install]\nsrc = /tmp\n"
                ∷ []))
              (owner_of g))
            "[internal] setting PyPI index file /etc/pip.conf"
  ]
