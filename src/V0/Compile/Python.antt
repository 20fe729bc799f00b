-- ===== src/V0/Compile/Python.antt =====
-- python.go and custom.go of pkg/lang/ir/v0.
use Prim.Native.String.{◌++◌}
use envd.Base.{
  String, Bool, true, false, not, ◌&&◌, Option, none, some, List, [], ◌∷◌, if◌then◌else◌,
}
use envd.Base.Native.{cat, join_with}
use envd.Graph.Compile as V1
use envd.Graph.Compile.{no_owner, mkdir, mkfile, ExecMount, cached, plain, Buildkit, ◌▷◌}
use envd.Graph.Compile.Python.{given, hosts_of}
use envd.Graph.Compile.System.{build_context, is_empty}
use envd.V0.{Graph}
use envd.V0.Compile.{
  World, ok, err, M, ◌>>=◌, ◌>>◌, reads, kept, on_copy, owner_of, cache_id, working_dir,
  compile_cache_dir,
}
use envd.V0.Compile.System.{install_apt, compile_ubuntu_apt, compile_system_packages, copy_ssh_key}
use envd.V0.Compile.Conda.{compile_conda_environment, compile_conda_channel, compile_conda_packages}
use envd.V0.Compile.Shell.{compile_shell, compile_conda_shell}
use envd.V0.Compile.Editor.{compile_jupyter, compile_vscode}

abbrev is_none {ℓ} : {A : Type ℓ} → Option A → Bool
is_none none = true
is_none (some _) = false

-- The line of trusted hosts of `compilePyPIIndex`, behind the line of the extra index.
unfoldable pub trusted_hosts : V1.World → Graph → String
trusted_hosts w g =
    let hosts = hosts_of w (given g.pypi_index_url g.pypi_extra_index_url) in
    if g.pypi_trust && not (is_empty hosts) then "\ntrusted-host=" ++ join_with " " hosts else ""

abbrev extra_line : Option String → String
extra_line none = ""
extra_line (some u) = "extra-index-url=" ++ u

module _ (b : Buildkit) (w : World b.State) where
  open b use {State, scratch, local_dir, file, run, dir, merge, diff}

  unfoldable pub compile_alternative : State → State
  compile_alternative root =
      root
      ▷ run "update-alternatives --install /usr/bin/python python /opt/conda/envs/envd/bin/python 1"
          "[internal] update alternative python to envd" []
      ▷ run
          "update-alternatives --install /usr/bin/python3 python3 /opt/conda/envs/envd/bin/python3 1"
          "[internal] update alternative python3 to envd" []
      ▷ run "update-alternatives --install /usr/bin/pip pip /opt/conda/envs/envd/bin/pip 1"
          "[internal] update alternative pip to envd" []
      ▷ run "update-alternatives --install /usr/bin/pip3 pip3 /opt/conda/envs/envd/bin/pip3 1"
          "[internal] update alternative pip3 to envd" []

  abbrev pip_cache : String
  pip_cache = "/root/.cache/pip"

  abbrev pip_mount : Graph → ExecMount State
  pip_mount g =
      cached pip_cache
        (file (mkdir "/cache/pip" 0o755 no_owner) "[internal] setting pip cache mount permissions"
          scratch)
        (cache_id pip_cache g) "/cache/pip"

  abbrev pip : String
  pip = "/opt/conda/envs/envd/bin/python -m pip install "

  unfoldable pub pip_install : Graph → List (List String) → State → State
  pip_install g [] root = root
  pip_install g (p ∷ ps) root =
      pip_install g ps
        (run (pip ++ join_with " " p) ("pip install " ++ join_with " " p) (pip_mount g ∷ []) root)

  unfoldable pub pip_requirements : Graph → State → State
  pip_requirements g root = elim g.requirements_file [
    | none ↦ root
    | some f ↦
        root
        ▷ dir (working_dir g)
        ▷ run (cat (pip ∷ "-r  " ∷ f ∷ [])) ("pip install -r " ++ f)
            (pip_mount g ∷ plain (working_dir g) (local_dir build_context) false ∷ [])
  ]

  unfoldable pub pip_wheels : Graph → List String → State → State
  pip_wheels g [] root = root
  pip_wheels g (f ∷ fs) root = pip_wheels g fs (
      run (pip ++ f) ("pip install " ++ f)
        (plain (working_dir g) (local_dir build_context) true ∷ pip_mount g ∷ []) root)

  abbrev pip_wheels_dir : Graph → State → State
  pip_wheels_dir g root =
      if is_empty g.python_wheels
      then root
      else pip_wheels g g.python_wheels (dir (working_dir g) root)

  -- `compilePyPIPackages`. Its receiver is a copy, whose list of directories is dropped with it.
  unfoldable pub compile_pypi_packages : State → Graph → State
  compile_pypi_packages root g =
      if is_empty g.pypi_packages && (is_none g.requirements_file && is_empty g.python_wheels)
      then root
      else elim (compile_cache_dir b pip_cache root g) [
        | err e ↦ root
        | ok (root', g') ↦
            root' ▷ pip_install g' g'.pypi_packages ▷ pip_requirements g' ▷ pip_wheels_dir g'
      ]

  unfoldable pub compile_pypi_index : State → Graph → State
  compile_pypi_index root g = elim g.pypi_index_url [
    | none ↦ root
    | some url ↦
        root
        ▷ file (mkdir "/etc" 0o755 (owner_of g)) "[internal] setting PyPI index dir /etc"
        ▷ file
            (mkfile "/etc/pip.conf" 0o644
              (cat (
                "\n[global]\nindex-url="
                ∷ url
                ∷ "\n"
                ∷ extra_line g.pypi_extra_index_url
                ∷ trusted_hosts w.shared g
                ∷ "\n\n[install]\nsrc = /tmp\n"
                ∷ []))
              (owner_of g))
            "[internal] setting PyPI index file /etc/pip.conf"
  ]

  -- The stage with the system packages, the environment of conda and the shell.
  abbrev pub pre_python : State → State → State → State → String → State
  pre_python base system conda shell name =
      merge
        (diff base system "[internal] install system packages"
          ∷ diff base conda "[internal] conda python environment"
          ∷ diff base shell ("[internal] configure shell " ++ name)
          ∷ base
          ∷ [])
        "pre-python stage"

  abbrev pub conda_stage : State → Graph → State
  conda_stage pre g =
      diff pre (compile_conda_packages b w (compile_conda_channel b w pre g) g)
        "[internal] install conda packages"

  abbrev pub pypi_stage : State → Graph → State
  pypi_stage pre g =
      diff pre (compile_pypi_packages (compile_pypi_index pre g) g)
        "[internal] install PyPI packages"

  -- The plugins' layer, if there is one, comes last, and the order of the others differs.
  abbrev merge_python : State → State → State → State → Option State → State
  merge_python pre conda pypi ssh (some vscode) =
      merge (pre ∷ conda ∷ pypi ∷ ssh ∷ vscode ∷ []) "[internal] generating the image"
  merge_python pre conda pypi ssh none =
      merge (pre ∷ conda ∷ ssh ∷ pypi ∷ []) "[internal] generating the image"

  -- The steps behind the key.
  abbrev pub finish_python : State → State → State → State → Option State → Graph → State
  finish_python pre packages pypi key vscode = compile_conda_shell b w (
      compile_alternative
        (merge_python pre packages pypi (diff pre key "[internal] install ssh key") vscode))

  -- `compilePython`, on its copy of the graph.
  unfoldable pub python_on_copy : State → M State
  python_on_copy base = do
    compile_jupyter
    system ← reads (λ g. compile_system_packages b w (compile_ubuntu_apt b w base g) g)
    conda ← kept (compile_conda_environment b w base)
    shell ← compile_shell b w base
    pre ← reads (λ g. pre_python base system conda shell g.shell)
    packages ← reads (conda_stage pre)
    pypi ← reads (pypi_stage pre)
    vscode ← kept (compile_vscode b w)
    key ← kept (copy_ssh_key b w pre)
    reads (finish_python pre packages pypi key vscode)

  unfoldable pub compile_python : State → M State
  compile_python base = on_copy (python_on_copy base)

  -- custom.go
  unfoldable pub custom_pip_install : Graph → List (List String) → State → State
  custom_pip_install g [] root = root
  custom_pip_install g (p ∷ ps) root = custom_pip_install g ps (
      run ("pip install " ++ join_with " " p) ("pip install " ++ join_with " " p)
        (cached "/home/root/.cache"
            (file (mkdir "/cache" 0o755 no_owner) "[internal] settings pip cache mount permissions"
              scratch)
            (cache_id "/home/root/.cache" g) "/cache"
          ∷ [])
        root)

  unfoldable pub compile_custom_pypi_packages : State → Graph → State
  compile_custom_pypi_packages root g = custom_pip_install g g.pypi_packages root

  unfoldable pub compile_custom_system_packages : State → Graph → State
  compile_custom_system_packages root g =
      install_apt b w
        (cat (
          "apt-get update && apt-get install -y "
          ∷ "--no-install-recommends --no-install-suggests --fix-missing" ∷ []))
        g.system_packages g root

  unfoldable pub compile_custom_python : State → Graph → State
  compile_custom_python base g =
      base
      ▷ (λ root. compile_ubuntu_apt b w root g)
      ▷ (λ root. compile_pypi_index root g)
      ▷ (λ root. compile_custom_system_packages root g)
      ▷ λ root. compile_custom_pypi_packages root g
