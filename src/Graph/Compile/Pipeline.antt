-- ===== src/Graph/Compile/Pipeline.antt =====
-- `CompileLLB` of pkg/lang/ir/v1/compile.go, with `compileLanguage` and `compileLanguagePackages` of
-- system.go.
use envd.Base.{Option, none, some, [], ◌∷◌, if◌then◌else◌, str_eq}
use envd.Base.Strings.Decimal.{ℤ}
use envd.Graph.{Graph, CondaConfig}
use envd.Graph.Compile.{Buildkit, World, ok, M, ◌▷◌, ◌>>=◌, ◌>>◌, pure, reads, modify, kept}
use envd.Graph.Compile.System.{
  compile_ubuntu_apt, compile_r_lang, compile_run, compile_copy, compile_system_packages,
  compile_extra_source, compile_dev_packages, compile_starship, compile_sshd, compile_base_image,
  copy_ssh_key, compile_mount_dir,
}
use envd.Graph.Compile.Conda.{compile_conda_channel, compile_conda_packages}
use envd.Graph.Compile.Python.{install_python, compile_pypi_packages, compile_pypi_index}
use envd.Graph.Compile.Languages.{
  install_julia, install_julia_packages, install_r_lang, install_r_packages,
}
use envd.Graph.Compile.User.{compile_user_own, compile_user_group}
use envd.Graph.Compile.Shell.{compile_git, compile_shell, compile_prompt}
use envd.Graph.Compile.Supervisor.{install_horust, compile_entrypoint}
use envd.Graph.Compile.Editor.{compile_vscode}

abbrev pub set_ids : ℤ → ℤ → Graph → Graph
set_ids uid gid g = record g { uid = uid; gid = gid }

module _ (b : Buildkit) (w : World) where
  open b use {State, merge, diff}

  unfoldable pub compile_language : State → M State
  compile_language root g =
      if str_eq g.language.name "python"
      then install_python b w root g
      else if str_eq g.language.name "r"
      then ok (install_r_lang b w (compile_r_lang b w root), g)
      else if str_eq g.language.name "julia"
      then install_julia b w root g
      else ok (root, g)

  abbrev pub with_conda : Option CondaConfig → State → State → Graph → State
  with_conda none root pypi g = pypi
  with_conda (some c) root pypi g =
      let conda = compile_conda_packages b w c (compile_conda_channel b w c root g) g in
      merge
        (root
          ∷ diff root pypi "[internal] PyPI packages"
          ∷ diff root conda "[internal] conda packages"
          ∷ [])
        "[internal] Python packages"

  abbrev pub python_packages : State → Graph → State
  python_packages root g =
      with_conda g.conda_config root (compile_pypi_packages b w (compile_pypi_index b w root g) g) g

  unfoldable pub compile_language_packages : State → M State
  compile_language_packages root g =
      if str_eq g.language.name "python"
      then ok (python_packages root g, g)
      else if str_eq g.language.name "r"
      then ok (install_r_packages b w root g, g)
      else if str_eq g.language.name "julia"
      then install_julia_packages b w root g
      else ok (root, g)

  -- The stable part of a development image.
  unfoldable pub prepare_dev : State → Graph → State
  prepare_dev base g =
      if g.dev
      then (base
          ▷ compile_dev_packages b w
          ▷ compile_sshd b w
          ▷ install_horust b w
          ▷ compile_starship b w
          ▷ λ root. compile_user_group b w root g)
      else base

  unfoldable pub merge_language : State → State → Graph → State
  merge_language base lang g =
      let system_packages = compile_system_packages b w (compile_ubuntu_apt b w base g) g in
      merge
        (base
          ∷ diff base lang "[internal] prepare language"
          ∷ diff base system_packages "[internal] install system packages"
          ∷ [])
        "[internal] language environment and system packages"

  -- The part of a development image that depends on the user.
  unfoldable pub finish_dev : State → M State
  finish_dev root = do
    git ← reads (compile_git b w root)
    user ← compile_user_own b w git
    key ← kept (copy_ssh_key b w user)
    shell ← compile_shell b w key
    prompt ← reads (compile_prompt b w shell)
    entrypoint ← compile_entrypoint b w prompt
    vscode ← kept (compile_vscode b w)
    pure (merge (entrypoint ∷ vscode ∷ []) "[internal] final dev environment")

  unfoldable pub postprocess : State → M State
  postprocess root g = if g.dev then finish_dev root g else ok (root, g)

  unfoldable pub compile_llb : ℤ → ℤ → M State
  compile_llb uid gid = do
    modify (set_ids uid gid)
    image ← compile_base_image b w
    base ← reads (prepare_dev image)
    lang ← compile_language base
    packed ← reads (merge_language base lang)
    packages ← compile_language_packages packed
    source ← reads (compile_extra_source b w packages)
    copied ← reads (compile_copy b w source)
    final ← postprocess copied
    run ← reads (compile_run b w final)
    reads (compile_mount_dir b w run)
