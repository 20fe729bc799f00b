-- ===== src/V0/Compile/Shell.antt =====
-- shell.go and git.go of pkg/lang/ir/v0.
use Prim.Native.String.{◌++◌}
use envd.Base.{String, Bool, true, none, some, [], ◌∷◌, if◌then◌else◌, str_eq}
use envd.Base.Native.{cat}
use envd.FilePath.{envd_home_dir}
use envd.Graph.Compile.{no_owner, mkdir, mkfile, copy, Buildkit, ◌▷◌}
use envd.Graph.Compile.System.{cache_dir_flag}
use envd.Graph.Compile.Shell.{starship_config, git_config_text, prompt_line}
use envd.V0.{Graph}
use envd.V0.Compile.{
  World, zsh_failed, Result, ok, err, M, ◌>>◌, modify, kept, owner_of, set_environ,
}
use envd.V0.Compile.Conda.{conda_init_shell}
use envd.V0.Compile.System.{is_custom}

abbrev pub is_zsh : Graph → Bool
is_zsh g = str_eq g.shell "zsh"

unfoldable pub own_shell : Graph → Graph
own_shell g = set_environ "SHELL" (if is_zsh g then "/usr/bin/zsh" else "/usr/bin/bash") g

-- Where the activation of conda is written.
unfoldable pub rc_path : Graph → String
rc_path g = envd_home_dir ((if is_zsh g then ".zshrc" else ".bashrc") ∷ [])

module _ (b : Buildkit) (w : World b.State) where
  open b use {State, local_dir, file, run}

  unfoldable pub compile_git : State → Graph → State
  compile_git root g = elim g.git_config [
    | none ↦ root
    | some c ↦
        file (mkfile (envd_home_dir (".gitconfig" ∷ [])) 0o644 (git_config_text c) (owner_of g)) ""
          root
  ]

  unfoldable pub compile_zsh : State → Graph → Result State
  compile_zsh root g =
      let install_path = envd_home_dir ("install.sh" ∷ []) in
      if w.shared.download_zsh
      then ok (
          root
          ▷ file
              (copy (local_dir cache_dir_flag) "oh-my-zsh" (envd_home_dir (".oh-my-zsh" ∷ [])) true
                (owner_of g))
              ""
          ▷ file (mkfile install_path 0o644 w.shared.zsh_install (owner_of g)) ""
          ▷ run ("bash " ++ install_path) "[internal] install oh-my-zsh" []
          ▷ file (mkfile (envd_home_dir (".zshrc" ∷ [])) 0o644 w.shared.zsh_rc (owner_of g)) "")
      else err zsh_failed

  abbrev pub zsh_of : State → Graph → Result State
  zsh_of root g = if is_zsh g then compile_zsh root g else ok root

  unfoldable pub compile_shell : State → M State
  compile_shell root = modify own_shell >> kept (zsh_of root)

  unfoldable pub compile_conda_shell : State → Graph → State
  compile_conda_shell root g =
      root
      ▷ run (cat ("bash -c \"" ∷ conda_init_shell g.shell g ∷ "\"" ∷ []))
          (cat ("[internal] init conda " ∷ g.shell ∷ " env" ∷ [])) []
      ▷ run
          (cat ("bash -c 'echo \"source /opt/conda/bin/activate envd\" >> " ∷ rc_path g ∷ "'" ∷ []))
          ("[internal] add conda environment to " ++ rc_path g) []

  abbrev zsh_prompt : Graph → State → State
  zsh_prompt g root =
      if is_zsh g
      then (run (prompt_line b w.shared "zsh" (envd_home_dir (".zshrc" ∷ [])))
          "[internal] setting prompt zsh config" [] root)
      else root

  unfoldable pub compile_prompt : State → Graph → State
  compile_prompt root g =
      if is_custom g
      then root
      else root
        ▷ file (mkdir (envd_home_dir (".config" ∷ [])) 0o755 no_owner)
            "[internal] creating config dir"
        ▷ file
            (mkfile (envd_home_dir (".config" ∷ "starship.toml" ∷ [])) 0o644 starship_config
              (owner_of g))
            "[internal] setting prompt starship config"
        ▷ run (prompt_line b w.shared "bash" (envd_home_dir (".bashrc" ∷ [])))
            "[internal] setting prompt bash config" []
        ▷ zsh_prompt g
