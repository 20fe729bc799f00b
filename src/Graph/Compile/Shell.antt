-- ===== src/Graph/Compile/Shell.antt =====
-- shell.go and git.go of pkg/lang/ir/v1: the shell, its prompt and git in a development image.
use Prim.Native.String.{◌++◌}
use envd.Base.{String, Bool, true, none, some, [], ◌∷◌, if◌then◌else◌, str_eq}
use envd.Base.Native.{cat}
use envd.FilePath.{envd_home_dir, default_home_dir}
use envd.Graph.{Graph, CondaConfig, GitConfig}
use envd.Graph.Compile.{
  no_owner, mkdir, mkfile, copy, Buildkit, World, zsh_failed, Result, ok, err, M, ◌▷◌, ◌>>=◌, ◌>>◌,
  modify, kept,
}
use envd.Graph.Compile.System.{owner_of, set_environ, cache_dir_flag}
use envd.Graph.Compile.Conda.{conda_init_shell}

abbrev pub is_zsh : Graph → Bool
is_zsh g = str_eq g.shell "zsh"

abbrev pub shell_path : Graph → String
shell_path g = if is_zsh g then "/usr/bin/zsh" else "/usr/bin/bash"

unfoldable pub starship_config : String
starship_config = cat (
    "\n[container]\nformat = \"[$symbol \\[envd\\]]($style)\"\n\n"
    ∷ "[sudo]\ndisabled = false\nsymbol = \"sudo \"\n\n[python]\nsymbol = \"Py \"\n\n"
    ∷ "[status]\nformat = '[\\[$status:$common_meaning$signal_name\\]]($style) '\n"
    ∷ "disabled = false\n\n[git_branch]\nsymbol = \"git \"\n\n"
    ∷ "[git_commit]\ntag_symbol = \" tag \"\n\n[git_status]\nahead = \">\"\nbehind = \"<\"\n"
    ∷ "diverged = \"<>\"\nrenamed = \"r\"\ndeleted = \"x\"\n" ∷ [])

unfoldable pub git_config_text : GitConfig → String
git_config_text c = cat (
    "\n[user]\n\temail = " ∷ c.email ∷ "\n\tname = " ∷ c.name ∷ "\n[core]\n\teditor = " ∷ c.editor
    ∷ "\n\n" ∷ [])

-- Where the activation of conda is written.
unfoldable pub rc_path : Graph → String
rc_path g =
    let rc = if is_zsh g then ".zshrc" else ".bashrc" in
    if g.dev then envd_home_dir (rc ∷ []) else default_home_dir (rc ∷ [])

module _ (b : Buildkit) (w : World) where
  open b use {State, local_dir, file, run}

  unfoldable pub compile_git : State → Graph → State
  compile_git root g = elim g.git_config [
    | none ↦ root
    | some c ↦
        file (mkfile (envd_home_dir (".gitconfig" ∷ [])) 0o644 (git_config_text c) (owner_of g)) ""
          root
  ]

  unfoldable pub compile_zsh : State → Result State
  compile_zsh root =
      let install_path = envd_home_dir ("install.sh" ∷ []) in
      if w.download_zsh
      then ok (
          root
          ▷ file
              (copy (local_dir cache_dir_flag) "oh-my-zsh" (envd_home_dir (".oh-my-zsh" ∷ [])) true
                no_owner)
              ""
          ▷ file (mkfile install_path 0o666 w.zsh_install no_owner) ""
          ▷ run ("bash " ++ install_path) "[internal] install oh-my-zsh" []
          ▷ file (mkfile (envd_home_dir (".zshrc" ∷ [])) 0o666 w.zsh_rc no_owner) "")
      else err zsh_failed

  unfoldable pub compile_conda_shell : CondaConfig → State → Graph → State
  compile_conda_shell c root g =
      root
      ▷ run (cat ("bash -c \"" ∷ conda_init_shell c g.shell ∷ "\"" ∷ []))
          (cat ("[internal] init conda " ∷ g.shell ∷ " env" ∷ [])) []
      ▷ run
          (cat ("bash -c 'echo \"source /opt/conda/bin/activate envd\" >> " ∷ rc_path g ∷ "'" ∷ []))
          ("[internal] add conda environment to " ++ rc_path g) []

  abbrev conda_shell_of : State → Graph → State
  conda_shell_of root g = elim g.conda_config [
    | none ↦ root
    | some c ↦ compile_conda_shell c root g
  ]

  abbrev zsh_of : State → Graph → Result State
  zsh_of root g = if is_zsh g then compile_zsh root else ok root

  unfoldable pub own_shell : Graph → Graph
  own_shell g = set_environ "SHELL" (shell_path g) g

  unfoldable pub compile_shell : State → M State
  compile_shell root =
      modify own_shell >> (kept (zsh_of root) >>= λ root'. λ g. ok (conda_shell_of root' g, g))

  abbrev pub prompt_line : String → String → String
  prompt_line shell path =
      cat ("bash -c 'echo \"eval \\\"\\$(starship init " ∷ shell ∷ ")\\\"\" >> " ∷ path ∷ "'" ∷ [])

  abbrev zsh_prompt : Graph → State → State
  zsh_prompt g root =
      if is_zsh g
      then (run (prompt_line "zsh" (envd_home_dir (".zshrc" ∷ [])))
          "[internal] setting prompt zsh config" [] root)
      else root

  unfoldable pub compile_prompt : State → Graph → State
  compile_prompt root g =
      root
      ▷ file (mkdir (envd_home_dir (".config" ∷ [])) 0o755 no_owner)
          "[internal] creating config dir"
      ▷ file
          (mkfile (envd_home_dir (".config" ∷ "starship.toml" ∷ [])) 0o644 starship_config
            (owner_of g))
          "[internal] setting prompt starship config"
      ▷ run (prompt_line "bash" (envd_home_dir (".bashrc" ∷ [])))
          "[internal] setting prompt bash config" []
      ▷ zsh_prompt g
