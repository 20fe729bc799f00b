-- ===== src/V0/Compile/Languages.antt =====
-- julia.go and r.go of pkg/lang/ir/v0.
use envd.Base.{String, Option, none, some, List, [], ◌∷◌, ◌++◌ as append, if◌then◌else◌}
use envd.Base.Native.{cat}
use envd.Graph.Compile.{Buildkit, ◌▷◌}
use envd.Graph.Compile.System.{is_empty}
use envd.V0.{Graph}
use envd.V0.Compile.{World, M, ◌>>=◌, ◌>>◌, pure, reads, kept, on_copy, update_env_path}
use envd.V0.Compile.System.{compile_ubuntu_apt, compile_system_packages, copy_ssh_key}
use envd.V0.Compile.Shell.{compile_shell}
use envd.V0.Compile.Editor.{compile_jupyter, compile_vscode}

-- The loop that quotes the packages and separates them by commas.
abbrev quoted : List String → String
quoted [] = ""
quoted (p ∷ []) = cat ("\"" ∷ p ∷ "\"" ∷ [])
quoted (p ∷ q ∷ ps) = cat ("\"" ∷ p ∷ "\"" ∷ ", " ∷ quoted (q ∷ ps) ∷ [])

abbrev mirror_of : Option String → String
mirror_of none = "https://cran.rstudio.com"
mirror_of (some url) = url

module _ (b : Buildkit) (w : World b.State) where
  open b use {State, run, user, add_env, merge, diff}

  abbrev with_package_server : Option String → State → State
  with_package_server none root = root
  with_package_server (some url) root = add_env "JULIA_PKG_SERVER" url root

  unfoldable pub install_julia_packages : State → Graph → State
  install_julia_packages root g =
      if is_empty g.julia_packages
      then root
      else root
        ▷ user "envd"
        ▷ with_package_server g.julia_package_server
        ▷ add_env "PATH" "/usr/local/julia/bin"
        ▷ run
            (cat (
              "/usr/local/julia/bin/julia -e 'using Pkg; Pkg.add(["
              ∷ quoted g.julia_packages
              ∷ "])'"
              ∷ []))
            "install julia packages" []

  unfoldable pub install_r_packages : State → Graph → State
  install_r_packages root g =
      if is_empty g.r_packages
      then root
      else root
        ▷ user "envd"
        ▷ run
            (cat (
              "R -e 'options(repos = c(CRAN = \""
              ∷ mirror_of g.cran_mirror_url
              ∷ "\")); install.packages(c("
              ∷ quoted g.r_packages
              ∷ "))'"
              ∷ []))
            "install R packages" []

  -- The layers behind the system's, where that of the plugins is left out if there is none.
  abbrev merge_layers : List State → Option State → State
  merge_layers layers none = merge layers "[internal] generating the image"
  merge_layers layers (some vscode) =
      merge (append layers (vscode ∷ [])) "[internal] generating the image"

  abbrev pub packages_image : String → State → State → State → State → State → Option State → State
  packages_image name system key shell apt installed vscode =
      merge_layers
        (system
          ∷ diff system apt "install system packages"
          ∷ diff system shell "install shell"
          ∷ diff system key "install ssh keys"
          ∷ diff system installed name
          ∷ [])
        vscode

  -- What `compileRLang` and `compileJulia` have in common, by the packages of the language.
  abbrev pub compile_packages : (State → Graph → State) → String → State → M State
  compile_packages packages name base = do
    compile_jupyter
    system ← reads (compile_ubuntu_apt b w base)
    key ← kept (copy_ssh_key b w system)
    shell ← compile_shell b w system
    apt ← reads (compile_system_packages b w system)
    installed ← reads (packages system)
    vscode ← kept (compile_vscode b w)
    pure (packages_image name system key shell apt installed vscode)

  unfoldable pub compile_r_lang : State → M State
  compile_r_lang base = on_copy (compile_packages install_r_packages "install R packages" base)

  unfoldable pub compile_julia : State → M State
  compile_julia base = do
    root ← update_env_path b "/usr/local/julia/bin" base
    compile_packages install_julia_packages "install julia packages" root
