-- ===== src/Graph/Compile/Languages.antt =====
-- julia.go and r.go of pkg/lang/ir/v1.
use Prim.Native.String.{◌++◌}
use envd.Base.{String, false, Option, none, some, List, [], ◌∷◌, if◌then◌else◌}
use envd.Base.Native.{cat, join_with}
use envd.Graph.{Graph}
use envd.Graph.Compile.{no_owner, mkdir, copy, Buildkit, World, ok, M, ◌▷◌, ◌>>=◌}
use envd.Graph.Compile.System.{set_environ, add_user_directory, is_empty, update_env_path}
use envd.Graph.Compile.Conda.{builder_image}

abbrev pub julia_bin_dir : String
julia_bin_dir = "/opt/julia/bin"

abbrev pub julia_pkg_dir : String
julia_pkg_dir = "/opt/julia/user_packages"

module _ (b : Buildkit) (w : World) where
  open b use {State, image, file, run, add_env}

  unfoldable pub get_julia_binary : State → State
  get_julia_binary root =
      let builder =
        image builder_image
        ▷ run (cat ("sh -c '" ∷ w.get_julia ∷ "'" ∷ [])) "[internal] downloading julia binary" [] in
      root
      ▷ file (copy builder "/tmp/julia.tar.gz" "/tmp/julia.tar.gz" false no_owner)
          "[internal] copying julia.tar.gz to /tmp"
      ▷ file (mkdir "/opt/julia" 0o755 no_owner)
          "[internal] creating /opt/julia folder for julia binary"
      ▷ run "bash -c \"tar zxvf /tmp/julia.tar.gz --strip 1 -C /opt/julia && rm /tmp/julia.tar.gz\""
          "[internal] unpack julia archive under /opt/julia" []

  unfoldable pub install_julia : State → M State
  install_julia root = update_env_path b w julia_bin_dir (get_julia_binary root)

  unfoldable pub add_julia_packages : List (List String) → State → State
  add_julia_packages [] root = root
  add_julia_packages (p ∷ ps) root = add_julia_packages ps (
      run (cat ("julia -e 'using Pkg; Pkg.add([\"" ∷ join_with "\",\"" p ∷ "\"])'" ∷ []))
        ("[internal] installing Julia packages: " ++ join_with " " p) [] root)

  unfoldable pub own_julia_packages : Graph → Graph
  own_julia_packages g =
      add_user_directory julia_pkg_dir (set_environ "JULIA_DEPOT_PATH" julia_pkg_dir g)

  abbrev pub julia_packages_of : State → M State
  julia_packages_of root =
      update_env_path b w julia_bin_dir (
        file (mkdir julia_pkg_dir 0o755 no_owner) "[internal] creating folder for julia packages"
          root)
      >>= λ root'. λ g. ok (
        add_julia_packages g.julia_packages (add_env "JULIA_DEPOT_PATH" julia_pkg_dir root'),
        own_julia_packages g,
      )

  unfoldable pub install_julia_packages : State → M State
  install_julia_packages root g =
      if is_empty g.julia_packages then ok (root, g) else julia_packages_of root g

  unfoldable pub install_r_lang : State → State
  install_r_lang root =
      run "bash -c \"apt-get update && apt-get install -y -t focal-cran40 r-base\""
        "[internal] apt install R environment from CRAN repository" [] root

  abbrev mirror_of : Option String → String
  mirror_of none = "https://cran.rstudio.com"
  mirror_of (some url) = url

  unfoldable pub add_r_packages : String → List (List String) → State → State
  add_r_packages mirror [] root = root
  add_r_packages mirror (p ∷ ps) root = add_r_packages mirror ps (
      run
        (cat (
          "R -e 'options(repos = \""
          ∷ mirror
          ∷ "\"); install.packages(c(\""
          ∷ join_with "\",\"" p
          ∷ "\"), lib = \"/usr/local/lib/R/site-library/\")'"
          ∷ []))
        ("[internal] installing R packages: " ++ join_with " " p) [] root)

  unfoldable pub install_r_packages : State → Graph → State
  install_r_packages root g =
      if is_empty g.r_packages
      then root
      else add_r_packages (mirror_of g.cran_mirror_url) g.r_packages (
          run "chmod 777 /usr/local/lib/R/site-library/"
            "[internal] setting execute permission for default R package library for envd users" []
            root)
