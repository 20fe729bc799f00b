-- ===== src/Tests/Compile.antt =====
-- The compilation of pkg/lang/ir/v1 at concrete inputs: states are the names of what was done to them.
use envd.Base.{◌++◌, true, false, String, none, some, List, [], ◌∷◌, ◌≡◌, refl}
use envd.Base.Dict.{put, get, put_all}
use envd.Base.Text.{codes}
use envd.Base.Int.{int_eq}
use envd.Base.Strings.Decimal.{pos}
use envd.Graph.{Graph, CondaConfig, new_graph}
use envd.Graph.Owner.{System}
use envd.Graph.Compile.{Buildkit, World, ok}
use envd.Graph.Compile.System.{keep_envs}
use envd.Graph.Compile.Conda.{version_of}
use envd.Base.Native.{join_with, has_prefix, cut_string}
use envd.Graph.Compile.Pipeline.{compile_llb, set_ids}
use envd.Graph.Compile.Entry.{compile, env_string, get_environ}
use envd.Graph.Compile.Environ.{entries, keep_envs-get_environ}
use envd.Graph.Compile.Effect.{all_pairs, first_error, final_graph, gate}
use envd.Graph.Compile.Refine.{forget}
use envd.Graph.Compile.Refine.Whole.{compile_llb-refines, compile_llb-succeeds, compile_llb-user}
use envd.Graph.Compile.Production.Whole.{result_of, compile-production}

abbrev names : List (List String) → List String
names [] = []
names (s ∷ ss) = s ++ names ss

abbrev pub trace : Buildkit
trace = record {
  State = List String;
  image = λ name. name ∷ [];
  scratch = [];
  local_dir = λ name. name ∷ [];
  http_file = λ h uid gid. h.url ∷ [];
  file = λ action name s. name ∷ s;
  run = λ command name mounts s. command ∷ s;
  dir = λ path s. path ∷ s;
  user = λ name s. name ∷ s;
  add_env = λ key value s. key ∷ s;
  merge = λ ss name. name ∷ names ss;
  diff = λ lower upper name. name ∷ [];
  image_env = λ name. some ("PATH=/bin" ∷ []);
}

abbrev pub world : World
world = record {
  default_system_path = "/bin";
  git_tag = "";
  get_conda = "";
  install_conda = "";
  get_julia = "";
  zsh_install = "";
  zsh_rc = "";
  public_key = λ path. some "key";
  download_zsh = true;
  download_plugin = λ p. true;
  plugin_path = λ p. "";
  hostname = λ url. "";
}

abbrev mamba : CondaConfig
mamba = record {
  conda_packages = "numpy" ∷ [];
  additional_channels = [];
  conda_channel = none;
  conda_env_file_name = "";
  use_micro_mamba = true;
}

abbrev dev_graph : Graph
dev_graph = record (new_graph "/bin") {
  language = record { name = "python"; version = some "3.11" };
  dev = true;
  shell = "zsh";
  conda_config = some mamba;
  pypi_packages = ("torch" ∷ []) ∷ [];
}

compile_llb-refines_example :
    forget (compile_llb trace world (pos 1000) (pos 1000) dev_graph)
    ≡ gate
        (first_error trace world (set_ids (pos 1000) (pos 1000) dev_graph))
        (final_graph trace (set_ids (pos 1000) (pos 1000) dev_graph))
compile_llb-refines_example = compile_llb-refines trace world (pos 1000) (pos 1000) dev_graph

abbrev built : Graph
built = final_graph trace (set_ids (pos 1000) (pos 1000) dev_graph)

has_path : all_pairs ("PATH=/bin" ∷ []) ≡ true
unfolding cut_string
has_path = refl

supported : version_of (some "3.11") ≡ ok "3.11"
unfolding version_of has_prefix
supported = refl

dev_builds :
    (s : List String) × (compile_llb trace world (pos 1000) (pos 1000) dev_graph ≡ ok (s, built))
dev_builds =
    compile_llb-succeeds trace world (pos 1000) (pos 1000) dev_graph ("PATH=/bin" ∷ []) "3.11" "key"
      refl has_path supported refl refl refl refl

compile_llb-succeeds_example :
    (s : List String) × (compile_llb trace world (pos 1000) (pos 1000) dev_graph ≡ ok (s, built))
compile_llb-succeeds_example =
    compile_llb-succeeds trace world (pos 1000) (pos 1000) dev_graph ("PATH=/bin" ∷ []) "3.11" "key"
      refl has_path supported refl refl refl refl

compile_llb-user_example :
    (built.user ≡ "envd")
    × (true ≡ true
        → (get built.runtime.runtime_environ "USER" ≡ some "envd")
          × (get built.runtime.runtime_environ "SHELL" ≡ some "/usr/bin/zsh"))
unfolding int_eq
compile_llb-user_example =
    compile_llb-user trace world (pos 1000) (pos 1000) dev_graph built dev_builds.0 dev_builds.1

abbrev linux : System
linux = record { user = some (codes "1000", codes "1000"); darwin = false }

abbrev image_graph : Graph
image_graph = record dev_graph { dev = false }

compile-production_example :
    result_of (compile trace world some "demo" "/key" [] linux image_graph)
    ≡ result_of (
        compile trace world some "demo" "/other" [] linux
          (record image_graph { shell = "bash"; entrypoint = "make" ∷ [] }))
compile-production_example =
    compile-production trace world some "demo" "/key" "/other" [] linux image_graph
      (record image_graph { shell = "bash"; entrypoint = "make" ∷ [] }) refl refl

-- A variable whose value has a "=" and one without a value.
abbrev with_variables : Graph
with_variables = record dev_graph {
  runtime = record dev_graph.runtime { runtime_environ = ("FLAGS", "--level=3") ∷ ("CI", "") ∷ [] };
}

keep_envs-get_environ_example :
    keep_envs trace world (get_environ with_variables) (("PATH", "/sbin") ∷ ("CI", "old") ∷ [])
    ≡ ok (put_all (("PATH", "/sbin") ∷ ("CI", "old") ∷ []) (entries with_variables))
keep_envs-get_environ_example =
    keep_envs-get_environ trace world with_variables (("PATH", "/sbin") ∷ ("CI", "old") ∷ [])
      ((refl, (refl, (refl, (refl, (refl, tt))))), ((refl, (refl, tt)), tt))

variables_read :
    keep_envs trace world (get_environ with_variables) []
    ≡ ok (
        ("FLAGS", "--level=3")
        ∷ ("CI", "")
        ∷ ("PATH", "/bin")
        ∷ ("LC_ALL", "en_US.UTF-8")
        ∷ ("LANG", "C.UTF-8")
        ∷ [])
unfolding keep_envs get_environ env_string cut_string put put_all join_with
variables_read = refl
