-- ===== src/Tests/Frontend.antt =====
-- Build files as the interpreter of pkg/lang/frontend/starlark/v1 runs them.
use envd.Base.{
  ℕ, true, false, ◌||◌, ◌&&◌, String, Option, none, some, List, [], ◌∷◌, ◌≡◌, refl, inl, inr,
  Bool-cases, str_eq, if◌then◌else◌, arith, ◌<◌,
}
use envd.Base.Dict.{get, put}
use envd.Base.Native.{cat, has_prefix}
use envd.Base.Text.{codes}
use envd.Base.Strings.Decimal.{pos}
use envd.Graph.{new_graph}
use envd.Graph.Ports.{exposed_ports, environment_ports, has_port, names_port}
use envd.Frontend.{
  Value, none_value, flag, int, str, list, function, nil, cons, Param, Args, Host, ◌>>=◌,
  to_string_slice, strings_of,
}
use envd.Frontend.Builtins.{Builtin, call}
use envd.Frontend.Install
use envd.Frontend.Config
use envd.Frontend.Runtime
use envd.Frontend.Universe
use envd.Graph.Rules
use envd.Frontend.Sound.Programs.{IsSound, new_graph-IsSound}
use envd.Frontend.Interpreter.{
  Script, finish, builtin, load, World, Loaded, globals, error, cycle, panic, State, Run, exec,
  exec_new, run_script, exec_file,
}
use envd.Frontend.Interpreter.Unseen.{contains, unseen}
use envd.Frontend.Interpreter.Ends.{Within, exec_file-ends}
use envd.Frontend.Interpreter.Graphs.{
  ByRules, exec_file-ByRules, exec_file-IsSound, exec_file-has_port,
}
use envd.Frontend.Interpreter.Again.{exec-again}
use envd.Frontend.Interpreter.Post.{is_globals}

-- Keyword arguments only, by the names of the parameters.
abbrev keyword : List (String × Value) → String → Option Value
keyword [] name = none
keyword ((k, v) ∷ kvs) name =
    let rest = keyword kvs name in
    if str_eq k name || str_eq (cat (k ∷ "?" ∷ [])) name then some v else rest

abbrev unpack_keywords : List Param → List (String × Value) → List (Option Value)
unpack_keywords [] kvs = []
unpack_keywords (p ∷ ps) kvs = keyword kvs p.name ∷ unpack_keywords ps kvs

abbrev demo_host : Host
demo_host = record {
  unpack = λ rule ps args. some (unpack_keywords ps args.keywords);
  unpack_positional = λ rule n args. some [];
  parse_digest = λ s. some s;
  is_ip = λ s. str_eq s "127.0.0.1";
  home_dir = some "/home/user";
  cache_dir = "/home/user/.cache/envd";
  is_missing = λ s. true;
  mkdir_all = λ s. true;
}

abbrev with_keywords : List (String × Value) → Args
with_keywords kvs = record { positional = []; keywords = kvs }

-- `install.python_packages(name = ["numpy"])`
abbrev lib_file : Script
lib_file =
    builtin Builtin.install_python_packages
      (with_keywords (("name", list (cons (str "numpy") nil)) ∷ []))
      (λ v. finish (("lib", none_value) ∷ []))

-- Loads the other file, sets the owner, and exposes a port.
abbrev build_file : Script
build_file = load "lib.envd" (λ d.
    builtin Builtin.config_owner
      (with_keywords (("uid", int (pos 1000)) ∷ ("gid", int (pos 100)) ∷ []))
      (λ v.
        builtin Builtin.runtime_expose (with_keywords (("envd_port", int (pos 8080)) ∷ []))
          (λ v'. finish (("build", function 0) ∷ []))))

abbrev demo_file : String → Script
demo_file path =
    if str_eq path "build.envd"
    then build_file
    else if str_eq path "lib.envd"
    then lib_file
    else finish []

-- `base(dev = True)`
abbrev demo_body : ℕ → Script
demo_body n = builtin Builtin.base (with_keywords (("dev", flag true) ∷ [])) (λ v. finish [])

abbrev demo : World
demo = record {
  host = demo_host;
  file = demo_file;
  body = demo_body;
  lib_dir = "/home/user/.cache/envd/envdlib";
  dir_exists = λ path. some false;
  clone = λ url path. true;
  open_repo = λ path. true;
  worktree = λ path. true;
  walk = λ path. [];
}

abbrev start : State
start = record { graph = new_graph "/bin"; cache = [] }

abbrev names : List String
names = "build.envd" ∷ "lib.envd" ∷ []

demo-Within : (path : String) → Within demo names (demo_file path)
unfolding Within contains
demo-Within path = elim (Bool-cases (str_eq path "build.envd")) [
  | inl e ↦ rw e (refl, λ d v v'. tt)
  | inr e ↦
      rw e (elim (Bool-cases (str_eq path "lib.envd")) [ inl k ↦ rw k (λ v. tt) | inr k ↦ rw k tt ])
]

demo_body-Within : (n : ℕ) → Within demo names (demo_body n)
unfolding Within
demo_body-Within n = λ v. tt

named : contains names "build.envd" ≡ true
unfolding contains
named = refl

few : unseen names [] < 3
unfolding unseen get
few = omega arith

exec_file-ends_example :
    (st' : State) × (r : Loaded) × (exec_file demo 3 "build.envd" "build" start ≡ some (st', r))
exec_file-ends_example =
    exec_file-ends demo names 3 "build.envd" "build" start demo-Within demo_body-Within named few

-- The state after a run, and how it ended.
abbrev end_of : Run → State × Loaded
end_of (some r) = r
end_of none = (start, panic)

end_of_lem : (o : Run) {st : State} {r : Loaded} → o ≡ some (st, r) → o ≡ some (end_of o)
end_of_lem none e = cc
end_of_lem (some r) e = refl

demo_end : State × Loaded
demo_end = end_of (exec_file demo 3 "build.envd" "build" start)

demo_runs : exec_file demo 3 "build.envd" "build" start ≡ some (demo_end.0, demo_end.1)
unfolding demo_end
demo_runs =
    let (st', r, e) =
      exec_file-ends demo names 3 "build.envd" "build" start demo-Within demo_body-Within named
        few in
    end_of_lem (exec_file demo 3 "build.envd" "build" start) e

exec_file-ByRules_example : ByRules demo_host start.graph (is_globals demo_end.1) demo_end.0.graph
exec_file-ByRules_example =
    exec_file-ByRules demo 3 "build.envd" "build" start demo_end.0 demo_end.1 demo_runs

exec_file-IsSound_example : IsSound demo_host demo_end.0.graph
exec_file-IsSound_example =
    exec_file-IsSound demo 3 "build.envd" "build" start demo_end.0 demo_end.1 demo_runs
      (new_graph-IsSound demo_host "/bin")

exec_file-has_port_example :
    has_port (exposed_ports demo_end.0.graph) (codes "8080/tcp")
    ≡ (demo_end.0.graph.dev && names_port (environment_ports demo_end.0.graph) (codes "8080/tcp"))
exec_file-has_port_example =
    exec_file-has_port demo 3 "build.envd" "build" "/bin" start demo_end.0 demo_end.1
      (codes "8080/tcp") refl demo_runs

-- The run reaches its end: the owner, the port and the target are set.
demo_owner : demo_end.0.graph.uid ≡ pos 1000
unfolding demo_end exec_file exec exec_new run_script call ◌>>=◌ Config.rule_func_owner Rules.owner
    Runtime.rule_func_expose Rules.runtime_expose Install.rule_func_pypi_package strings_of
    to_string_slice Rules.pypi_package Universe.rule_func_base Rules.base get put has_prefix
demo_owner = refl

lib_state : State
lib_state = record {
  graph = record (new_graph "/bin") { pypi_packages = ("numpy" ∷ []) ∷ [] };
  cache = ("lib.envd", some (globals (("lib", none_value) ∷ []))) ∷ [];
}

lib_runs : exec demo 2 "lib.envd" start ≡ some (lib_state, globals (("lib", none_value) ∷ []))
unfolding lib_state exec exec_new run_script call ◌>>=◌ Install.rule_func_pypi_package strings_of
    to_string_slice Rules.pypi_package get put has_prefix
lib_runs = refl

few_left : unseen names lib_state.cache < 3
unfolding unseen get lib_state
few_left = omega arith

-- The build file, run behind the file that it loads.
later : State × Loaded
later = end_of (exec_file demo 3 "build.envd" "build" lib_state)

later_runs : exec_file demo 3 "build.envd" "build" lib_state ≡ some (later.0, later.1)
unfolding later
later_runs =
    let (st', r, e) =
      exec_file-ends demo names 3 "build.envd" "build" lib_state demo-Within demo_body-Within named
        few_left in
    end_of_lem (exec_file demo 3 "build.envd" "build" lib_state) e

exec-again_example :
    exec demo 1 "lib.envd" later.0 ≡ some (later.0, globals (("lib", none_value) ∷ []))
exec-again_example =
    exec-again demo 2 3 0 "lib.envd" "build.envd" "build" start lib_state later.0
      (("lib", none_value) ∷ []) later.1 lib_runs later_runs

cycle_file : String → Script
cycle_file path = load "a.envd" (λ d. finish [])

cycle_found :
    exec (record demo { file = cycle_file }) 3 "a.envd" start
    ≡ some (
      record start { cache = ("a.envd", some (error (cycle "a.envd"))) ∷ [] },
      error (cycle "a.envd"),
    )
unfolding exec exec_new run_script cycle_file get put has_prefix
cycle_found = refl
