-- ===== src/Tests/Graph.antt =====
-- pkg/lang/ir/v1 and pkg/editor/vscode at concrete inputs.
use Prim.Native.Char.{Char, code}
use envd.Base.{
  ap, ◌==◌, if◌then◌else◌, true, false, ◌&&◌, String, Option, none, some, List, [], ◌∷◌, ◌++◌, ◌≡◌,
  ◌≢◌, refl, arith,
}
use envd.Base.Dict.{Dict}
use envd.Base.Text.{codes}
use envd.Base.Strings.Decimal.{itoa, pos}
use envd.Plugin.{
  Plugin, plugin_string, parsed, out_of_range, parse_plugin, parse_extension, cut_first, cut_last,
}
use envd.Plugin.RoundTrip.{IsPrintable, parse_plugin-plugin_string}
use envd.Graph.{Graph, new_graph}
use envd.Graph.Rules
use envd.Graph.Rules.{done, panicked}
use envd.Graph.Program.{Rule, apply, run_program}
use envd.Graph.Program.Collects.{lists_of, merge, adds_all, run_program-lists}
use envd.Graph.Program.Panics.{IsSafe, run_program-no_panic}
use envd.Graph.Ports.{
  is_set, has_port, exposed_ports, names_port, environment_ports, has_port-exposed_ports,
}
use envd.Graph.Owner.{System, get_uid_gid, get_uid_gid-precedence}
use envd.Graph.Labels.{Codec, labels, new_manifest, manifest_of, new_manifest-labels}

abbrev no_digests : String → Option String
no_digests _ = none

abbrev build : List Rule
build =
    Rule.base "" true
    ∷ Rule.python "3.9"
    ∷ Rule.pypi_package ("numpy" ∷ "torch" ∷ []) "" []
    ∷ Rule.cuda "11.2" ""
    ∷ Rule.r_package ("tidyverse" ∷ [])
    ∷ Rule.system_package ("curl" ∷ [])
    ∷ Rule.runtime_expose (pos 8080) (pos 80) "web" ""
    ∷ Rule.run ("make" ∷ []) false
    ∷ []

abbrev built : Graph
built = (run_program no_digests build (new_graph "/bin")).0

build_succeeds : (run_program no_digests build (new_graph "/bin")).1 ≡ done
unfolding run_program apply Rules.base Rules.python Rules.pypi_package Rules.cuda Rules.r_package
    Rules.system_package Rules.runtime_expose Rules.run
build_succeeds = refl

run_program-lists_example :
    lists_of (run_program no_digests build (new_graph "/bin")).0
    ≡ merge (lists_of (new_graph "/bin")) (adds_all build)
run_program-lists_example = run_program-lists no_digests build (new_graph "/bin") build_succeeds

abbrev conda_build : List Rule
conda_build =
    Rule.conda true
    ∷ Rule.conda_package ("numpy" ∷ []) [] ""
    ∷ Rule.vscode_plugins (codes "ms-python.python" ∷ [])
    ∷ []

plugin_parses : parse_plugin (codes "ms-python.python") ≢ out_of_range
unfolding parse_plugin parse_extension cut_first cut_last
plugin_parses = λ e. cc

conda_build-IsSafe : IsSafe (is_set (new_graph "/bin").conda_config) conda_build
conda_build-IsSafe = (tt, (refl, ((plugin_parses, tt), tt)))

run_program-no_panic_example : (run_program no_digests conda_build (new_graph "/bin")).1 ≢ panicked
run_program-no_panic_example =
    run_program-no_panic no_digests conda_build (new_graph "/bin") conda_build-IsSafe

abbrev with_ports : Graph
with_ports = record (new_graph "/bin") {
  dev = true;
  cuda = some "11.2";
  system_packages = "curl" ∷ [];
  pypi_packages = ("numpy" ∷ []) ∷ ("torch" ∷ []) ∷ [];
  runtime = record (new_graph "/bin").runtime {
    runtime_expose =
        record {
          envd_port = pos 8080;
          host_port = pos 80;
          service_name = "web";
          listening_addr = "";
        }
        ∷ [];
  };
}

has_port-exposed_ports_example :
    has_port (exposed_ports with_ports) (codes "8080/tcp")
    ≡ (true && names_port (environment_ports with_ports) (codes "8080/tcp"))
has_port-exposed_ports_example =
    has_port-exposed_ports with_ports (codes "8080/tcp") (omega arith, tt)

-- A codec for lists of strings: a character stands behind a "c", and a string ends in an "e".
abbrev write_string : String → String → String
write_string String.[] rest = String.◌∷◌ "e" rest
write_string (String.◌∷◌ c s) rest = String.◌∷◌ "c" (String.◌∷◌ c (write_string s rest))

abbrev pub write_strings : List String → String
write_strings [] = ""
write_strings (s ∷ ss) = write_string s (write_strings ss)

abbrev into_first : Char → Option (List String) → Option (List String)
into_first c (some (s ∷ ss)) = some (String.◌∷◌ c s ∷ ss)
into_first c _ = none

abbrev new_first : Option (List String) → Option (List String)
new_first none = none
new_first (some ss) = some ("" ∷ ss)

abbrev pub read_strings : String → Option (List String)
read_strings String.[] = some []
read_strings (String.◌∷◌ k String.[]) = if code k == b'e' then some ("" ∷ []) else none
read_strings (String.◌∷◌ k (String.◌∷◌ c s)) =
    let ended = new_first (read_strings (String.◌∷◌ c s)) in
    let char = into_first c (read_strings s) in if code k == b'e' then ended else char

read-write_string :
    (s : String) (rest : String) (ss : List String)
    → read_strings rest ≡ some ss
    → read_strings (write_string s rest) ≡ some (s ∷ ss)
read-write_string String.[] String.[] ss h = ap new_first h
read-write_string String.[] (String.◌∷◌ c rest) ss h = ap new_first h
read-write_string (String.◌∷◌ c s) rest ss h = ap (into_first c) (read-write_string s rest ss h)

pub read-write_strings : (ss : List String) → read_strings (write_strings ss) ≡ some ss
read-write_strings [] = refl
read-write_strings (s ∷ ss) = read-write_string s (write_strings ss) ss (read-write_strings ss)

abbrev codec : Codec
codec = record {
  strings = write_strings;
  string_lists = λ _. "";
  ports = λ _. "";
  repo = λ _. "";
  dump_runtime = λ _. some "";
  dump_graph = λ _. some "";
  read_strings = read_strings;
}

labelled : (ls : Dict String) × (labels codec with_ports ≡ some ls)
unfolding labels
labelled = (_, refl)

new_manifest-labels_example :
    new_manifest codec.read_strings labelled.0 ≡ some (manifest_of with_ports.cuda with_ports)
new_manifest-labels_example =
    new_manifest-labels codec read-write_strings with_ports labelled.0 labelled.1

abbrev linux : System
linux = record { user = some (codes "501", codes "20"); darwin = false }

-- Rules behind the owner.
abbrev later_rules : List Rule
later_rules = Rule.shell "zsh" ∷ Rule.system_package ("curl" ∷ []) ∷ []

get_uid_gid-precedence_example :
    (get_uid_gid (itoa (pos 1000) ++ (b':' ∷ itoa (pos 100))) linux with_ports
      ≡ some (pos 1000, pos 100))
    × (get_uid_gid (itoa (pos 1000)) linux with_ports ≡ some (pos 1000, pos 1000))
    × (get_uid_gid [] linux
          (run_program no_digests (Rule.owner (pos 7) (pos 8) ∷ later_rules) with_ports).0
        ≡ some (pos 7, pos 8))
get_uid_gid-precedence_example =
    get_uid_gid-precedence no_digests (pos 1000) (pos 100) (pos 7) (pos 8) linux later_rules
      with_ports (omega arith) (omega arith) (λ e. cc) (λ e. cc) (tt, (tt, tt))

abbrev python_plugin : Plugin
python_plugin = record {
  publisher = codes "ms-python";
  extension = codes "python";
  version = some (codes "2021.12");
}

python_plugin-IsPrintable : IsPrintable python_plugin
python_plugin-IsPrintable = (
  (refl, (refl, (refl, (refl, (refl, (refl, (refl, (refl, (refl, tt))))))))),
  (refl, (refl, (refl, (refl, (refl, (refl, (refl, (refl, tt)))))))),
)

parse_plugin-plugin_string_example :
    parse_plugin (plugin_string python_plugin) ≡ parsed python_plugin
parse_plugin-plugin_string_example =
    parse_plugin-plugin_string python_plugin python_plugin-IsPrintable
