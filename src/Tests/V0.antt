-- ===== src/Tests/V0.antt =====
-- pkg/lang/ir/v0 at concrete inputs.
use Prim.Native.String.{◌++◌}
use envd.Base.{◌↔◌, ◌⊎◌, inl, true, String, some, [], ◌∷◌, ◌≡◌, refl, ◌&&◌, arith}
use envd.Base.Dict.{Dict}
use envd.Base.Text.{codes}
use envd.Base.Strings.Decimal.{pos}
use envd.Graph.Ports.{ssh_port, tcp, has_port, names_port}
use envd.Graph.Labels.{new_manifest}
use envd.V0.{Graph, new_graph}
use envd.V0.Rules.{done, base}
use envd.V0.Rules.Language.{IsVersion, base-language}
use envd.V0.Labels.{
  Codec, labels, manifest_of, exposed_ports, environment_ports, new_manifest-labels_v0,
  has_port-exposed_ports_v0,
}
use envd.V0.Compile.{World, jupyter_not_supported, err}
use envd.V0.Compile.Pipeline.{compile_llb}
use envd.V0.Compile.Effect.{llb_effect}
use envd.V0.Compile.Refine.{graph_of}
use envd.V0.Compile.Refine.Whole.{compile_llb-llb_effect}
use envd.Tests.Compile.{trace, world}
use envd.Tests.Graph.{write_strings, read_strings, read-write_strings}

abbrev in_r : Graph
in_r = record (new_graph "/bin") {
  language = record { name = "r"; version = some "" };
  shell = "zsh";
  r_packages = "tidyverse" ∷ [];
  jupyter_config = some (record { token = ""; port = pos 0 });
}

abbrev served : Graph
served = record (new_graph "/bin") {
  cuda = some "11.2";
  system_packages = "curl" ∷ [];
  pypi_packages = ("numpy" ∷ "torch" ∷ []) ∷ [];
  runtime = record (new_graph "/bin").runtime {
    runtime_expose =
        record {
          envd_port = pos 8080;
          host_port = pos 80;
          service_name = "web";
          listening_addr = "";
        }
        ∷ [];
  };
}

abbrev world_v0 : World trace.State
world_v0 = record {
  shared = world;
  organization = "tensorchord";
  install_conda = "";
  install_mamba = "";
  empty = [];
}

jupyter_refused : llb_effect world trace.image_env (pos 1000) in_r ≡ err jupyter_not_supported
unfolding llb_effect
jupyter_refused = refl

compile_llb-llb_effect_example :
    graph_of (compile_llb trace world_v0 (pos 1000) (pos 1000) served)
    ≡ llb_effect world trace.image_env (pos 1000) served
compile_llb-llb_effect_example = compile_llb-llb_effect trace world_v0 (pos 1000) (pos 1000) served

has_port-exposed_ports_v0_example :
    (has_port (exposed_ports served) (codes "8080/tcp")
      ≡ (true && names_port (environment_ports served) (codes "8080/tcp")))
    × (names_port (environment_ports served) (tcp ssh_port) ≡ true)
has_port-exposed_ports_v0_example =
    has_port-exposed_ports_v0 served (codes "8080/tcp") (omega arith, tt)

abbrev codec : Codec
codec = record {
  strings = write_strings;
  ports = λ _. "";
  repo = λ _. "";
  dump_runtime = λ _. some "";
  dump_graph = λ _. some "";
  read_strings = read_strings;
}

labelled : (ls : Dict String) × (labels codec served ≡ some ls)
unfolding labels
labelled = (_, refl)

new_manifest-labels_v0_example :
    new_manifest codec.read_strings labelled.0 ≡ some (manifest_of served.cuda served)
new_manifest-labels_v0_example =
    new_manifest-labels_v0 codec read-write_strings served labelled.0 labelled.1

abbrev empty_graph : Graph
empty_graph = new_graph "/bin"

abbrev in_python : Graph
in_python = record empty_graph { language = record { name = "python"; version = some "3.9" } }

base-language_example : (base "" "python3.9" "" empty_graph ≡ (in_python, done)) ↔ (
    (l : String) × (s : String) × ((l ≡ "python") ⊎ (l ≡ "r") ⊎ (l ≡ "julia"))
    × IsVersion s
    × (l ++ s ≡ "python3.9")
    × (in_python ≡ record empty_graph { language = record { name = l; version = some s } }))
base-language_example = base-language "" "python3.9" "" empty_graph in_python

python_accepted : base "" "python3.9" "" empty_graph ≡ (in_python, done)
python_accepted =
    (base-language "" "python3.9" "" empty_graph in_python).1
      ("python", "3.9", inl refl, (omega arith, omega arith), refl, refl)
