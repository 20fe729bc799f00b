-- ===== src/Graph/Labels.antt =====
-- pkg/lang/ir/v1/compile.go, `Labels`, and pkg/types/envd.go, `newManifest`: what an image's labels
-- say of the graph it was built from, and what the commands read back from them.
use envd.Base.{
  Bool, false, String, Option, none, some, List, [], ◌∷◌, ◌++◌, ◌≡◌, arith, if◌then◌else◌, str_eq,
}
use envd.Base.Dict.{Dict, get, put}
use envd.Graph.{Graph, RuntimeGraph, RepoInfo}
use envd.Graph.Ports.{EnvironmentPort, environment_ports, is_set}

-- pkg/types/label.go
abbrev pub container_name_label : String
container_name_label = "ai.tensorchord.envd.container.name"

abbrev pub vendor_label : String
vendor_label = "ai.tensorchord.envd.vendor"

abbrev pub gpu_label : String
gpu_label = "ai.tensorchord.envd.gpu"

abbrev pub repo_label : String
repo_label = "ai.tensorchord.envd.repo"

abbrev pub ports_label : String
ports_label = "ai.tensorchord.envd.ports"

abbrev pub apt_label : String
apt_label = "ai.tensorchord.envd.apt.packages"

abbrev pub pypi_label : String
pypi_label = "ai.tensorchord.envd.pypi.commands"

abbrev pub r_label : String
r_label = "ai.tensorchord.envd.r.packages"

abbrev pub cuda_label : String
cuda_label = "ai.tensorchord.envd.gpu.cuda"

abbrev pub cudnn_label : String
cudnn_label = "ai.tensorchord.envd.gpu.cudnn"

abbrev pub context_label : String
context_label = "ai.tensorchord.envd.build.context"

abbrev pub syntax_version_label : String
syntax_version_label = "ai.tensorchord.envd.syntax.version"

abbrev pub runtime_graph_label : String
runtime_graph_label = "ai.tensorchord.envd.graph.runtime"

abbrev pub general_graph_label : String
general_graph_label = "ai.tensorchord.envd.graph.general"

-- The encoders that `Labels` calls: `json.Marshal` on four types, which has no error on them, and
-- the two `Dump`s, which may fail. `read_strings` is `json.Unmarshal` into a list of strings.
pub record Codec : Type 0 where
  pub strings : List String → String
  pub string_lists : List (List String) → String
  pub ports : List EnvironmentPort → String
  pub repo : RepoInfo → String
  pub dump_runtime : RuntimeGraph → Option String
  pub dump_graph : Graph → Option String
  pub read_strings : String → Option (List String)

abbrev pub concat : List (List String) → List String
concat [] = []
concat (x ∷ xs) = x ++ concat xs

-- `GPUEnabled`
abbrev pub gpu_enabled : Graph → Bool
gpu_enabled g = is_set g.cuda

abbrev gpu_labels : Option String → String → Dict String → Dict String
gpu_labels none cudnn ls = ls
gpu_labels (some cuda) cudnn ls =
    put (put (put ls gpu_label "true") cuda_label cuda) cudnn_label cudnn

module _ (codec : Codec) where
  abbrev package_labels : Graph → Dict String
  package_labels g =
      put
        (put
          (put (put [] syntax_version_label g.envd_syntax_version) apt_label
            (codec.strings g.system_packages))
          pypi_label (codec.strings (concat g.pypi_packages)))
        r_label (codec.string_lists g.r_packages)

  abbrev rest_labels : Graph → String → String → Dict String → Dict String
  rest_labels g runtime graph ls =
      put
        (put
          (put
            (put (put (put ls vendor_label "envd") runtime_graph_label runtime) general_graph_label
              graph)
            ports_label (codec.ports (environment_ports g)))
          repo_label (codec.repo g.repo))
        container_name_label g.environment_name

  -- `none` is the error. The caller drops the labels that Go returns beside it.
  unfoldable pub labels : Graph → Option (Dict String)
  labels g = elim (codec.dump_runtime g.runtime) [
    | none ↦ none
    | some runtime ↦ elim (codec.dump_graph g) [
      | none ↦ none
      | some graph ↦
          some (rest_labels g runtime graph (gpu_labels g.cuda g.cudnn (package_labels g)))
    ]
  ]

-- `EnvdManifest` with its `Dependency`.
pub record Manifest : Type 0 where
  pub gpu : Bool
  pub cuda : String
  pub cudnn : String
  pub build_context : String
  pub apt_packages : List String
  pub pypi_packages : List String

abbrev value_or : Option String → String
value_or none = ""
value_or (some v) = v

module _ (read_strings : String → Option (List String)) where
  -- A missing label is an empty list, one that is no JSON is an error.
  abbrev read_packages : Option String → Option (List String)
  read_packages none = some []
  read_packages (some s) = read_strings s

  -- `NewDependencyFromLabels`
  unfoldable pub new_dependency_from_labels : Dict String → Option (List String × List String)
  new_dependency_from_labels ls = elim (read_packages (get ls apt_label)) [
    | none ↦ none
    | some apt ↦ elim (read_packages (get ls pypi_label)) [
      | none ↦ none
      | some pypi ↦ some (apt, pypi)
    ]
  ]

  abbrev is_true : Option String → Bool
  is_true none = false
  is_true (some s) = str_eq s "true"

  -- `newManifest`
  unfoldable pub new_manifest : Dict String → Option Manifest
  new_manifest ls = elim (new_dependency_from_labels ls) [
    | none ↦ none
    | some (apt, pypi) ↦ some (record {
      gpu = is_true (get ls gpu_label);
      cuda = value_or (get ls cuda_label);
      cudnn = value_or (get ls cudnn_label);
      build_context = value_or (get ls context_label);
      apt_packages = apt;
      pypi_packages = pypi;
    })
  ]

-- What the graph says of an image, without its labels.
abbrev pub manifest_of : Option String → Graph → Manifest
manifest_of cuda g = record {
  gpu = is_set cuda;
  cuda = value_or cuda;
  cudnn = if is_set cuda then g.cudnn else "";
  build_context = "";
  apt_packages = g.system_packages;
  pypi_packages = concat g.pypi_packages;
}

module _ (codec : Codec)
    (read_back : (xs : List String) → codec.read_strings (codec.strings xs) ≡ some xs) where
  new_manifest-rest_labels :
      (cuda : Option String) (g : Graph) (runtime graph : String)
      → new_manifest codec.read_strings
          (rest_labels codec g runtime graph (gpu_labels cuda g.cudnn (package_labels codec g)))
        ≡ some (manifest_of cuda g)
  unfolding new_manifest new_dependency_from_labels get put
  new_manifest-rest_labels none g runtime graph =
      rw (read_back g.system_packages, read_back (concat g.pypi_packages))
  new_manifest-rest_labels (some cuda) g runtime graph =
      rw (read_back g.system_packages, read_back (concat g.pypi_packages))

  -- For a graph whose labels are built, what the commands read back from the labels is what the
  -- graph says: whether it has a GPU, the CUDA and cuDNN versions (empty without a GPU), the system
  -- packages, and the PyPI packages of all its rules. It holds for a JSON decoder that reads back
  -- what the encoder wrote.
  pub new_manifest-labels :
      (g : Graph) (ls : Dict String)
      → labels codec g ≡ some ls
      → new_manifest codec.read_strings ls ≡ some (manifest_of g.cuda g)
  unfolding labels
  new_manifest-labels g ls h = grind (arith, new_manifest-rest_labels g.cuda g)
