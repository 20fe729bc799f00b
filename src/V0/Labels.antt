-- ===== src/V0/Labels.antt =====
-- pkg/lang/ir/v0/compile.go: the labels of an image and the ports that it exposes.
use envd.Base.{
  Bool, true, false, not, ◌&&◌, String, Option, none, some, List, [], ◌∷◌, ◌++◌, ◌≡◌, refl, ap, ◌∙◌,
  arith, if◌then◌else◌,
}
use envd.Base.Dict.{Dict, get, put}
use envd.Base.Text.{Text, text_eq_refl}
use envd.Graph as V1
use envd.Graph.{RuntimeGraph, RepoInfo}
use envd.Graph.Ports
use envd.Graph.Ports.{
  EnvironmentPort, AllFit, is_set, ssh_port, jupyter_port, rstudio_server_port, tcp, insert_port,
  insert_items, insert_if, port_items, port_if, has_port, names_port, has_port-exposed_ports,
}
use envd.Graph.Labels.{
  concat, container_name_label, vendor_label, gpu_label, repo_label, ports_label, apt_label,
  pypi_label, r_label, cuda_label, cudnn_label, syntax_version_label, runtime_graph_label,
  general_graph_label, new_manifest, new_dependency_from_labels, Manifest,
}
use envd.V0.{Graph}

-- `GPUEnabled`
abbrev pub gpu_enabled : Graph → Bool
gpu_enabled g = is_set g.cuda

-- `ExposedPorts`: none for a custom image.
unfoldable pub exposed_ports : Graph → List Text
exposed_ports g =
    if is_set g.image
    then []
    else insert_items
        (insert_if g.rstudio_server_config rstudio_server_port
          (insert_if (is_set g.jupyter_config) jupyter_port (insert_port [] (tcp ssh_port))))
        g.runtime.runtime_expose

-- The list `ports` of `Labels`, which is the same for a custom image.
unfoldable pub environment_ports : Graph → List EnvironmentPort
environment_ports g =
    (record { name = "ssh"; port = ssh_port } ∷ [])
    ++ port_if (is_set g.jupyter_config) "jupyter" jupyter_port
    ++ port_if g.rstudio_server_config "rstudio-server" rstudio_server_port
    ++ port_items g.runtime.runtime_expose

-- The encoders that `Labels` calls, and `json.Unmarshal` into a list of strings.
pub record Codec : Type 0 where
  pub strings : List String → String
  pub ports : List EnvironmentPort → String
  pub repo : RepoInfo → String
  pub dump_runtime : RuntimeGraph → Option String
  pub dump_graph : Graph → Option String
  pub read_strings : String → Option (List String)

abbrev gpu_labels : Option String → String → Dict String → Dict String
gpu_labels none cudnn ls = ls
gpu_labels (some cuda) cudnn ls =
    put (put (put ls gpu_label "true") cuda_label cuda) cudnn_label cudnn

module _ (codec : Codec) where
  abbrev package_labels : Graph → Dict String
  package_labels g =
      put
        (put
          (put (put [] syntax_version_label g.envd_syntax_version) apt_label
            (codec.strings g.system_packages))
          pypi_label (codec.strings (concat g.pypi_packages)))
        r_label (codec.strings g.r_packages)

  abbrev rest_labels : Graph → String → String → Dict String → Dict String
  rest_labels g runtime graph ls =
      put
        (put
          (put
            (put (put (put ls vendor_label "envd") runtime_graph_label runtime) general_graph_label
              graph)
            ports_label (codec.ports (environment_ports g)))
          repo_label (codec.repo g.repo))
        container_name_label g.environment_name

  abbrev dumped : Graph → Option String → Option String → Option (Dict String)
  dumped g (some runtime) (some graph) =
      some (rest_labels g runtime graph (gpu_labels g.cuda g.cudnn (package_labels g)))
  dumped g _ _ = none

  -- `Labels`. `none` is the error, beside which the caller drops the labels.
  unfoldable pub labels : Graph → Option (Dict String)
  labels g = dumped g (codec.dump_runtime g.runtime) (codec.dump_graph g)

-- What the graph says of an image, without its labels.
abbrev pub manifest_of : Option String → Graph → Manifest
manifest_of none g = record {
  gpu = false;
  cuda = "";
  cudnn = "";
  build_context = "";
  apt_packages = g.system_packages;
  pypi_packages = concat g.pypi_packages;
}
manifest_of (some cuda) g = record {
  gpu = true;
  cuda = cuda;
  cudnn = g.cudnn;
  build_context = "";
  apt_packages = g.system_packages;
  pypi_packages = concat g.pypi_packages;
}

module _ (codec : Codec)
    (read_back : (xs : List String) → codec.read_strings (codec.strings xs) ≡ some xs) where
  new_manifest-rest_labels :
      (cuda : Option String) (g : Graph) (runtime graph : String)
      → new_manifest codec.read_strings
          (rest_labels codec g runtime graph (gpu_labels cuda g.cudnn (package_labels codec g)))
        ≡ some (manifest_of cuda g)
  unfolding new_manifest new_dependency_from_labels get put
  new_manifest-rest_labels none g runtime graph =
      rw (read_back g.system_packages, read_back (concat g.pypi_packages))
  new_manifest-rest_labels (some cuda) g runtime graph =
      rw (read_back g.system_packages, read_back (concat g.pypi_packages))

  dumped-manifest :
      (g : Graph) (r d : Option String) (ls : Dict String)
      → dumped codec g r d ≡ some ls
      → new_manifest codec.read_strings ls ≡ some (manifest_of g.cuda g)
  dumped-manifest g (some r) (some d) ls h = cc (new_manifest-rest_labels g.cuda g r d)
  dumped-manifest g (some r) none ls h = absurd (cc)
  dumped-manifest g none d ls h = absurd (cc)

  -- For a graph of version 0 whose labels are built, what the commands read back from the labels is
  -- what the graph says: whether it has a GPU, the CUDA and cuDNN versions (empty without a GPU), the
  -- system packages, and the PyPI packages of all its rules. It holds for a JSON decoder that reads
  -- back what the encoder wrote.
  pub new_manifest-labels_v0 :
      (g : Graph) (ls : Dict String)
      → labels codec g ≡ some ls
      → new_manifest codec.read_strings ls ≡ some (manifest_of g.cuda g)
  unfolding labels
  new_manifest-labels_v0 g ls h =
      dumped-manifest g (codec.dump_runtime g.runtime) (codec.dump_graph g) ls h

-- The graph of version 1 with the same servers and ports.
abbrev as_v1 : Graph → V1.Graph
as_v1 g = record (V1.new_graph "") {
  dev = not (is_set g.image);
  jupyter_config = g.jupyter_config;
  rstudio_server_config = g.rstudio_server_config;
  runtime = g.runtime;
}

exposed_ports-as_v1 : (g : Graph) → exposed_ports g ≡ Ports.exposed_ports (as_v1 g)
unfolding exposed_ports Ports.exposed_ports
exposed_ports-as_v1 g = ground arith

-- An image of version 0 that is not custom exposes port p over TCP exactly if its label names that
-- port, provided the ports of its build file fit in 32 bits, and a custom image exposes none, though
-- its label names the port of ssh.
pub has_port-exposed_ports_v0 :
    (g : Graph) (k : Text)
    → AllFit g.runtime.runtime_expose
    → (has_port (exposed_ports g) k ≡ (not (is_set g.image) && names_port (environment_ports g) k))
      × (names_port (environment_ports g) (tcp ssh_port) ≡ true)
unfolding environment_ports Ports.environment_ports
has_port-exposed_ports_v0 g k h = (
  ap (λ ps. has_port ps k) (exposed_ports-as_v1 g) ∙ has_port-exposed_ports (as_v1 g) k h,
  rw (text_eq_refl (tcp ssh_port)) refl,
)
