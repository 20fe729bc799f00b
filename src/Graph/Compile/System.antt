-- ===== src/Graph/Compile/System.antt =====
-- system.go, cache.go and fs.go of pkg/lang/ir/v1.
pub mod Names
unfoldable pub use Names.{cache_id, cuda_image}
pub use Names.{
  owner_of, with_environ, is_empty, set_environ, add_path, add_user_directory, working_dir,
  extra_source_dir, build_context, cache_dir_flag, conda_path, without_colon, base_environment,
  base_apt_package, version_for_image_tag, add_lines, add_spaced,
}
use Prim.Native.String.{◌++◌}
use envd.Base.{
  String, Bool, true, false, Option, none, some, List, [], ◌∷◌, if◌then◌else◌, str_eq, snoc,
}
use envd.Base.Dict.{Dict, put}
use envd.Base.Native.{cat, join_with, cut_string, trim_newline}
use envd.FilePath.{envd_home_dir}
use envd.Graph.{Graph, HttpInfo, CopyInfo, MountInfo, RunBuildCommand}
use envd.Graph.Compile.{
  Owner, no_owner, owned, mkdir, mkfile, copy, ExecMount, cached, plain, Buildkit, World,
  metadata_failed, key_failed, index_out_of_range, Result, ok, err, M,
}

module _ (b : Buildkit) (w : World) where
  open b use {
    State, image, scratch, local_dir, http_file, file, run, dir, add_env, merge, diff, image_env,
  }

  unfoldable pub compile_ubuntu_apt : State → Graph → State
  compile_ubuntu_apt root g = elim g.ubuntu_apt_source [
    | none ↦ root
    | some source ↦
        file (mkfile "/etc/apt/sources.list" 0o644 source no_owner) "[internal] setting apt source"
          (file (mkdir "/etc/apt" 0o755 no_owner) "[internal] setting apt source" root)
  ]

  -- `copyAPTSignature`, `configRSrc` and `compileRLang`, with the constants of the one repository.
  unfoldable pub copy_apt_signature : String → String → State → State × String
  copy_apt_signature name url root =
      let file_name = name ++ ".asc" in
      let path = "/etc/apt/keyrings/" ++ file_name in
      let builder =
        run (cat ("sh -c \"curl " ∷ url ∷ " >> " ∷ file_name ∷ "\"" ∷ []))
          "[internal] downloading apt-source signature in base image" []
          (image "curlimages/curl:7.86.0") in
      (
        file (copy builder file_name path false no_owner) "[internal] copy signature from builder" (
            file (mkdir "/etc/apt/keyrings" 0o755 no_owner)
              "[internal] setting target apt-source signature folder" root),
        path,
      )

  unfoldable pub config_r_src : State → State × String
  config_r_src root =
      let (signed, path) =
        copy_apt_signature "R-base"
          "https://cloud.r-project.org/bin/linux/ubuntu/marutter_pubkey.asc" root in
      (
        signed,
        cat (
            "Enabled: yes\n" ∷ "Types: deb\n"
            ∷ "URIs: https://cloud.r-project.org/bin/linux/ubuntu\n" ∷ "Suites: focal-cran40/\n"
            ∷ "Components: \n" ∷ "Signed-By: " ∷ path ∷ "\n" ∷ "Architectures: \n" ∷ []),
      )

  unfoldable pub compile_r_lang : State → State
  compile_r_lang root =
      let (source, content) = config_r_src root in
      file
        (mkfile "/etc/apt/apt.conf.d/DEB822.conf" 0o644 "APT::Sources::Use-Deb822 true;\n" no_owner)
        "[internal] setting apt-conf file to support DEB822 format"
        (file (mkfile "/etc/apt/sources.list.d/R-base.sources" 0o644 content no_owner)
          "[internal] setting apt-source file"
          (file (mkdir "/etc/apt/sources.list.d/" 0o755 no_owner)
            "[internal] setting apt-source folder sources.list.d" source))

  -- One round of the loop of `compileRun`.
  unfoldable pub run_group : String → RunBuildCommand → State → State
  run_group workdir group root =
      run (cat ("/usr/bin/bash -c '" ∷ "set -euo pipefail\n" ∷ add_lines group.commands ∷ "'" ∷ []))
        "" (if group.mount_host then plain workdir (local_dir build_context) false ∷ [] else [])
        (dir workdir root)

  unfoldable pub run_groups : String → List RunBuildCommand → State → State
  run_groups workdir [] root = root
  run_groups workdir (e ∷ es) root = run_groups workdir es (run_group workdir e root)

  unfoldable pub compile_run : State → Graph → State
  compile_run root g = run_groups (working_dir g) g.exec root

  unfoldable pub copy_all : Owner → List CopyInfo → State → State
  copy_all o [] root = root
  copy_all o (c ∷ cs) root =
      copy_all o cs (file (copy (local_dir build_context) c.source c.destination false o) "" root)

  unfoldable pub compile_copy : State → Graph → State
  compile_copy root g = copy_all (owner_of g) g.copy root

  abbrev apt_mount : Graph → String → ExecMount State
  apt_mount g path = cached path scratch (cache_id path g) ""

  unfoldable pub install_apt : List String → Graph → State → State
  install_apt [] g root = root
  install_apt (p ∷ ps) g root =
      run
        (cat (
          "bash -c \""
          ∷ "apt-get update && apt-get install -y --no-install-recommends"
          ∷ add_spaced (p ∷ ps)
          ∷ "\""
          ∷ []))
        ("apt-get install " ++ join_with " " (p ∷ ps))
        (apt_mount g "/var/cache/apt" ∷ apt_mount g "/var/lib/apt" ∷ []) root

  unfoldable pub compile_system_packages : State → Graph → State
  compile_system_packages root g = install_apt g.system_packages g root

  unfoldable pub sources_of : Graph → List HttpInfo → List State
  sources_of g [] = []
  sources_of g (h ∷ hs) =
      file (copy (http_file h g.uid g.gid) "/" extra_source_dir true no_owner) "" scratch
      ∷ sources_of g hs

  abbrev merge_sources : State → List State → State
  merge_sources root [] = root
  merge_sources root (s ∷ ss) = merge (snoc (s ∷ ss) root) "[internal] build source layers"

  unfoldable pub compile_extra_source : State → Graph → State
  compile_extra_source root g = merge_sources root (sources_of g g.http)

  abbrev pub add_envs : List (String × String) → State → State
  add_envs [] root = root
  add_envs ((k, v) ∷ es) root = add_envs es (add_env k v root)

  unfoldable pub compile_dev_packages : State → State
  compile_dev_packages root =
      run
        (cat (
          "bash -c \""
          ∷ "apt-get update && apt-get install -y apt-utils && "
          ∷ "apt-get install -y --no-install-recommends --no-install-suggests --fix-missing "
          ∷ join_with " " base_apt_package
          ∷ "&& rm -rf /var/lib/apt/lists/* "
          ∷ "&& locale-gen en_US.UTF-8"
          ∷ "\""
          ∷ []))
        "[internal] install built-in packages" [] (add_envs (base_environment w) root)

  unfoldable pub compile_starship : State → State
  compile_starship root =
      file
        (copy (image "tensorchord/starship:v0.0.1") "/usr/local/bin/starship"
          "/usr/local/bin/starship" true no_owner)
        "[internal] add envd-starship from tensorchord/starship:v0.0.1" root

  unfoldable pub compile_sshd : State → State
  compile_sshd root =
      let sshd_image = "tensorchord/envd-sshd-from-scratch:" ++ version_for_image_tag w in
      file (copy (image sshd_image) "/usr/bin/envd-sshd" "/var/envd/bin/envd-sshd" true no_owner)
        ("[internal] add envd-sshd from " ++ sshd_image) root

  -- The loop over the environment of the base image. A text with no "=" would be a panic.
  unfoldable pub keep_envs : List String → Dict String → Result (Dict String)
  keep_envs [] d = ok d
  keep_envs (e ∷ es) d = elim (cut_string b'=' e) [
    | none ↦ err index_out_of_range
    | some (k, v) ↦ keep_envs es (put d k v)
  ]

  abbrev with_cuda : Graph → Graph
  with_cuda g = record g {
    image = elim g.cuda [ none ↦ g.image | some cuda ↦ cuda_image g.image cuda g.cudnn g.dev ];
  }

  abbrev keep_base : Graph → Option (List String) → Result (State × Graph)
  keep_base g none = err metadata_failed
  keep_base g (some envs) = elim (keep_envs envs g.runtime.runtime_environ) [
    | err e ↦ err e
    | ok d ↦ ok (image g.image, record (with_environ d g) { user = "" })
  ]

  unfoldable pub compile_base_image : M State
  compile_base_image g = keep_base (with_cuda g) (image_env (with_cuda g).image)

  unfoldable pub copy_ssh_key : State → Graph → Result State
  copy_ssh_key root g = elim (w.public_key g.public_key_path) [
    | none ↦ err key_failed
    | some key ↦ ok (
        file (mkfile "/var/envd/authorized_keys" 0o644 (trim_newline key ++ " envd") (owner_of g))
          "[internal] install ssh keys"
          (file (mkdir "/var/envd" 0o755 (owner_of g)) "[internal] create dir for ssh key" root))
  ]

  unfoldable pub mount_dirs : Owner → List MountInfo → State → State
  mount_dirs o [] root = root
  mount_dirs o (m ∷ ms) root = mount_dirs o ms (
      file (mkdir m.destination 0o755 o)
        ("[internal] create dir for runtime.mount " ++ m.destination) root)

  abbrev mount_work_dir : State → Graph → State
  mount_work_dir root g =
      if g.dev
      then (file (mkdir (working_dir g) 0o755 (owner_of g))
          ("[internal] create work dir: " ++ working_dir g) root)
      else root

  unfoldable pub compile_mount_dir : State → Graph → State
  compile_mount_dir root g = mount_dirs (owner_of g) g.mount (mount_work_dir root g)

  -- `updateEnvPath`
  unfoldable pub update_env_path : String → State → M State
  update_env_path path root g =
      let paths = snoc g.runtime.runtime_env_paths path in
      ok (add_env "PATH" (join_with ":" paths) root, add_path path g)

  -- `CompileCacheDir`
  unfoldable pub compile_cache_dir : String → State → M State
  compile_cache_dir path root g =
      ok
        (run ("mkdir -p " ++ path) "[internal] create cache dir" [] root, add_user_directory path g)
