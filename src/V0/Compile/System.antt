-- ===== src/V0/Compile/System.antt =====
-- system.go of pkg/lang/ir/v0, and user.go.
use Prim.Native.String.{◌++◌}
use envd.Base.{String, Bool, true, ◌||◌, Option, none, some, List, [], ◌∷◌, if◌then◌else◌, snoc}
use envd.Base.Int.{int_eq}
use envd.Base.Strings.Decimal.{pos}
use envd.Base.Native.{cat, join_with, cut_string, trim_newline, decimal}
use envd.Graph.{HttpInfo}
use envd.Graph.Ports.{is_set}
use envd.Graph.Compile.{no_owner, mkdir, mkfile, copy, ExecMount, cached, Buildkit, ◌▷◌}
use envd.Graph.Compile.System as V1
use envd.Graph.Compile.System.{
  extra_source_dir, base_environment, base_apt_package, version_for_image_tag, add_spaced,
}
use envd.Graph.Compile.User.{chown_all, root_group}
use envd.V0.{Graph}
use envd.V0.Compile.{
  World, metadata_failed, key_failed, index_out_of_range, Result, ok, err, M, owner_of, set_environ,
  cache_id, working_dir,
}

abbrev pub is_root : Graph → Bool
is_root g = int_eq g.uid (pos 0)

abbrev pub is_custom : Graph → Bool
is_custom g = is_set g.image

-- The loop over the environment of a custom image. A text with no "=" would be a panic.
unfoldable pub keep_envs : List String → Graph → Result Graph
keep_envs [] g = ok g
keep_envs (e ∷ es) g = elim (cut_string b'=' e) [
  | none ↦ err index_out_of_range
  | some (k, v) ↦ keep_envs es (set_environ k v g)
]

unfoldable pub own_user : Graph → Graph
own_user g = set_environ "USER" (if is_custom g || is_root g then "root" else "envd") g

module _ (b : Buildkit) (w : World b.State) where
  open b use {State, image, scratch, http_file, file, run, user, add_env, merge, image_env}

  unfoldable pub compile_ubuntu_apt : State → Graph → State
  compile_ubuntu_apt root g = elim g.ubuntu_apt_source [
    | none ↦ root
    | some source ↦
        root
        ▷ file (mkdir "/etc/apt" 0o755 no_owner) "[internal] setting apt source"
        ▷ file (mkfile "/etc/apt/sources.list" 0o644 source no_owner)
            "[internal] setting apt source"
  ]

  unfoldable pub compile_run : State → Graph → State
  compile_run root g = V1.run_groups b w.shared (working_dir g) g.exec root

  unfoldable pub compile_copy : State → Graph → State
  compile_copy root g = V1.copy_all b w.shared (owner_of g) g.copy root

  abbrev apt_mount : Graph → String → ExecMount State
  apt_mount g path = cached path scratch (cache_id path g) ""

  -- The command and its mounts, which `compileSystemPackages` and `compileCustomSystemPackages` share.
  abbrev pub install_apt : String → List String → Graph → State → State
  install_apt command [] g root = root
  install_apt command (p ∷ ps) g root =
      run (cat ("bash -c \"" ∷ command ∷ add_spaced (p ∷ ps) ∷ "\"" ∷ []))
        ("apt-get install " ++ join_with " " (p ∷ ps))
        (apt_mount g "/var/cache/apt" ∷ apt_mount g "/var/lib/apt" ∷ []) root

  unfoldable pub compile_system_packages : State → Graph → State
  compile_system_packages root g =
      install_apt "sudo apt-get update && sudo apt-get install -y --no-install-recommends"
        g.system_packages g root

  unfoldable pub sources_of : Graph → List HttpInfo → List State
  sources_of g [] = []
  sources_of g (h ∷ hs) =
      file (copy (http_file h g.uid g.gid) "/" extra_source_dir true no_owner) "" scratch
      ∷ sources_of g hs

  abbrev merge_sources : State → List State → State
  merge_sources root [] = root
  merge_sources root (s ∷ ss) = merge (snoc (s ∷ ss) root) "[internal] build source layers"

  unfoldable pub compile_extra_source : State → Graph → State
  compile_extra_source root g = merge_sources root (sources_of g g.http)

  unfoldable pub prepare_python_base : State → State
  prepare_python_base root =
      run
        (cat (
          "bash -c \""
          ∷ "apt-get update && apt-get install -y apt-utils && "
          ∷ "apt-get install -y --no-install-recommends --no-install-suggests --fix-missing "
          ∷ join_with " " base_apt_package
          ∷ "&& rm -rf /var/lib/apt/lists/* "
          ∷ "&& locale-gen en_US.UTF-8"
          ∷ "\""
          ∷ []))
        "[internal] install built-in packages" []
        (V1.add_envs b w.shared (base_environment w.shared) root)

  -- `compileCUDAPackages("nvidia/cuda")`, for a version of CUDA.
  unfoldable pub compile_cuda_packages : String → Graph → State
  compile_cuda_packages cuda g = prepare_python_base (
      image (
        cat
          ("docker.io/" ∷ "nvidia/cuda" ∷ ":" ∷ cuda ∷ "-cudnn" ∷ g.cudnn ∷ "-devel-" ∷ g.os ∷ [])))

  unfoldable pub compile_sshd : State → State
  compile_sshd root =
      let sshd_image = "tensorchord/envd-sshd-from-scratch:" ++ version_for_image_tag w.shared in
      file (copy (image sshd_image) "/usr/bin/envd-sshd" "/var/envd/bin/envd-sshd" true no_owner)
        ("[internal] add envd-sshd from " ++ sshd_image) root

  unfoldable pub compile_starship : State → State
  compile_starship root =
      file
        (copy (image "tensorchord/starship:v0.0.1") "/usr/local/bin/starship"
          "/usr/local/bin/starship" true no_owner)
        "[internal] add envd-starship from tensorchord/starship:v0.0.1" root

  abbrev pub with_envs : String → Option (List String) → M State
  with_envs name none g = err metadata_failed
  with_envs name (some envs) g = elim (keep_envs envs g) [
    | err e ↦ err e
    | ok g' ↦ ok (image name, g')
  ]

  -- `customBase`, for a graph with an image.
  unfoldable pub custom_base : String → M State
  custom_base name = with_envs name (image_env name)

  unfoldable pub copy_ssh_key : State → Graph → Result State
  copy_ssh_key root g = elim (w.shared.public_key g.public_key_path) [
    | none ↦ err key_failed
    | some key ↦ ok (
        root
        ▷ file (mkdir "/var/envd" 0o755 (owner_of g)) "[internal] create dir for ssh key"
        ▷ file (mkfile "/var/envd/authorized_keys" 0o644 (trim_newline key ++ " envd") (owner_of g))
            "[internal] install ssh keys")
  ]

  abbrev mount_work_dir : State → Graph → State
  mount_work_dir root g =
      if is_custom g
      then root
      else file (mkdir (working_dir g) 0o755 (owner_of g))
          ("[internal] create work dir: " ++ working_dir g) root

  unfoldable pub compile_mount_dir : State → Graph → State
  compile_mount_dir root g = V1.mount_dirs b w.shared (owner_of g) g.mount (mount_work_dir root g)

  -- The state of `compileUserOwn`. The state that `user.AddEnv("PATH", ..)` returns is not used.
  unfoldable pub own_state : State → Graph → State
  own_state root g =
      if is_custom g || is_root g
      then root
      else root
        ▷ chown_all b w.shared g.user_directories
        ▷ user "envd"
        ▷ V1.add_envs b w.shared (base_environment w.shared)

  unfoldable pub compile_user_own : State → M State
  compile_user_own root g = ok (own_state root g, own_user g)

  unfoldable pub compile_user_group : State → Graph → State
  compile_user_group root g =
      if is_custom g
      then root
      else if is_root g
      then root_group b w.shared root
      else root
        ▷ run (cat ("groupadd -g " ∷ decimal g.gid ∷ " envd" ∷ []))
            "[internal] create user group envd" []
        ▷ run (cat ("useradd -p \"\" -u " ∷ decimal g.uid ∷ " -g envd -s /bin/sh -m envd" ∷ []))
            "[internal] create user envd" []
        ▷ run "adduser envd sudo" "[internal] add user envd to sudoers" []
        ▷ run
            (cat (
              "install -d -o envd -g "
              ∷ decimal g.gid
              ∷ " -m 0700 /home/envd/.config /home/envd/.cache"
              ∷ []))
            "[internal] mkdir config and cache dir" []
