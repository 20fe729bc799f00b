-- ===== src/Graph/Compile/User.antt =====
-- user.go of pkg/lang/ir/v1: the user of a development image.
use Prim.Native.String.{◌++◌}
use envd.Base.{String, Bool, List, [], ◌∷◌, if◌then◌else◌}
use envd.Base.Int.{int_eq}
use envd.Base.Native.{cat, join_with, decimal}
use envd.Base.Strings.Decimal.{pos}
use envd.Graph.{Graph}
use envd.Graph.Compile.{Buildkit, World, ok, M, ◌▷◌}
use envd.Graph.Compile.System.{set_environ, add_envs, base_environment}

abbrev pub is_root : Graph → Bool
is_root g = int_eq g.uid (pos 0)

-- The name of the user in the graph.
unfoldable pub own_user : Graph → Graph
own_user g =
    if is_root g
    then set_environ "USER" "root" g
    else record (set_environ "USER" "envd" g) { user = "envd" }

module _ (b : Buildkit) (w : World) where
  open b use {State, run, user, add_env}

  unfoldable pub chown_all : List String → State → State
  chown_all [] root = root
  chown_all (d ∷ ds) root =
      chown_all ds (
        run ("chown -R envd:envd " ++ d) ("[internal] configure user permissions for " ++ d) []
          root)

  -- The states of `compileUserOwn`.
  unfoldable pub own_state : State → Graph → State
  own_state root g =
      if is_root g
      then root
      else root
        ▷ chown_all g.user_directories
        ▷ user "envd"
        ▷ add_envs b w (base_environment w)
        ▷ add_env "PATH" (join_with ":" g.runtime.runtime_env_paths)

  unfoldable pub compile_user_own : State → M State
  compile_user_own root g = ok (own_state root g, own_user g)

  unfoldable pub root_group : State → State
  root_group root =
      root
      ▷ run "groupadd -g 1001 envd" "[internal] still create group envd for root context" []
      ▷ run "useradd -p \"\" -u 1001 -g envd -s /bin/sh -m envd"
          "[internal] still create user envd for root context" []
      ▷ run "usermod -s /bin/sh root" "[internal] set root default shell to /bin/sh" []
      ▷ run "sed -i \"s/envd:x:1001:1001/envd:x:0:0/g\" /etc/passwd"
          "[internal] set envd uid to 0 as root" []
      ▷ run "sed -i \"s./root./home/envd.g\" /etc/passwd"
          "[internal] set root home dir to /home/envd" []
      ▷ run "sed -i \"s/envd:x:1001/envd:x:0/g\" /etc/group"
          "[internal] set envd group to 0 as root group" []

  unfoldable pub compile_user_group : State → Graph → State
  compile_user_group root g =
      if is_root g
      then root_group root
      else root
        ▷ run (cat ("groupadd -g " ∷ decimal g.gid ∷ " envd" ∷ []))
            (cat ("[internal] create user group envd(g:" ∷ decimal g.gid ∷ ")" ∷ [])) []
        ▷ run (cat ("useradd -p \"\" -u " ∷ decimal g.uid ∷ " -g envd -s /bin/sh -m envd" ∷ []))
            (cat ("[internal] create user envd(u:" ∷ decimal g.uid ∷ ")" ∷ [])) []
        ▷ run "usermod -a -G sudo envd" "[internal] add user envd to sudoers" []
        ▷ run
            (cat (
              "install -d -o envd -g "
              ∷ decimal g.gid
              ∷ " -m 0700 /home/envd/.config /home/envd/.cache"
              ∷ []))
            "[internal] mkdir config and cache" []
