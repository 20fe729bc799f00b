-- ===== src/Graph/Compile/Editor.antt =====
-- `compileVSCode` of pkg/lang/ir/v1/editor.go: a layer for each plugin.
use Prim.Native.String.{◌++◌}
use envd.Base.{true, List, [], ◌∷◌, if◌then◌else◌}
use envd.Base.Native.{to_string}
use envd.FilePath.{envd_home_dir}
use envd.Plugin.{Plugin, plugin_string}
use envd.Graph.{Graph}
use envd.Graph.Compile.{copy, Buildkit, World, plugin_failed, Result, ok, err}
use envd.Graph.Compile.System.{owner_of, cache_dir_flag}

module _ (b : Buildkit) (w : World) where
  open b use {State, scratch, local_dir, file, merge}

  unfoldable pub plugin_layer : Graph → Plugin → State
  plugin_layer g p =
      let name = to_string (plugin_string p) in
      file
        (copy (local_dir cache_dir_flag) (w.plugin_path p)
          (envd_home_dir (".vscode-server" ∷ "extensions" ∷ name ∷ [])) true (owner_of g))
        ("install vscode plugin " ++ name) scratch

  -- The loop, which ends at the first plugin that cannot be downloaded.
  unfoldable pub plugin_layers : Graph → List Plugin → Result (List State)
  plugin_layers g [] = ok []
  plugin_layers g (p ∷ ps) =
      let rest = plugin_layers g ps in
      if w.download_plugin p
      then elim rest [ err e ↦ err e | ok inputs ↦ ok (plugin_layer g p ∷ inputs) ]
      else err plugin_failed

  abbrev merge_layers : List State → State
  merge_layers [] = scratch
  merge_layers (s ∷ ss) = merge (s ∷ ss) "merging plugins for vscode"

  unfoldable pub compile_vscode : Graph → Result State
  compile_vscode g = elim (plugin_layers g g.vscode_plugins) [
    | err e ↦ err e
    | ok inputs ↦ ok (merge_layers inputs)
  ]
