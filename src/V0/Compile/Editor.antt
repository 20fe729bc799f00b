-- ===== src/V0/Compile/Editor.antt =====
-- editor.go of pkg/lang/ir/v0: the layers of the plugins, and the package of Jupyter.
use Prim.Native.String.{◌++◌}
use envd.Base.{true, Option, none, some, List, [], ◌∷◌, if◌then◌else◌, str_eq, snoc}
use envd.Base.Native.{to_string}
use envd.FilePath.{envd_home_dir}
use envd.Plugin.{Plugin, plugin_string}
use envd.Graph.{JupyterConfig}
use envd.Graph.Compile.{copy, Buildkit}
use envd.Graph.Compile.System.{cache_dir_flag}
use envd.V0.{Graph}
use envd.V0.Compile.{World, plugin_failed, jupyter_not_supported, Result, ok, err, M, owner_of}

abbrev pub add_jupyter : Graph → Graph
add_jupyter g = record g { pypi_packages = snoc g.pypi_packages ("jupyter" ∷ []) }

abbrev pub jupyter_of : Option JupyterConfig → M (Unit {0})
jupyter_of none g = ok (tt, g)
jupyter_of (some c) g =
    if str_eq g.language.name "python" then ok (tt, add_jupyter g) else err jupyter_not_supported

unfoldable pub compile_jupyter : M (Unit {0})
compile_jupyter g = jupyter_of g.jupyter_config g

module _ (b : Buildkit) (w : World b.State) where
  open b use {State, scratch, local_dir, file, merge}

  unfoldable pub plugin_layer : Graph → Plugin → State
  plugin_layer g p =
      let name = to_string (plugin_string p) in
      file
        (copy (local_dir cache_dir_flag) (w.shared.plugin_path p)
          (envd_home_dir (".vscode-server" ∷ "extensions" ∷ name ∷ [])) true (owner_of g))
        ("install vscode plugin " ++ name) scratch

  -- The loop, which ends at the first plugin that cannot be downloaded.
  unfoldable pub plugin_layers : Graph → List Plugin → Result (List State)
  plugin_layers g [] = ok []
  plugin_layers g (p ∷ ps) =
      let rest = plugin_layers g ps in
      if w.shared.download_plugin p
      then elim rest [ err e ↦ err e | ok inputs ↦ ok (plugin_layer g p ∷ inputs) ]
      else err plugin_failed

  abbrev merge_layers : List State → Option State
  merge_layers [] = none
  merge_layers (s ∷ ss) = some (merge (s ∷ ss) "merging plugins for vscode")

  -- `none` is a nil state.
  unfoldable pub compile_vscode : Graph → Result (Option State)
  compile_vscode g = elim (plugin_layers g g.vscode_plugins) [
    | err e ↦ err e
    | ok inputs ↦ ok (merge_layers inputs)
  ]
