-- ===== src/V0/Compile/Refine/Whole.antt =====
-- `CompileLLB` of pkg/lang/ir/v0 against its specification on graphs.
use envd.Base.{
  String, Bool, true, false, if◌then◌else◌, Option, none, some, List, [], ◌∷◌, str_eq, ◌≡◌, refl,
}
use envd.Base.Strings.Decimal.{ℤ}
use envd.Graph.Ports.{is_set}
use envd.Graph.Compile.{Buildkit, ◌▷◌}
use envd.V0.{Graph}
use envd.V0.Compile.{
  World, metadata_failed, Result, ok, err, ◌>>=◌, reads, add_path, update_env_path,
}
use envd.V0.Compile.System.{
  is_custom, keep_envs, with_envs, custom_base, compile_sshd, compile_starship,
  compile_extra_source, compile_copy, compile_run, compile_mount_dir, compile_user_own, own_user,
  compile_user_group,
}
use envd.V0.Compile.Conda.{install_conda}
use envd.V0.Compile.Shell.{compile_git, compile_prompt}
use envd.V0.Compile.Supervisor.{install_horust, processes_of, compile_entrypoint}
use envd.V0.Compile.Python.{compile_python}
use envd.V0.Compile.Languages.{compile_r_lang, compile_julia}
use envd.V0.Compile.Pipeline.{
  free_ids, set_ids, plain_base, built_base, base_of, compile_base, merged_of, compile_llb,
}
use envd.V0.Compile.Effect.{
  then_do, python_effect, packages_effect, by_language, language_effect, moved_ids, with_conda,
  base_effect, processes_effect, entrypoint_effect, llb_effect,
}
use envd.V0.Compile.Refine.{graph_of, Does, Does-bind}
use envd.V0.Compile.Refine.Languages.{
  compile_python-graph, compile_r_lang-graph, compile_julia-graph,
}

module _ {S : Type 0} where
  cpu_at :
      (r p j : Bool) (x y z e : S) (g : Graph)
      → graph_of (
          if r
          then ok (x, free_ids g)
          else if p
          then ok (y, g)
          else if j
          then ok (z, g)
          else ok (e, g))
        ≡ ok (if r then free_ids g else g)
  cpu_at true p j x y z e g = refl
  cpu_at false true j x y z e g = refl
  cpu_at false false true x y z e g = refl
  cpu_at false false false x y z e g = refl

  envs_at :
      (r : Result Graph) (s : S) → graph_of (elim r [ err e ↦ err e | ok g' ↦ ok (s, g') ]) ≡ r
  envs_at (ok g) s = refl
  envs_at (err e) s = refl

  -- The choice of a language, whose first branches are taken in this order.
  language_at :
      (r p j : Bool) (mr mp mj : Result (S × Graph)) (er ep ej : Result Graph) (s : S) (g : Graph)
      → graph_of mr ≡ er
      → (p ≡ true → graph_of mp ≡ ep)
      → (p ≡ false → graph_of mj ≡ ej)
      → graph_of (if r then mr else if p then mp else if j then mj else ok (s, g))
        ≡ (if r then er else if p then ep else if j then ej else ok g)
  language_at true p j mr mp mj er ep ej s g hr hp hj = hr
  language_at false true j mr mp mj er ep ej s g hr hp hj = hp refl
  language_at false false true mr mp mj er ep ej s g hr hp hj = hj refl
  language_at false false false mr mp mj er ep ej s g hr hp hj = refl

module _ (b : Buildkit) (w : World b.State) where
  open b use {State}

  plain_base-moved : (o : Option String) (g : Graph) → graph_of (plain_base b w o g) ≡ moved_ids o g
  plain_base-moved none g =
      cpu_at (str_eq g.language.name "r") (str_eq g.language.name "python")
        (str_eq g.language.name "julia") _ _ _ _ g
  plain_base-moved (some cuda) g = refl

  install_conda-Does : (root : State) → Does (install_conda b w root) (λ g. ok (with_conda g))
  unfolding install_conda update_env_path
  install_conda-Does root g = refl

  built_base-Does :
      Does (built_base b w) (λ g. then_do (moved_ids g.cuda g) λ g'. ok (with_conda g'))
  built_base-Does =
      Does-bind (λ g. plain_base b w g.cuda g)
        (λ base. do
          conda ← install_conda b w base
          source ← reads (
              compile_extra_source b w
                (conda ▷ install_horust b w ▷ compile_sshd b w ▷ compile_starship b w))
          reads (compile_user_group b w source))
        (λ g. moved_ids g.cuda g) (λ g. ok (with_conda g)) (λ g. plain_base-moved g.cuda g)
        (λ base.
          Does-bind (install_conda b w base)
            (λ conda. do
              source ← reads (
                  compile_extra_source b w
                    (conda ▷ install_horust b w ▷ compile_sshd b w ▷ compile_starship b w))
              reads (compile_user_group b w source))
            (λ g. ok (with_conda g)) (λ g. ok g) (install_conda-Does base) (λ conda g. refl))

  custom_at :
      (name : String) (o : Option (List String)) (g : Graph)
      → graph_of (with_envs b w name o g)
        ≡ elim o [ none ↦ err metadata_failed | some envs ↦ keep_envs envs g ]
  custom_at name none g = refl
  custom_at name (some envs) g = envs_at (keep_envs envs g) _

  base_at :
      (o : Option String) (g : Graph) → graph_of (base_of b w o g) ≡ base_effect b.image_env o g
  unfolding custom_base
  base_at none g = built_base-Does g
  base_at (some name) g = custom_at name (b.image_env name) g

  merged_at :
      (o : Option String) (base : State) (g : Graph)
      → graph_of (merged_of b w o base g) ≡ (if is_set o then ok g else by_language w.shared g)
  merged_at none base g =
      language_at (str_eq g.language.name "r") (str_eq g.language.name "python")
        (str_eq g.language.name "julia") (compile_r_lang b w base g) (compile_python b w base g)
        (compile_julia b w base g) (packages_effect w.shared g) (python_effect w.shared g)
        (packages_effect w.shared (add_path "/usr/local/julia/bin" g)) _ g
        (compile_r_lang-graph b w base g) (compile_python-graph b w base g)
        (compile_julia-graph b w base g)
  merged_at (some name) base g = refl

  entrypoint_at :
      (c : Bool) (es : List String) (root : State) (g : Graph)
      → graph_of (if c then ok (root, g) else processes_of b w es root g)
        ≡ (if c then ok g else processes_effect es g)
  entrypoint_at true es root g = refl
  entrypoint_at false [] root g = refl
  entrypoint_at false (e ∷ es) root g = refl

  compile_entrypoint-Does : (root : State) → Does (compile_entrypoint b w root) entrypoint_effect
  unfolding compile_entrypoint
  compile_entrypoint-Does root g = entrypoint_at (is_custom g) g.entrypoint root g

  -- The steps behind the languages.
  last_steps :
      (merged : State)
      → Does
          (do
            prompt ← reads (compile_prompt b w merged)
            copied ← reads (compile_copy b w prompt)
            ran ← reads (compile_run b w copied)
            git ← reads (compile_git b w ran)
            own ← compile_user_own b w git
            mount ← reads (compile_mount_dir b w own)
            compile_entrypoint b w mount)
          (λ g. entrypoint_effect (own_user g))
  unfolding compile_user_own
  last_steps merged g = compile_entrypoint-Does _ (own_user g)

  -- With the states of buildkit forgotten, `CompileLLB` of version 0 is its specification on graphs,
  -- for every client of buildkit, user and group: it reports the same error, the first in the order of
  -- the specification, or it leaves the graph of the specification, which does not depend on the group
  -- that is given.
  pub compile_llb-llb_effect :
      (uid gid : ℤ) (g : Graph)
      → graph_of (compile_llb b w uid gid g) ≡ llb_effect w.shared b.image_env uid g
  unfolding compile_llb compile_base llb_effect
  compile_llb-llb_effect uid gid g =
      Does-bind (compile_base b w)
        (λ base. do
          merged ← λ g'. merged_of b w g'.image base g'
          prompt ← reads (compile_prompt b w merged)
          copied ← reads (compile_copy b w prompt)
          ran ← reads (compile_run b w copied)
          git ← reads (compile_git b w ran)
          own ← compile_user_own b w git
          mount ← reads (compile_mount_dir b w own)
          compile_entrypoint b w mount)
        (λ g'. base_effect b.image_env g'.image g')
        (λ g'. then_do (language_effect w.shared g') λ h. entrypoint_effect (own_user h))
        (λ g'. base_at g'.image g')
        (λ base.
          Does-bind (λ g'. merged_of b w g'.image base g')
            (λ merged. do
              prompt ← reads (compile_prompt b w merged)
              copied ← reads (compile_copy b w prompt)
              ran ← reads (compile_run b w copied)
              git ← reads (compile_git b w ran)
              own ← compile_user_own b w git
              mount ← reads (compile_mount_dir b w own)
              compile_entrypoint b w mount)
            (language_effect w.shared) (λ h. entrypoint_effect (own_user h))
            (λ g'. merged_at g'.image base g') last_steps)
        (set_ids uid g)
