-- ===== src/Graph/Compile/Refine/Whole.antt =====
-- `CompileLLB` of pkg/lang/ir/v1/compile.go implements its specification.
use envd.Base.{
  String, Bool, true, false, not, Option, none, some, List, [], ◌≡◌, refl, sym, ap, ◌∙◌, arith,
  str_eq, if◌then◌else◌, All, All-append, snoc, ◌&&◌,
}
use envd.Base.Dict.{Dict, put, get, get-put, get-put_self}
use envd.Base.Strings.Decimal.{ℤ, pos}
use envd.Graph.{Graph, CondaConfig}
use envd.Graph.Compile.{Buildkit, World, Error, Result, ok, err, ◌>>=◌, reads}
use envd.Graph.Compile.System.{
  compile_extra_source, compile_copy, compile_run, compile_mount_dir, compile_base_image,
}
use envd.Graph.Compile.Conda.{python_version}
use envd.Graph.Compile.User.{is_root}
use envd.Graph.Compile.Shell.{shell_path}
use envd.Graph.Compile.Pipeline.{
  prepare_dev, merge_language, compile_language, compile_language_packages, postprocess,
  compile_llb, set_ids,
}
use envd.Graph.Compile.Effect.{
  Kind, python, r_lang, julia, other, kind, base_image, all_pairs, all_downloaded, first_error,
  language_dirs, adds_julia, finished, final_graph, built, gate,
}
use envd.Graph.Compile.Languages.{julia_pkg_dir}
use mathlib.Core.Path.{subst}
use envd.Base.Int.{int_eq}
use envd.Graph.Compile.Refine.{forget, ok_inj, Runs-bind, Runs-reads, Runs-last, never}
use envd.Graph.Compile.Refine.Language.{
  compile_base_image_lem, compile_language_lem, compile_language_packages_lem,
}
use envd.Graph.Compile.Refine.Dev.{postprocess_lem}

forget_ok {ℓ} :
    {A : Type ℓ} (r : Result (A × Graph)) (g : Graph) → forget r ≡ ok g → (a : A) × (r ≡ ok (a, g))
forget_ok (ok (a, g')) g p = (a, ap (λ x. ok (a, x)) (ok_inj g' g p))
forget_ok (err e) g p = cc

gate_ok : (e : Option Error) (g g' : Graph) → gate e g ≡ ok g' → g' ≡ g
gate_ok none g g' p = sym (ok_inj g g' p)
gate_ok (some e) g g' p = cc

final_user :
    (b : Buildkit) (g : Graph)
    → (final_graph b g).user ≡ (if g.dev && not (is_root g) then "envd" else "")
final_user b g = ground arith

dev_environ_lem :
    (d : Dict String) (u s : String)
    → (get (put (put d "USER" u) "SHELL" s) "USER" ≡ some u)
      × (get (put (put d "USER" u) "SHELL" s) "SHELL" ≡ some s)
dev_environ_lem d u s = (
  get-put (put d "USER" u) "SHELL" "USER" s ∙ get-put_self d "USER" u,
  get-put_self (put d "USER" u) "SHELL" s,
)

final_environ :
    (b : Buildkit) (g : Graph)
    → g.dev ≡ true
    → (get (final_graph b g).runtime.runtime_environ "USER"
        ≡ some (if is_root g then "root" else "envd"))
      × (get (final_graph b g).runtime.runtime_environ "SHELL" ≡ some (shell_path g))
final_environ b g h =
    subst
      (λ (x : Bool).
        (get (if x then finished (built b g) else built b g).runtime.runtime_environ "USER"
          ≡ some (if is_root g then "root" else "envd"))
        × (get (if x then finished (built b g) else built b g).runtime.runtime_environ "SHELL"
            ≡ some (shell_path g)))
      (sym h) (dev_environ_lem _ _ _)

-- Whether a directory is pip's cache.
abbrev pub is_pip_cache : String → Bool
is_pip_cache d = str_eq d "/root/.cache/pip"

language_dirs-no_pip :
    (k : Kind) (c : Option CondaConfig) (dev : Bool) (ds : List String)
    → All (λ d. is_pip_cache d ≡ false) ds
    → All (λ d. is_pip_cache d ≡ false) (language_dirs k c dev ds)
language_dirs-no_pip python (some c) true ds h = All-append _ ds _ h (refl, tt)
language_dirs-no_pip python (some c) false ds h = h
language_dirs-no_pip python none dev ds h = h
language_dirs-no_pip r_lang c dev ds h = h
language_dirs-no_pip julia c dev ds h = h
language_dirs-no_pip other c dev ds h = h

julia_dir-no_pip :
    (x : Bool) (ds : List String)
    → All (λ d. is_pip_cache d ≡ false) ds
    → All (λ d. is_pip_cache d ≡ false) (if x then snoc ds julia_pkg_dir else ds)
julia_dir-no_pip true ds h = All-append _ ds _ h (refl, tt)
julia_dir-no_pip false ds h = h

final_dirs :
    (b : Buildkit) (g : Graph) → (final_graph b g).user_directories ≡ (built b g).user_directories
final_dirs b g = ground arith

module _ (b : Buildkit) (w : World) where
  no_error :
      (g : Graph) (envs : List String) (version key : String)
      → b.image_env (base_image g) ≡ some envs
      → all_pairs envs ≡ true
      → python_version g ≡ ok version
      → w.public_key g.public_key_path ≡ some key
      → w.download_zsh ≡ true
      → all_downloaded w g.vscode_plugins ≡ true
      → g.entrypoint ≡ []
      → first_error b w g ≡ none
  no_error g envs version key e p v k z d n = ground arith

  -- With the states of buildkit forgotten, `CompileLLB` does to every graph what the specification
  -- says: it reports the first error that the base image's metadata, the version of Python, and of a
  -- development image the key, the shell, the entrypoint and the plugins have, in this order, or it
  -- leaves the graph with the image, user, directories, environment, paths and token of `final_graph`.
  pub compile_llb-refines :
      (uid gid : ℤ) (g : Graph)
      → forget (compile_llb b w uid gid g)
        ≡ gate (first_error b w (set_ids uid gid g)) (final_graph b (set_ids uid gid g))
  unfolding compile_llb
  compile_llb-refines uid gid g =
      Runs-bind (compile_base_image b w) _ _ _ _ _ (compile_base_image_lem b w)
        (λ image. Runs-reads (prepare_dev b w image) _ _ _ λ base.
          Runs-bind (compile_language b w base) _ _ _ _ _ (compile_language_lem b w base) λ lang.
            Runs-reads (merge_language b w base lang) _ _ _ λ packed.
              Runs-bind (compile_language_packages b w packed) _ never _ _ _
                (compile_language_packages_lem b w packed)
                λ packages. Runs-reads (compile_extra_source b w packages) _ _ _ λ source.
                  Runs-reads (compile_copy b w source) _ _ _ λ copied.
                    Runs-last (postprocess b w copied)
                      (λ final.
                        reads (compile_run b w final) >>= λ run. reads (compile_mount_dir b w run))
                      _ _ (postprocess_lem b w copied) (λ final g'. refl))
        (set_ids uid gid g)

  unforgotten :
      (uid gid : ℤ) (g g' : Graph) (s : b.State)
      → compile_llb b w uid gid g ≡ ok (s, g')
      → g' ≡ final_graph b (set_ids uid gid g)
  unforgotten uid gid g g' s h =
      gate_ok (first_error b w (set_ids uid gid g)) _ g'
        (sym (compile_llb-refines uid gid g) ∙ ap forget h)

  -- A compilation succeeds, and leaves the specification's graph, if the registry knows the
  -- environment of the base image, every entry of it has a "=", the version of Python is supported,
  -- the public key can be read, oh-my-zsh and the plugins can be downloaded, and there is no entrypoint.
  pub compile_llb-succeeds :
      (uid gid : ℤ) (g : Graph) (envs : List String) (version key : String)
      → b.image_env (base_image g) ≡ some envs
      → all_pairs envs ≡ true
      → python_version g ≡ ok version
      → w.public_key g.public_key_path ≡ some key
      → w.download_zsh ≡ true
      → all_downloaded w g.vscode_plugins ≡ true
      → g.entrypoint ≡ []
      → (s : b.State) × (compile_llb b w uid gid g ≡ ok (s, final_graph b (set_ids uid gid g)))
  compile_llb-succeeds uid gid g envs version key e p v k z d n =
      forget_ok (compile_llb b w uid gid g) _
        (rw (no_error g envs version key e p v k z d n) at (compile_llb-refines uid gid g))

  -- After a compilation the user of the image is `envd` if it is a development image whose user is not
  -- root, and is not set otherwise. A development image has its user and its shell in the
  -- environment of its processes.
  pub compile_llb-user :
      (uid gid : ℤ) (g g' : Graph) (s : b.State)
      → compile_llb b w uid gid g ≡ ok (s, g')
      → (g'.user ≡ (if g.dev && not (int_eq uid (pos 0)) then "envd" else ""))
        × (g.dev ≡ true
            → (get g'.runtime.runtime_environ "USER"
                ≡ some (if int_eq uid (pos 0) then "root" else "envd"))
              × (get g'.runtime.runtime_environ "SHELL" ≡ some (shell_path g)))
  compile_llb-user uid gid g g' s h =
      rw (unforgotten uid gid g g' s h)
        (final_user b (set_ids uid gid g), final_environ b (set_ids uid gid g))

  -- A compilation does not hand pip's cache to the user of the image: it is among the directories of the
  -- graph after it only if it was there before.
  pub compile_llb-pip_cache :
      (uid gid : ℤ) (g g' : Graph) (s : b.State)
      → compile_llb b w uid gid g ≡ ok (s, g')
      → All (λ d. is_pip_cache d ≡ false) g.user_directories
      → All (λ d. is_pip_cache d ≡ false) g'.user_directories
  compile_llb-pip_cache uid gid g g' s h a =
      rw (unforgotten uid gid g g' s h, final_dirs b (set_ids uid gid g))
        (julia_dir-no_pip (adds_julia g) _
          (language_dirs-no_pip (kind g) g.conda_config g.dev g.user_directories a))
