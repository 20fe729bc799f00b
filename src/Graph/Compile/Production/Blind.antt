-- ===== src/Graph/Compile/Production/Blind.antt =====
-- The steps of `CompileLLB` of pkg/lang/ir/v1 for a production image: what they do not read.
use envd.Base.{String, List, [], ◌∷◌, ◌≡◌, refl, arith}
use envd.Base.Strings.Decimal.{ℤ}
use envd.Graph.{Graph, HttpInfo}
use envd.Graph.Compile.{Buildkit, World, ok, M, ◌>>=◌, reads}
use envd.Graph.Compile.System.{
  compile_extra_source, compile_copy, compile_run, compile_mount_dir, compile_base_image, cache_id,
  sources_of, install_apt, compile_ubuntu_apt, compile_system_packages,
}
use envd.Graph.Compile.Pipeline.{
  prepare_dev, merge_language, compile_language, compile_language_packages, postprocess,
  compile_llb, set_ids,
}
use envd.Graph.Compile.Production.{erase, production, IsBlind, bind-IsBlind, reads-IsBlind}
use envd.Graph.Compile.Production.Languages.{language-IsBlind, packages-IsBlind}

module _ (b : Buildkit) (w : World) where
  install_apt_blind :
      (ps : List String) (g : Graph) (root : b.State)
      → install_apt b w ps (erase g) root ≡ install_apt b w ps g root
  unfolding install_apt cache_id
  install_apt_blind [] g root = refl
  install_apt_blind (p ∷ ps) g root = refl

  sources_blind :
      (hs : List HttpInfo) (g : Graph) → sources_of b w (erase g) hs ≡ sources_of b w g hs
  unfolding sources_of
  sources_blind [] g = refl
  sources_blind (h ∷ hs) g = rw (sources_blind hs g)

  base-IsBlind : IsBlind (compile_base_image b w)
  unfolding compile_base_image
  base-IsBlind g = (compile_base_image b w (production g), ground arith, ground arith)

  merge_blind :
      (base lang : b.State) (g : Graph)
      → merge_language b w base lang (erase g) ≡ merge_language b w base lang g
  unfolding merge_language compile_system_packages compile_ubuntu_apt
  merge_blind base lang g =
      rw (install_apt_blind g.system_packages g (compile_ubuntu_apt b w base g), merge_language)

  extra_source_blind :
      (root : b.State) (g : Graph)
      → compile_extra_source b w root (erase g) ≡ compile_extra_source b w root g
  unfolding compile_extra_source
  extra_source_blind root g = rw (sources_blind g.http g)

  postprocess-IsBlind : (root : b.State) → IsBlind (postprocess b w root)
  unfolding postprocess
  postprocess-IsBlind root g = (ok (root, g), refl, refl)

  copy_blind :
      (root : b.State) (g : Graph) → compile_copy b w root (erase g) ≡ compile_copy b w root g
  unfolding compile_copy
  copy_blind root g = refl

  -- The tails of `CompileLLB`, from the last to the first.
  abbrev with_user_part : b.State → M b.State
  with_user_part final = do run ← reads (compile_run b w final); reads (compile_mount_dir b w run)

  abbrev with_copy : b.State → M b.State
  with_copy copied = postprocess b w copied >>= with_user_part

  abbrev with_source : b.State → M b.State
  with_source source = reads (compile_copy b w source) >>= with_copy

  abbrev with_packages : b.State → M b.State
  with_packages packages = reads (compile_extra_source b w packages) >>= with_source

  abbrev with_merge : b.State → M b.State
  with_merge packed = compile_language_packages b w packed >>= with_packages

  abbrev with_language : b.State → b.State → M b.State
  with_language base lang = reads (merge_language b w base lang) >>= with_merge

  abbrev with_base : b.State → M b.State
  with_base base = compile_language b w base >>= with_language base

  abbrev with_image : b.State → M b.State
  with_image image = reads (prepare_dev b w image) >>= with_base

  user_part-IsBlind : (final : b.State) → IsBlind (with_user_part final)
  unfolding compile_run compile_mount_dir
  user_part-IsBlind final g = (with_user_part final (production g), refl, refl)

  packages_tail-IsBlind : (packages : b.State) → IsBlind (with_packages packages)
  packages_tail-IsBlind packages =
      reads-IsBlind (compile_extra_source b w packages) with_source
        (λ g. extra_source_blind packages (production g))
        λ source.
          reads-IsBlind (compile_copy b w source) with_copy (λ g. copy_blind source (production g))
            λ copied.
              bind-IsBlind (postprocess b w copied) with_user_part (postprocess-IsBlind copied)
                user_part-IsBlind

  base_tail-IsBlind : (base : b.State) → IsBlind (with_base base)
  base_tail-IsBlind base =
      bind-IsBlind (compile_language b w base) (with_language base) (language-IsBlind b w base)
        λ lang.
          reads-IsBlind (merge_language b w base lang) with_merge
            (λ g. merge_blind base lang (production g))
            λ packed.
              bind-IsBlind (compile_language_packages b w packed) with_packages
                (packages-IsBlind b w packed) packages_tail-IsBlind

  prepare_blind :
      (image : b.State) (g : Graph)
      → prepare_dev b w image (erase (production g)) ≡ prepare_dev b w image (production g)
  unfolding prepare_dev
  prepare_blind image g = refl

  pub compile_llb-IsBlind : (uid gid : ℤ) → IsBlind (compile_llb b w uid gid)
  unfolding compile_llb
  compile_llb-IsBlind uid gid g =
      bind-IsBlind (compile_base_image b w) with_image base-IsBlind
        (λ image.
          reads-IsBlind (prepare_dev b w image) with_base (prepare_blind image) base_tail-IsBlind)
        (set_ids uid gid g)
