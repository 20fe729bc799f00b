-- ===== src/Frontend/Interpreter/Again.antt =====
-- A module is executed once: what it gave stays in the cache.
use envd.Base.{
  ℕ, zero, suc, Bool, true, false, String, Option, none, some, ◌≡◌, refl, ◌∙◌, inl, inr, Bool-cases,
  str_eq, str_eq_iff, ap,
}
use mathlib.Core.Path.{subst}
use envd.Base.Dict.{Dict, get, get-put, get-put_self}
use envd.Base.Native.{has_prefix}
use envd.Frontend.{Value}
use envd.Frontend.Interpreter.{
  World, Loaded, globals, error, panic, State, Run, git_prefix, save, downloaded, found, run_script,
  load_git_module, exec_new, exec, exec_file,
}
use envd.Frontend.Interpreter.Post.{placed, Post, Holds, exec_file-Holds}

-- What is cached stays cached.
abbrev Keeps : State → Bool → State → Type 0
Keeps a k b =
    (j : String) (e : Loaded) → get a.cache j ≡ some (some e) → get b.cache j ≡ some (some e)

-- A write to a key that is free keeps what is cached.
get-put_free :
    (d : Dict (Option Loaded)) (m j : String) (v : Option Loaded) (e : Loaded)
    → get d m ≡ none
    → get d j ≡ some (some e)
    → str_eq m j ≡ false
get-put_free d m j v e free h = elim (Bool-cases (str_eq m j)) [
  | inl t ↦ absurd (cc (free, h, ap (get d) ((str_eq_iff m j).0 t)))
  | inr f ↦ f
]

placed-Keeps : (m : String) (a : State) → get a.cache m ≡ none → Keeps a true (placed m a)
placed-Keeps m a free j e h =
    get-put a.cache m j none ∙ rw (get-put_free a.cache m j none e free h) h

module _ (w : World) where
  Keeps-Post : Post w Keeps
  Keeps-Post = record {
    same = λ a k j e h. h;
    chain = λ a b c k p q j e h. q j e (p j e h);
    called = λ b args a j e h. h;
    left = λ m a b k free p j e h. p j e (placed-Keeps m a free j e h);
    kept = λ m a b r free p j e h.
        get-put b.cache m j (some r)
        ∙ rw (get-put_free a.cache m j none e free h) (p j e (placed-Keeps m a free j e h));
  }

  -- The run ends with globals that are in the cache.
  abbrev Cached : String → Run → Type 0
  Cached m (some (st, globals d)) = get st.cache m ≡ some (some (globals d))
  Cached m _ = Unit {0}

  save-Cached : (m : String) (o : Run) → Cached m (save m o)
  save-Cached m none = tt
  save-Cached m (some (st, globals d)) = get-put_self st.cache m (some (globals d))
  save-Cached m (some (st, error e)) = tt
  save-Cached m (some (st, panic)) = tt

  downloaded-Cached :
      (m : String) (st : State) (path : Option String) (k : String → Run)
      → Cached m (downloaded w st path (λ p. save m (k p)))
  downloaded-Cached m st none k = tt
  downloaded-Cached m st (some p) k = save-Cached m (k p)

  exec_new-Cached :
      (execute : String → State → Run) (m : String) (st : State)
      → Cached m (exec_new w execute m st)
  unfolding exec_new
  exec_new-Cached execute m st = elim (Bool-cases (has_prefix m git_prefix)) [
    | inl e ↦ rw (e, Cached) (downloaded-Cached m st _ (λ p. load_git_module w execute p st))
    | inr e ↦ rw (e, Cached) (save-Cached m (run_script w execute (w.file m) st))
  ]

  found-Cached :
      (execute : String → State → Run) (m : String) (st : State) (e : Option Loaded)
      → get st.cache m ≡ some e
      → Cached m (found w m st (some e) (λ st'. exec_new w execute m st'))
  found-Cached execute m st none h = tt
  found-Cached execute m st (some (globals d)) h = h
  found-Cached execute m st (some (error e)) h = tt
  found-Cached execute m st (some panic) h = tt

  exec-Cached : (f : ℕ) (m : String) (st : State) → Cached m (exec w f m st)
  unfolding exec
  exec-Cached zero m st = tt
  exec-Cached (suc f) m st =
      elim (get st.cache m)
          as (λ o.
            get st.cache m ≡ o → Cached m (found w m st o (λ st'. exec_new w (exec w f) m st'))) [
              | none ↦ λ _. exec_new-Cached (exec w f) m (placed m st)
              | some e ↦ found-Cached (exec w f) m st e
            ]
        refl

  -- A module that was executed without an error gives the same globals wherever it is loaded later,
  -- whatever has been interpreted since, and loading it again changes neither the graph nor the
  -- cache.
  pub exec-again :
      (f f₂ f₃ : ℕ) (m filename funcname : String) (st st₁ st₂ : State) (d : Dict Value)
      (r : Loaded)
      → exec w f m st ≡ some (st₁, globals d)
      → exec_file w f₂ filename funcname st₁ ≡ some (st₂, r)
      → exec w (suc f₃) m st₂ ≡ some (st₂, globals d)
  unfolding exec
  exec-again f f₂ f₃ m filename funcname st st₁ st₂ d r h k =
      let now = subst (Cached m) h (exec-Cached f m st) in
      let keeps =
        subst (Holds w Keeps Keeps-Post st₁) k
          (exec_file-Holds w Keeps Keeps-Post f₂ filename funcname st₁) in
      rw (keeps m (globals d) now) refl
