-- ===== src/Home/Start/Valid.antt =====
-- The contexts in memory behind `init` of pkg/home/manager.go, and the commands on them.
use envd.Base.{
  Bool, true, false, Option, none, some, List, [], ◌≡◌, ◌≢◌, refl, sym, All, inl, inr, Bool-cases,
}
use mathlib.Core.Path.{subst}
use envd.Base.Dict.{Dict}
use envd.Home.File.{
  Error, written, create_fails, encode_fails, DumpIo, InitIo, File, stored, damaged, dump, load,
  open_and_load, after_dump, create_file, init_file,
}
use envd.Home.State.{Context, EnvdContext, EnvdAuth, Manager, default_manager}
use envd.Home.Context.{init_context, decode_context, decode_list, context_get_current}
use envd.Home.Context.Commands.{Command, run}
use envd.Home.Context.Lookup.{find_current-has_context}
use envd.Home.Context.Restart.{IsFilled, decode_context-IsFilled}
use envd.Home.Context.Valid.{IsValid, run-IsValid, default-IsValid}
use envd.Home.Cache.{init_cache}
use envd.Home.Auth.{init_auth}
use envd.Home.Start.{StartIo, and_then, init}

module _ {A : Type 0} (decode_over : A → A → A) (P : A → Type 0) where
  -- What `load` leaves in memory.
  load-P :
      (a : A) (f : Option (File A))
      → P a
      → ((b : A) → f ≡ some (stored b) → P (decode_over a b))
      → P (load decode_over a f).0
  unfolding load
  load-P a none p d = p
  load-P a (some (stored b)) p d = d b refl
  load-P a (some damaged) p d = p

  open_and_load-P :
      (io : InitIo) (a : A) (f : Option (File A))
      → P a
      → ((b : A) → f ≡ some (stored b) → P (decode_over a b))
      → P (open_and_load decode_over io a f).1
  unfolding open_and_load
  open_and_load-P io a f p d = elim (Bool-cases io.open_fails) [
    | inl h ↦ rw h p
    | inr h ↦ rw h (load-P a f p d)
  ]

  stored_inj : (a b : A) → some (stored a) ≡ some (stored b) → a ≡ b
  stored_inj a b e = cc

  dumped-P :
      (io : InitIo) (a : A) (d : DumpIo)
      → P a
      → P (decode_over a a)
      → P (after_dump decode_over io a (dump d a (some damaged))).1
  unfolding after_dump dump
  dumped-P io a written p q =
      open_and_load-P io a (some (stored a)) p
        λ b e. subst (λ x. P (decode_over a x)) (stored_inj a b e) q
  dumped-P io a create_fails p q = p
  dumped-P io a encode_fails p q = p

  create_file-P :
      (io : InitIo) (a : A) → P a → P (decode_over a a) → P (create_file decode_over io a).1
  unfolding create_file
  create_file-P io a p q = elim (Bool-cases io.create_fails) [
    | inl h ↦ rw h p
    | inr h ↦ rw h (elim (Bool-cases io.close_fails) [
      | inl c ↦ rw c p
      | inr c ↦ rw c (dumped-P io a io.dump_io p q)
    ])
  ]

  -- A start leaves the value that was there, or decodes the file over it.
  pub init_file-P :
      (io : InitIo) (a : A) (f : Option (File A))
      → P a
      → P (decode_over a a)
      → ((b : A) → f ≡ some (stored b) → P (decode_over a b))
      → P (init_file decode_over io a f).1
  unfolding init_file
  init_file-P io a none p q d = elim (Bool-cases io.path_fails) [
    | inl h ↦ rw h p
    | inr h ↦
        rw h (elim (Bool-cases io.stat_fails) [
          | inl c ↦ rw c p
          | inr c ↦ rw c (create_file-P io a p q)
        ])
  ]
  init_file-P io a (some f) p q d = elim (Bool-cases io.path_fails) [
    | inl h ↦ rw h p
    | inr h ↦ rw h (elim (Bool-cases io.stat_fails) [
      | inl c ↦ rw c p
      | inr c ↦ rw c (open_and_load-P io a (some f) p d)
    ])
  ]

and_then-P :
    (Q R : Manager → Type 0) (r : Manager × Option Error) (k : Manager → Manager × Option Error)
    → Q r.0
    → ((m : Manager) → Q m → R m)
    → ((m : Manager) → Q m → R (k m).0)
    → R (and_then r k).0
unfolding and_then
and_then-P Q R (m, none) k q e h = h m q
and_then-P Q R (m, some e) k q f h = f m q

abbrev IsReady : Manager → Type 0
IsReady m = IsValid m.context

init_cache-IsReady : (io : InitIo) (m : Manager) → IsReady m → IsReady (init_cache io m).0
unfolding init_cache
init_cache-IsReady io m p = p

init_auth-IsReady : (io : InitIo) (m : Manager) → IsReady m → IsReady (init_auth io m).0
unfolding init_auth
init_auth-IsReady io m p = p

-- The steps behind the contexts keep them.
rest-IsReady :
    (io : StartIo) (m : Manager)
    → IsReady m
    → IsReady
        (and_then
          (init_cache io.cache_io m)
          λ m'. and_then (init_auth io.auth_io m') λ m''. (m'', io.keys_fail)).0
rest-IsReady io m p =
    and_then-P IsReady IsReady (init_cache io.cache_io m) _ (init_cache-IsReady io.cache_io m p)
      (λ m' q. q)
      λ m' q.
        and_then-P IsReady IsReady (init_auth io.auth_io m') (λ m''. (m'', io.keys_fail))
          (init_auth-IsReady io.auth_io m' q) (λ m'' r. r) (λ m'' r. r)

-- A file of contexts as the commands leave one: valid, and without the empty texts that gob does not
-- write. There may be none, or one that does not decode.
abbrev pub IsUsable : Option (File EnvdContext) → Type 0
IsUsable none = Unit
IsUsable (some damaged) = Unit
IsUsable (some (stored e)) =
    IsValid e × (e.current ≢ "") × (e.contexts ≢ []) × All IsFilled e.contexts

default_again :
    (moby : Bool)
    → decode_context
        (default_manager moby none none none).context
        (default_manager moby none none none).context
      ≡ (default_manager moby none none none).context
unfolding decode_context decode_list
default_again true = refl
default_again false = refl

module _ (moby : Bool) (f : Option (File EnvdContext)) (g : Option (File (Dict Bool)))
    (h : Option (File EnvdAuth)) where
  decoded-IsValid :
      (f' : Option (File EnvdContext)) (e : EnvdContext)
      → IsUsable f'
      → f' ≡ some (stored e)
      → IsValid (decode_context (default_manager moby f g h).context e)
  decoded-IsValid none e u p = absurd (cc)
  decoded-IsValid (some damaged) e u p = absurd (cc)
  decoded-IsValid (some (stored e')) e u p =
      let q : e' ≡ e = stored_inj (λ a b. a) (λ x. Unit) e' e p in
      subst (λ x. IsValid (decode_context (default_manager moby f g h).context x)) q
        (subst IsValid (sym (decode_context-IsFilled moby "default" e' u.1 u.2 u.3)) u.0)

  abbrev before : Manager
  before = default_manager moby f g h

  init_context-IsReady : (io : InitIo) → IsUsable f → IsReady (init_context io before).0
  unfolding init_context
  init_context-IsReady io u =
      init_file-P decode_context IsValid io before.context f (default-IsValid moby f g h)
        (subst IsValid (sym (default_again moby)) (default-IsValid moby f g h))
        (λ e p. decoded-IsValid f e u p)

  init-IsReady : (io : StartIo) → IsUsable f → IsReady (init io before).0
  unfolding init
  init-IsReady io u =
      and_then-P (λ m. m ≡ before) IsReady (before, io.config_fails)
        (λ m. and_then (init_context io.context_io m) λ m.
          and_then (init_cache io.cache_io m)
            λ m. and_then (init_auth io.auth_io m) λ m. (m, io.keys_fail))
        refl (λ m e. subst IsReady (sym e) (default-IsValid moby f g h))
        λ m e.
          and_then-P IsReady IsReady (init_context io.context_io m) _
            (subst (λ x. IsReady (init_context io.context_io x).0) (sym e)
              (init_context-IsReady io.context_io u))
            (λ m' q. q) (rest-IsReady io)

  -- After `Initialize`, which ends in `init`, and any commands, `ContextGetCurrent` finds a context,
  -- and it has the current name. This is for any answers of the system during the start and for the
  -- dumps of the commands, errors included, and for a file of contexts that is missing, does not
  -- decode, or holds valid contexts with no empty text among them.
  pub context_get_current-init :
      (io : StartIo) (cs : List (Command × DumpIo))
      → IsUsable f
      → (c : Context) × (context_get_current (run cs (init io before).0) ≡ some c)
        × (c.name ≡ (run cs (init io before).0).context.current)
  context_get_current-init io cs u =
      let m = run cs (init io before).0 in
      find_current-has_context m.context.current m.context.contexts
        (run-IsValid cs (init io before).0 (init-IsReady io u)).listed
