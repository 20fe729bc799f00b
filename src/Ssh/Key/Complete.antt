-- ===== src/Ssh/Key/Complete.antt =====
-- Replacing the private key in envd's entries leaves no old key: pkg/ssh/config/ssh_config.go.
use envd.Base.{
  ◌==◌, ◌++◌, not, ◌&&◌, Bool, true, false, ◌||◌, some, List, [], ◌∷◌, ◌≡◌, refl, sym, ap, arith,
  if◌then◌else◌, ◌⊎◌, inl, inr, Bool-cases, Option-cases, All,
}
use envd.Base.Text.{has_suffix, Text, codes, text_eq, text_eq_iff}
use envd.Base.Strings.Space.{join}
use envd.Ssh.{Param, Host, SshConfig, identity_file}
use envd.Ssh.Key.{
  is_nil, trim_right_quotes, trim_quotes, with_key, replace_param, replace_params, replace_names,
  replace_host, replace_hosts, replace_key,
}
use envd.Ssh.Key.Laws.{cons_some-inv, some_inj, replace_key-hosts}

abbrev pub has_blank : Text → Bool
has_blank [] = false
has_blank (c ∷ cs) = c == b' ' || has_blank cs

-- The first argument, without quotes, is not the key.
abbrev lacks_first : Text → List Text → Bool
lacks_first old [] = true
lacks_first old (a ∷ args) = if text_eq (trim_quotes a) old then false else true

-- Neither the first argument nor the whole value, the arguments with blanks between them, is the key,
-- without quotes.
abbrev pub lacks_key : Text → List Text → Bool
lacks_key old [] = true
lacks_key old (a ∷ args) =
    not (text_eq (trim_quotes a) old)
    && not (text_eq (trim_quotes (join (b' ' ∷ []) (a ∷ args))) old)

has_blank-nil : (t : Text) → is_nil t ≡ true → has_blank t ≡ false
has_blank-nil [] h = refl
has_blank-nil (c ∷ t) h = cc

has_blank-trim_right_quotes : (t : Text) → has_blank (trim_right_quotes t) ≡ has_blank t
unfolding trim_right_quotes
has_blank-trim_right_quotes [] = refl
has_blank-trim_right_quotes (c ∷ t) =
    ground (arith, has_blank-trim_right_quotes t, has_blank-nil (trim_right_quotes t))

has_blank-trim_quotes : (t : Text) → has_blank (trim_quotes t) ≡ has_blank t
unfolding trim_quotes
has_blank-trim_quotes [] = refl
has_blank-trim_quotes (c ∷ t) =
    ground (arith, has_blank-trim_quotes t, has_blank-trim_right_quotes (c ∷ t))

has_blank-append : (t u : Text) → has_blank u ≡ true → has_blank (t ++ u) ≡ true
has_blank-append [] u h = h
has_blank-append (c ∷ t) u h = ground (arith, has_blank-append t u h)

-- Several arguments are no key without a blank.
several-lacks :
    (old a b : Text) (args : List Text)
    → has_blank old ≡ false
    → text_eq (trim_quotes (join (b' ' ∷ []) (a ∷ b ∷ args))) old ≡ false
unfolding join
several-lacks old a b args n =
    let t = join (b' ' ∷ []) (a ∷ b ∷ args) in
    elim (Bool-cases (text_eq (trim_quotes t) old)) [
      | inr e ↦ e
      | inl e ↦ absurd (
          ground (
            arith,
            n,
            ap has_blank ((text_eq_iff (trim_quotes t) old).0 e),
            has_blank-trim_quotes t,
            has_blank-append a (b' ' ∷ join (b' ' ∷ []) (b ∷ args)) refl,
          ))
    ]

lacks_key-first :
    (old : Text) (args : List Text)
    → has_blank old ≡ false
    → lacks_first old args ≡ true
    → lacks_key old args ≡ true
unfolding join
lacks_key-first old [] n h = refl
lacks_key-first old (a ∷ []) n h = ground (arith, h)
lacks_key-first old (a ∷ b ∷ args) n h = ground (arith, h, several-lacks old a b args n)

-- The new key is another one, and the old one has no blank.
abbrev IsChange : Text → Text → Type 0
IsChange old new = (text_eq (trim_quotes new) old ≡ false) × (has_blank old ≡ false)

-- A parameter of a private key is not `old`.
abbrev pub IsFree : Text → Param → Type 0
IsFree old p = text_eq p.keyword identity_file ≡ true → lacks_key old p.args ≡ true

abbrev pub is_envd : List Text → Bool
is_envd [] = false
is_envd (hn ∷ hns) = has_suffix hn (codes ".envd") || is_envd hns

abbrev pub IsFreeHost : Text → Host → Type 0
IsFreeHost old h = is_envd h.hostnames ≡ true → All (IsFree old) h.params

chosen-free :
    (old new : Text) (p q : Param) (a : Text) (args : List Text) (b : Bool)
    → text_eq (trim_quotes new) old ≡ false
    → p.args ≡ a ∷ args
    → text_eq (trim_quotes a) old ≡ b
    → some (if b then record p { args = new ∷ args } else p) ≡ some q
    → lacks_first old q.args ≡ true
chosen-free old new p q a args true d e t h =
    rw (sym (some_inj (record p { args = new ∷ args }) q h), d)
chosen-free old new p q a args false d e t h = rw (sym (some_inj p q h), e, t)

with_key-free :
    (old new : Text) (p q : Param) (args : List Text)
    → text_eq (trim_quotes new) old ≡ false
    → p.args ≡ args
    → with_key old new p args ≡ some q
    → lacks_first old q.args ≡ true
with_key-free old new p q [] d e h = ground arith
with_key-free old new p q (a ∷ args) d e h =
    chosen-free old new p q a args (text_eq (trim_quotes a) old) d e refl h

replace_param-IsFree :
    (old new : Text) (p q : Param)
    → IsChange old new
    → replace_param old new p ≡ some q
    → IsFree old q
unfolding replace_param
replace_param-IsFree old new p q d h k = elim (Bool-cases (text_eq p.keyword identity_file)) [
  | inl e ↦ lacks_key-first old q.args d.1 (with_key-free old new p q p.args d.0 refl (rw e at h))
  | inr e ↦
      ground (
        arith,
        k,
        e,
        ap (λ (r : Param). text_eq r.keyword identity_file) (some_inj p q (rw e at h)),
      )
]

replace_params-IsFree :
    (old new : Text) (ps qs : List Param)
    → IsChange old new
    → replace_params old new ps ≡ some qs
    → All (IsFree old) qs
unfolding replace_params
replace_params-IsFree old new [] qs d h = rw (sym (some_inj [] qs h)) tt
replace_params-IsFree old new (p ∷ ps) qs d h =
    let (x, xs, e, es, eq) =
      cons_some-inv (replace_param old new p) (replace_params old new ps) qs h in
    rw eq (replace_param-IsFree old new p x d e, replace_params-IsFree old new ps xs d es)

-- Behind the first name of envd the parameters are free, and they stay so.
replace_names-IsFree :
    (old new : Text) (hns : List Text) (ps qs : List Param)
    → IsChange old new
    → replace_names old new hns ps ≡ some qs
    → (is_envd hns ≡ true) ⊎ All (IsFree old) ps
    → All (IsFree old) qs
unfolding replace_names
replace_names-IsFree old new [] ps qs d h (inl f) = cc
replace_names-IsFree old new [] ps qs d h (inr f) = rw (sym (some_inj ps qs h)) f
replace_names-IsFree old new (hn ∷ hns) ps qs d h f =
    elim (Bool-cases (has_suffix hn (codes ".envd"))) [
      | inr e ↦ replace_names-IsFree old new hns ps qs d (rw e at h) (rw e at f)
      | inl e ↦ elim (Option-cases (replace_params old new ps)) [
        | inl n ↦ ground (arith, h, e, n)
        | inr (rs, r) ↦
            replace_names-IsFree old new hns rs qs d (rw (e, r) at h)
              (inr (replace_params-IsFree old new ps rs d r))
      ]
    ]

replace_host-IsFreeHost :
    (old new : Text) (h h' : Host)
    → IsChange old new
    → replace_host old new h ≡ some h'
    → IsFreeHost old h'
unfolding replace_host
replace_host-IsFreeHost old new h h' d e =
    elim (Option-cases (replace_names old new h.hostnames h.params)) [
      | inl n ↦ ground (arith, e, n)
      | inr (ps, n) ↦
          rw (sym (some_inj (record h { params = ps }) h' (rw n at e)))
            (λ f. replace_names-IsFree old new h.hostnames h.params ps d n (inl f))
    ]

replace_hosts-IsFreeHost :
    (old new : Text) (hs hs' : List Host)
    → IsChange old new
    → replace_hosts old new hs ≡ some hs'
    → All (IsFreeHost old) hs'
unfolding replace_hosts
replace_hosts-IsFreeHost old new [] hs' d e = rw (sym (some_inj [] hs' e)) tt
replace_hosts-IsFreeHost old new (h ∷ hs) hs' d e =
    let (x, xs, eh, es, eq) =
      cons_some-inv (replace_host old new h) (replace_hosts old new hs) hs' e in
    rw eq (replace_host-IsFreeHost old new h x d eh, replace_hosts-IsFreeHost old new hs xs d es)

-- For an old key without a blank, and a new key that is another one when its quotes are off: where the
-- replacement does not panic, no host with a name that ends in `.envd` has an `IdentityFile` parameter
-- left whose first argument or whole value, without quotes, is the old key. (A path with a blank is
-- read as several arguments, and is not replaced.)
pub replace_key-IsFreeHost :
    (old new : Text) (cfg cfg' : SshConfig)
    → text_eq (trim_quotes new) old ≡ false
    → has_blank old ≡ false
    → replace_key old new cfg ≡ some cfg'
    → All (IsFreeHost old) cfg'.hosts
replace_key-IsFreeHost old new cfg cfg' d n e =
    replace_hosts-IsFreeHost old new cfg.hosts cfg'.hosts (d, n)
      (replace_key-hosts old new cfg cfg' e)
