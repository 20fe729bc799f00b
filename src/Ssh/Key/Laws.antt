-- ===== src/Ssh/Key/Laws.antt =====
-- What replacing the private key in envd's entries keeps: pkg/ssh/config/ssh_config.go.
use envd.Base.{
  Bool, true, false, Option, none, some, List, [], ◌∷◌, ◌≡◌, refl, sym, ap, ◌∙◌, arith,
  if◌then◌else◌, inl, inr, Bool-cases, Option-cases,
}
use envd.Base.Text.{has_suffix, Text, codes, text_eq, text_eq_iff}
use envd.Ssh.{Param, Host, SshConfig, identity_file, port_keyword, strict_host_key_checking_keyword}
use envd.Ssh.Find.{get_param, is_managed, is_found, find_host, build_hostname}
use envd.Ssh.Entry.{port_in}
use envd.Ssh.Key.{
  trim_quotes, with_key, replace_param, cons_some, replace_params, replace_names, replace_host,
  replace_hosts, replace_key,
}

pub cons_some-inv {ℓ} :
    {A : Type ℓ} (o : Option A) (os : Option (List A)) (ys : List A)
    → cons_some o os ≡ some ys
    → (x : A) × (xs : List A) × (o ≡ some x) × (os ≡ some xs) × (ys ≡ x ∷ xs)
cons_some-inv none os ys h = ground arith
cons_some-inv (some x) none ys h = ground arith
cons_some-inv (some x) (some xs) ys h = (x, xs, refl, refl, ground arith)

pub some_inj {ℓ} : {A : Type ℓ} (a b : A) → some a ≡ some b → a ≡ b
some_inj a b p = cc

chosen-kept :
    (b : Bool) (p q : Param) (args : List Text)
    → some (if b then record p { args = args } else p) ≡ some q
    → q.keyword ≡ p.keyword
chosen-kept true p q args h =
    ap (λ (r : Param). r.keyword) (sym (some_inj (record p { args = args }) q h))
chosen-kept false p q args h = ap (λ (r : Param). r.keyword) (sym (some_inj p q h))

with_key-kept :
    (old new : Text) (p q : Param) (args : List Text)
    → with_key old new p args ≡ some q
    → q.keyword ≡ p.keyword
with_key-kept old new p q [] h = ground arith
with_key-kept old new p q (a ∷ args) h =
    chosen-kept (text_eq (trim_quotes a) old) p q (new ∷ args) h

-- A replaced parameter keeps its keyword, and only a key's parameter is changed.
keyword-replace_param :
    (old new : Text) (p q : Param) → replace_param old new p ≡ some q → q.keyword ≡ p.keyword
unfolding replace_param
keyword-replace_param old new p q h = elim (Bool-cases (text_eq p.keyword identity_file)) [
  | inl e ↦ with_key-kept old new p q p.args (rw e at h)
  | inr e ↦ ground (arith, h, e)
]

replace_param-other :
    (old new : Text) (p : Param)
    → text_eq p.keyword identity_file ≡ false
    → replace_param old new p ≡ some p
unfolding replace_param
replace_param-other old new p h = rw h

-- Neither the port nor the setting of the host key check is the key's keyword.
abbrev IsOther : Text → Type 0
IsOther k = text_eq k identity_file ≡ false

keyword-IsOther :
    (k : Text) (p : Param) → IsOther k → text_eq p.keyword k ≡ true → IsOther p.keyword
keyword-IsOther k p o m = rw ((text_eq_iff p.keyword k).0 m) o

get_param-cons :
    (k old new : Text) (p q : Param) (ps qs : List Param)
    → IsOther k
    → replace_param old new p ≡ some q
    → get_param k qs ≡ get_param k ps
    → get_param k (q ∷ qs) ≡ get_param k (p ∷ ps)
unfolding get_param
get_param-cons k old new p q ps qs o h e = elim (Bool-cases (text_eq p.keyword k)) [
  | inl m ↦
      rw (sym (some_inj p q (sym (replace_param-other old new p (keyword-IsOther k p o m)) ∙ h)), m)
  | inr m ↦ rw (keyword-replace_param old new p q h, m) e
]

get_param-replace_params :
    (k old new : Text) (ps qs : List Param)
    → IsOther k
    → replace_params old new ps ≡ some qs
    → get_param k qs ≡ get_param k ps
unfolding replace_params
get_param-replace_params k old new [] qs o h = ground arith
get_param-replace_params k old new (p ∷ ps) qs o h =
    let (x, xs, e, es, eq) =
      cons_some-inv (replace_param old new p) (replace_params old new ps) qs h in
    rw eq (get_param-cons k old new p x ps xs o e (get_param-replace_params k old new ps xs o es))

get_param-replace_names :
    (k old new : Text) (hns : List Text) (ps qs : List Param)
    → IsOther k
    → replace_names old new hns ps ≡ some qs
    → get_param k qs ≡ get_param k ps
unfolding replace_names
get_param-replace_names k old new [] ps qs o h = ap (get_param k) (sym (some_inj ps qs h))
get_param-replace_names k old new (hn ∷ hns) ps qs o h =
    elim (Bool-cases (has_suffix hn (codes ".envd"))) [
      | inr e ↦ get_param-replace_names k old new hns ps qs o (rw e at h)
      | inl e ↦ elim (Option-cases (replace_params old new ps)) [
        | inl n ↦ ground (arith, h, e, n)
        | inr (rs, r) ↦
            get_param-replace_names k old new hns rs qs o (rw (e, r) at h)
            ∙ get_param-replace_params k old new ps rs o r
      ]
    ]

-- A host with the same names and the same port and host key check.
abbrev IsSame : Host → Host → Type 0
IsSame h h' =
    (h'.hostnames ≡ h.hostnames)
    × (get_param port_keyword h'.params ≡ get_param port_keyword h.params)
    × (get_param strict_host_key_checking_keyword h'.params
        ≡ get_param strict_host_key_checking_keyword h.params)

port-IsOther : IsOther port_keyword
unfolding text_eq
port-IsOther = refl

check-IsOther : IsOther strict_host_key_checking_keyword
unfolding text_eq
check-IsOther = refl

replace_host-IsSame :
    (old new : Text) (h h' : Host) → replace_host old new h ≡ some h' → IsSame h h'
unfolding replace_host
replace_host-IsSame old new h h' e =
    elim (Option-cases (replace_names old new h.hostnames h.params)) [
      | inl n ↦ ground (arith, e, n)
      | inr (ps, n) ↦ rw (sym (some_inj (record h { params = ps }) h' (rw n at e))) (
        refl,
        get_param-replace_names port_keyword old new h.hostnames h.params ps port-IsOther n,
        get_param-replace_names strict_host_key_checking_keyword old new h.hostnames h.params ps
            check-IsOther n,
      )
    ]

is_found-IsSame : (n : Text) (h h' : Host) → IsSame h h' → is_found n h' ≡ is_found n h
unfolding is_found is_managed
is_found-IsSame n h h' (a, p, c) = rw (a, p, c)

port_in-replace_hosts :
    (n old new : Text) (hs hs' : List Host)
    → replace_hosts old new hs ≡ some hs'
    → port_in (find_host n hs') ≡ port_in (find_host n hs)
unfolding replace_hosts find_host
port_in-replace_hosts n old new [] hs' e = rw (sym (some_inj [] hs' e))
port_in-replace_hosts n old new (h ∷ hs) hs' e =
    let (x, xs, eh, es, eq) =
      cons_some-inv (replace_host old new h) (replace_hosts old new hs) hs' e in
    let same = replace_host-IsSame old new h x eh in
    rw (eq, is_found-IsSame n h x same)
      (elim (Bool-cases (is_found n h)) [
        | inl f ↦ rw (f, same.1)
        | inr f ↦ rw f (port_in-replace_hosts n old new hs xs es)
      ])

pub replace_key-hosts :
    (old new : Text) (cfg cfg' : SshConfig)
    → replace_key old new cfg ≡ some cfg'
    → replace_hosts old new cfg.hosts ≡ some cfg'.hosts
unfolding replace_key
replace_key-hosts old new cfg cfg' e = elim (Option-cases (replace_hosts old new cfg.hosts)) [
  | inl n ↦ ground (arith, e, n)
  | inr (hs, n) ↦
      n
      ∙ ap (λ (c : SshConfig). some c.hosts)
          (some_inj (record cfg { hosts = hs }) cfg' (rw (n, replace_key) at e))
]

-- Where replacing the key does not panic, every environment has the same port as before, or the same
-- error.
pub port_in-replace_key :
    (name old new : Text) (cfg cfg' : SshConfig)
    → replace_key old new cfg ≡ some cfg'
    → port_in (find_host (build_hostname name) cfg'.hosts)
      ≡ port_in (find_host (build_hostname name) cfg.hosts)
port_in-replace_key name old new cfg cfg' e =
    port_in-replace_hosts (build_hostname name) old new cfg.hosts cfg'.hosts
      (replace_key-hosts old new cfg cfg' e)
