-- ===== src/Ssh/Find/Laws.antt =====
-- What `findHost` and `removeHost` of pkg/ssh/config/ssh_config.go return on changed lists, and on
-- the lists that are read back from a file.
use mathlib.Core.Option
use envd.Base.{
  true, Option, none, some, List, [], ◌∷◌, ◌++◌, map, ◌≡◌, refl, arith, ◌&&◌, if◌then◌else◌,
}
use envd.Base.Text.{Text}
use envd.Ssh.{Param, Host, SshConfig, port_keyword, strict_host_key_checking_keyword}
use envd.Ssh.Find.{
  get_param, has_name, is_some, is_managed, is_found, find_host, without_host, remove_host,
}
use envd.Ssh.Steps.{norm_param, norm_host}

-- At most one host of that name is envd's.
abbrev pub IsSingle : Text → List Host → Type 0
IsSingle name hs = find_host name (without_host name hs) ≡ none

pub find_host-append :
    (name : Text) (hs : List Host) (h : Host)
    → find_host name (hs ++ (h ∷ [])) ≡ (
        if is_some (find_host name hs)
        then find_host name hs
        else if is_found name h
        then some h
        else none)
unfolding find_host
find_host-append name [] h = refl
find_host-append name (x ∷ hs) h = ground (arith, find_host-append name hs h)

pub without_host-none :
    (name : Text) (hs : List Host) → find_host name hs ≡ none → without_host name hs ≡ hs
unfolding find_host without_host
without_host-none name [] e = refl
without_host-none name (x ∷ hs) e = ground (arith, without_host-none name hs)

pub without_host-append :
    (name : Text) (hs : List Host) (h : Host)
    → find_host name hs ≡ none
    → is_found name h ≡ true
    → without_host name (hs ++ (h ∷ [])) ≡ hs
unfolding find_host without_host
without_host-append name [] h e f = ground arith
without_host-append name (x ∷ hs) h e f = ground (arith, without_host-append name hs h)

-- `removeHost` leaves the list without the host, whether or not there was one.
pub hosts-remove_host :
    (name : Text) (cfg : SshConfig)
    → (remove_host name cfg).0 ≡ record cfg { hosts = without_host name cfg.hosts }
unfolding remove_host
hosts-remove_host name cfg = ground (arith, without_host-none name cfg.hosts)

-- All hosts but those that have the name and a value for the port and for the host key check.
abbrev pub others : Text → List Host → List Host
others name [] = []
others name (h ∷ hs) =
    if has_name name h.hostnames
      && (is_some (get_param port_keyword h.params)
          && is_some (get_param strict_host_key_checking_keyword h.params))
    then others name hs
    else h ∷ others name hs

others-none : (name : Text) (hs : List Host) → find_host name hs ≡ none → others name hs ≡ hs
unfolding find_host is_found is_managed
others-none name [] e = refl
others-none name (h ∷ hs) e = ground (arith, others-none name hs)

pub without_host-others :
    (name : Text) (hs : List Host) → IsSingle name hs → without_host name hs ≡ others name hs
unfolding find_host without_host is_found is_managed
without_host-others name [] e = refl
without_host-others name (h ∷ hs) e =
    ground (arith, others-none name hs, without_host-others name hs)

-- Comments do not matter to a search.
pub get_param-norm :
    (keyword : Text) (ps : List Param)
    → get_param keyword (map norm_param ps) ≡ Option.map norm_param (get_param keyword ps)
unfolding get_param
get_param-norm keyword [] = refl
get_param-norm keyword (p ∷ ps) = ground (arith, get_param-norm keyword ps)

is_some-map {ℓ} : {A B : Type ℓ} (f : A → B) (o : Option A) → is_some (Option.map f o) ≡ is_some o
is_some-map f none = refl
is_some-map f (some a) = refl

is_found-norm : (name : Text) (h : Host) → is_found name (norm_host h) ≡ is_found name h
unfolding is_found
is_found-norm name h = simp (get_param-norm, is_some-map)

pub find_host-norm :
    (name : Text) (hs : List Host)
    → find_host name (map norm_host hs) ≡ Option.map norm_host (find_host name hs)
unfolding find_host
find_host-norm name [] = refl
find_host-norm name (h ∷ hs) = ground (arith, is_found-norm name h, find_host-norm name hs)
