-- ===== src/Ssh/Find.antt =====
-- Hosts in a configuration: `getHost`, `getParam`, `findHost` and `removeHost` of
-- pkg/ssh/config/ssh_config.go.
pub mod Laws
use envd.Base.{
  ℕ, zero, suc, Bool, true, false, ◌&&◌, Option, none, some, List, [], ◌∷◌, ◌++◌, ◌+◌,
  if◌then◌else◌,
}
use envd.Base.Text.{Text, codes, text_eq}
use envd.Ssh.{Param, Host, SshConfig, port_keyword, strict_host_key_checking_keyword}

unfoldable pub get_param : Text → List Param → Option Param
unfolding text_eq
get_param keyword [] = none
get_param keyword (p ∷ ps) = if text_eq p.keyword keyword then some p else get_param keyword ps

-- `for _, hn := range h.hostnames { if hn == name`
unfoldable pub has_name : Text → List Text → Bool
unfolding text_eq
has_name name [] = false
has_name name (hn ∷ hns) = if text_eq hn name then true else has_name name hns

unfoldable pub get_host : Text → List Host → Option Host
unfolding has_name
get_host name [] = none
get_host name (h ∷ hs) = if has_name name h.hostnames then some h else get_host name hs

abbrev pub is_some {ℓ} : {A : Type ℓ} → Option A → Bool
is_some none = false
is_some (some _) = true

-- Only a host with a port and a setting of the host key check is envd's.
unfoldable pub is_managed : Host → Bool
unfolding get_param
is_managed h =
    is_some (get_param port_keyword h.params)
    && is_some (get_param strict_host_key_checking_keyword h.params)

unfoldable pub is_found : Text → Host → Bool
unfolding has_name is_managed
is_found name h = has_name name h.hostnames && is_managed h

-- The first such host; the source returns its index in the list.
unfoldable pub find_host : Text → List Host → Option Host
find_host name [] = none
find_host name (h ∷ hs) = if is_found name h then some h else find_host name hs

-- `append(cfg.hosts[:ix], cfg.hosts[ix+1:]...)` at the index that `findHost` returns.
unfoldable pub without_host : Text → List Host → List Host
without_host name [] = []
without_host name (h ∷ hs) = if is_found name h then hs else h ∷ without_host name hs

-- `removeHost` returns whether there was one.
unfoldable pub remove_host : Text → SshConfig → SshConfig × Bool
remove_host name cfg =
    if is_some (find_host name cfg.hosts)
    then (record cfg { hosts = without_host name cfg.hosts }, true)
    else (cfg, false)

unfoldable pub build_hostname : Text → Text
build_hostname name = name ++ codes ".envd"
