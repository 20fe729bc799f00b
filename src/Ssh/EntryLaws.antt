-- ===== src/Ssh/EntryLaws.antt =====
-- What adding an entry to a configuration file does: pkg/ssh/config/entry.go with `GetPort`.
use mathlib.Core.Option
use mathlib.Core.List.{concat-ne-nil}
use mathlib.Core.Path.{ap₂}
use envd.Base.{
  ◌+◌, Bool, true, false, not, ◌&&◌, Option, none, some, List, [], ◌∷◌, ◌++◌, ◌≡◌, ◌≢◌, refl, sym,
  ap, ◌∙◌, arith, if◌then◌else◌, length, length-append,
}
use envd.Base.Text.{Text, codes, text_eq, text_eq_refl}
use envd.Base.Strings.Decimal.{ℤ, itoa, FitsInt64, atoi-itoa}
use envd.Ssh.{
  Param, Host, SshConfig, new_param, port_keyword, strict_host_key_checking_keyword,
  forward_agent_keyword, user_keyword, write_to,
}
use envd.Ssh.Parse.{parse}
use envd.Ssh.Find.{
  get_param, has_name, is_some, is_managed, is_found, find_host, without_host, remove_host,
  build_hostname,
}
use envd.Ssh.Find.Laws.{
  IsSingle, others, without_host-others, find_host-append, without_host-none, without_host-append,
  hosts-remove_host, get_param-norm, find_host-norm,
}
use envd.Ssh.File.{Error, ok, OpenIo, SaveIo, get_config, save}
use envd.Ssh.Entry.{
  EntryOptions, entry_params, entry_host, add_host, add, remove, when, add_read, port_of, port_in,
  port_read, get_port,
}
use envd.Ssh.Steps.{norm_param, norm_host}
use envd.Ssh.RoundTrip.{IsPrintable, parse-write_to}

pub hosts-add_host :
    (eo : EntryOptions) (cfg : SshConfig)
    → add_host eo cfg
      ≡ record cfg { hosts = without_host eo.name cfg.hosts ++ (entry_host eo ∷ []) }
unfolding add_host
hosts-add_host eo cfg =
    ap (λ (c : SshConfig). record c { hosts = c.hosts ++ (entry_host eo ∷ []) })
      (hosts-remove_host eo.name cfg)

get_param-port :
    (eo : EntryOptions)
    → get_param port_keyword (entry_params eo)
      ≡ some (new_param port_keyword (itoa eo.port ∷ []) [])
unfolding get_param entry_params
get_param-port eo = refl

-- The setting of the host key check, by its option and the two that follow.
has_strict :
    (c a : Bool) (name_eq : Bool) (user : Text)
    → is_some (
        get_param strict_host_key_checking_keyword (
          when c (new_param strict_host_key_checking_keyword (codes "no" ∷ []) [])
          ++ (when a (new_param forward_agent_keyword (codes "yes" ∷ []) [])
              ++ when name_eq (new_param user_keyword (user ∷ []) []))))
      ≡ c
unfolding get_param new_param
has_strict true a u user = refl
has_strict false true true user = refl
has_strict false true false user = refl
has_strict false false true user = refl
has_strict false false false user = refl

has_name_self : (name : Text) → has_name name (name ∷ []) ≡ true
unfolding has_name
has_name_self name = rw text_eq_refl

names-entry_host : (eo : EntryOptions) → has_name eo.name (entry_host eo).hostnames ≡ true
unfolding entry_host
names-entry_host eo = has_name_self eo.name

is_managed-entry_host :
    (eo : EntryOptions) → is_managed (entry_host eo) ≡ not eo.enable_host_key_check
unfolding is_managed entry_host
is_managed-entry_host eo =
    has_strict (not eo.enable_host_key_check) eo.enable_agent_forward (not (text_eq eo.user []))
      eo.user

-- The entry is one that `findHost` finds exactly if the host key check is off.
is_found-entry_host :
    (eo : EntryOptions) → is_found eo.name (entry_host eo) ≡ not eo.enable_host_key_check
unfolding is_found
is_found-entry_host eo = ap₂ ◌&&◌ (names-entry_host eo) (is_managed-entry_host eo)

not_found :
    (o : Option Host) (f : Bool) (h : Host)
    → o ≡ none
    → (if is_some o then o else if f then some h else none) ≡ (if f then some h else none)
not_found none f h e = refl
not_found (some x) f h e = cc

-- What `findHost` returns behind an `add`, if there was one entry of that name at most.
find_host-add_host :
    (eo : EntryOptions) (cfg : SshConfig)
    → IsSingle eo.name cfg.hosts
    → find_host eo.name (add_host eo cfg).hosts
      ≡ (if eo.enable_host_key_check then none else some (entry_host eo))
find_host-add_host eo cfg one =
    ap (λ (c : SshConfig). find_host eo.name c.hosts) (hosts-add_host eo cfg)
    ∙ find_host-append eo.name (without_host eo.name cfg.hosts) (entry_host eo)
    ∙ not_found _ (is_found eo.name (entry_host eo)) (entry_host eo) one
    ∙ rw is_found-entry_host (by_check eo.enable_host_key_check)
  where
    by_check :
        (b : Bool)
        → (if not b then some (entry_host eo) else none)
          ≡ (if b then none else some (entry_host eo))
    by_check true = refl
    by_check false = refl

add_host_again :
    (eo eo' : EntryOptions) (cfg : SshConfig)
    → eo.name ≡ eo'.name
    → eo.enable_host_key_check ≡ false
    → IsSingle eo.name cfg.hosts
    → add_host eo' (add_host eo cfg) ≡ add_host eo' cfg
add_host_again eo eo' cfg same off one =
    let ws = without_host eo.name cfg.hosts in
    let with_hosts : List Host → SshConfig =
      λ hs. record cfg { hosts = hs ++ (entry_host eo' ∷ []) } in
    ap (add_host eo') (hosts-add_host eo cfg)
    ∙ hosts-add_host eo' (record cfg { hosts = ws ++ (entry_host eo ∷ []) })
    ∙ ap (λ n. with_hosts (without_host n (ws ++ (entry_host eo ∷ [])))) (sym same)
    ∙ ap with_hosts
        (without_host-append eo.name ws (entry_host eo) one (is_found-entry_host eo ∙ ap not off))
    ∙ ap (λ n. with_hosts (without_host n cfg.hosts)) same
    ∙ sym (hosts-add_host eo' cfg)

add_host-others :
    (eo : EntryOptions) (cfg : SshConfig)
    → IsSingle eo.name cfg.hosts
    → add_host eo cfg ≡ record cfg { hosts = others eo.name cfg.hosts ++ (entry_host eo ∷ []) }
add_host-others eo cfg one =
    hosts-add_host eo cfg
    ∙ ap (λ (hs : List Host). record cfg { hosts = hs ++ (entry_host eo ∷ []) })
        (without_host-others eo.name cfg.hosts one)

-- `add` of the same name again replaces the entry that the first `add` left: the result is that of the
-- second `add` alone, which keeps the globals and all other hosts in their order, drops the host that
-- has the name, a `Port` and a `StrictHostKeyChecking`, and has the new entry's host behind them. This
-- is for a first entry with the host key check off, and a configuration with one entry of that name at
-- most.
pub add_host-add_host :
    (eo eo' : EntryOptions) (cfg : SshConfig)
    → eo.name ≡ eo'.name
    → eo.enable_host_key_check ≡ false
    → IsSingle eo.name cfg.hosts
    → (add_host eo' (add_host eo cfg) ≡ add_host eo' cfg)
      × (add_host eo' cfg
          ≡ record cfg { hosts = others eo'.name cfg.hosts ++ (entry_host eo' ∷ []) })
add_host-add_host eo eo' cfg same off one =
    (add_host_again eo eo' cfg same off one, add_host-others eo' cfg (rw same at one))

-- With the host key check on the entry is not found again: each further `add` of the name leaves
-- one host more.
pub length-add_host_checked :
    (eo : EntryOptions) (cfg : SshConfig)
    → eo.enable_host_key_check ≡ true
    → IsSingle eo.name cfg.hosts
    → length (add_host eo (add_host eo cfg)).hosts ≡ length (add_host eo cfg).hosts + 1
length-add_host_checked eo cfg on one =
    let again = (add_host eo cfg).hosts in
    let missing : find_host eo.name again ≡ none =
      find_host-add_host eo cfg one ∙ ap (λ b. if b then none else some (entry_host eo)) on in
    ap (λ (c : SshConfig). length c.hosts) (hosts-add_host eo (add_host eo cfg))
    ∙ length-append (without_host eo.name again) (entry_host eo ∷ [])
    ∙ ap (λ (hs : List Host). length hs + 1) (without_host-none eo.name again missing)

-- A save that reports no error has written the configuration.
save-written :
    (io : SaveIo) (cfg : SshConfig) (f g : Option Text)
    → save io cfg f ≡ (g, none)
    → g ≡ some (write_to cfg)
unfolding save
save-written io cfg f g h = ground arith

get_config-readable :
    (io : OpenIo) (t : Text)
    → io.open_fails ≡ false
    → io.read_fails ≡ false
    → get_config io (some t) ≡ ok (parse t)
unfolding get_config
get_config-readable io t o r = rw (o, r)

-- Comments do not matter to the port.
port_of-norm : (o : Option Param) → port_of (Option.map norm_param o) ≡ port_of o
port_of-norm none = refl
port_of-norm (some p) = refl

port_in-norm : (o : Option Host) → port_in (Option.map norm_host o) ≡ port_in o
port_in-norm none = refl
port_in-norm (some h) =
    ap port_of (get_param-norm port_keyword h.params)
    ∙ port_of-norm (get_param port_keyword h.params)

params-entry_host : (eo : EntryOptions) → (entry_host eo).params ≡ entry_params eo
unfolding entry_host
params-entry_host eo = refl

port_of-itoa :
    (z : ℤ) → FitsInt64 z → port_of (some (new_param port_keyword (itoa z ∷ []) [])) ≡ ok z
unfolding new_param
port_of-itoa z fits = rw (atoi-itoa z fits, port_of)

port_in-entry_host :
    (eo : EntryOptions) → FitsInt64 eo.port → port_in (some (entry_host eo)) ≡ ok eo.port
port_in-entry_host eo fits =
    ap (λ ps. port_of (get_param port_keyword ps)) (params-entry_host eo)
    ∙ ap port_of (get_param-port eo)
    ∙ port_of-itoa eo.port fits

add-read :
    (open_io : OpenIo) (io : SaveIo) (eo : EntryOptions) (f : Option Text) (cfg : SshConfig)
    → get_config open_io f ≡ ok cfg
    → add open_io io eo f ≡ save io (add_host eo cfg) f
unfolding add
add-read open_io io eo f cfg h = ap (add_read io eo f) h

-- The port that is read from the text of a configuration is the one in the configuration.
get_port-write_to :
    (io : OpenIo) (name : Text) (cfg : SshConfig)
    → IsPrintable cfg
    → cfg.hosts ≢ []
    → io.open_fails ≡ false
    → io.read_fails ≡ false
    → get_port io name (some (write_to cfg)) ≡ port_in (find_host (build_hostname name) cfg.hosts)
unfolding get_port
get_port-write_to io name cfg v ne o r =
    ap (port_read name)
      (get_config-readable io (write_to cfg) o r ∙ ap ok (parse-write_to cfg v ne))
    ∙ ap port_in (find_host-norm (build_hostname name) cfg.hosts)
    ∙ port_in-norm (find_host (build_hostname name) cfg.hosts)

hosts-add_host-ne-nil : (eo : EntryOptions) (cfg : SshConfig) → (add_host eo cfg).hosts ≢ []
hosts-add_host-ne-nil eo cfg e =
    concat-ne-nil (entry_host eo) (without_host eo.name cfg.hosts)
      (sym (ap (λ (c : SshConfig). c.hosts) (hosts-add_host eo cfg)) ∙ e)

-- After an `add` that reports no error, `GetPort` returns the port of the entry: for an entry with
-- the host key check off and a 64-bit port, an old configuration with one entry of that name at
-- most, and a new one that is printable.
pub get_port-add :
    (open_io again : OpenIo) (io : SaveIo) (eo : EntryOptions) (name : Text) (f g : Option Text)
    (cfg : SshConfig)
    → eo.name ≡ build_hostname name
    → eo.enable_host_key_check ≡ false
    → FitsInt64 eo.port
    → get_config open_io f ≡ ok cfg
    → IsPrintable (add_host eo cfg)
    → IsSingle eo.name cfg.hosts
    → add open_io io eo f ≡ (g, none)
    → again.open_fails ≡ false
    → again.read_fails ≡ false
    → get_port again name g ≡ ok eo.port
get_port-add open_io again io eo name f g cfg named off fits read v one added o r =
    ap (get_port again name)
      (save-written io (add_host eo cfg) f g (sym (add-read open_io io eo f cfg read) ∙ added))
    ∙ get_port-write_to again name (add_host eo cfg) v (hosts-add_host-ne-nil eo cfg) o r
    ∙ ap (λ n. port_in (find_host n (add_host eo cfg).hosts)) (sym named)
    ∙ ap port_in
        (find_host-add_host eo cfg one ∙ ap (λ b. if b then none else some (entry_host eo)) off)
    ∙ port_in-entry_host eo fits

-- An `add` that returns an error leaves the file as it was.
pub add_atomic :
    (open_io : OpenIo) (io : SaveIo) (eo : EntryOptions) (f : Option Text) (e : Error)
    → (add open_io io eo f).1 ≡ some e
    → (add open_io io eo f).0 ≡ f
unfolding add save get_config
add_atomic open_io io eo none e h = ground arith
add_atomic open_io io eo (some t) e h = ground arith

-- A `remove` that returns an error leaves the file as it was.
pub remove_atomic :
    (open_io : OpenIo) (io : SaveIo) (name : Text) (f : Option Text) (e : Error)
    → (remove open_io io name f).1 ≡ some e
    → (remove open_io io name f).0 ≡ f
unfolding remove save get_config remove_host
remove_atomic open_io io name none e h = ground arith
remove_atomic open_io io name (some t) e h = ground arith
