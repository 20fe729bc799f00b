-- ===== src/Ssh.antt =====
-- pkg/ssh/config/ssh_config.go: the types, and how a configuration is printed.
pub mod Parse
pub mod Find
pub mod File
pub mod Entry
pub mod Lines
pub mod Steps
pub mod RoundTrip
pub mod EntryLaws
pub mod Key
use envd.Base.{ℕ, Bool, true, false, String, List, [], ◌∷◌, ◌++◌, map, if◌then◌else◌}
use envd.Base.Text.{Text, codes}
use envd.Base.Strings.Space.{has_prefix, join}

pub record Param : Type 0 where
  pub comments : List Text
  pub keyword : Text
  pub args : List Text

pub record Host : Type 0 where
  pub comments : List Text
  pub hostnames : List Text
  pub params : List Param

pub record SshConfig : Type 0 where
  pub source : Text
  pub globals : List Param
  pub hosts : List Host

-- `var p = &param{}`
abbrev pub empty_param : Param
empty_param = record { comments = []; keyword = []; args = [] }

abbrev pub forward_agent_keyword : Text
forward_agent_keyword = codes "ForwardAgent"

abbrev pub pubkey_accepted_key_types_keyword : Text
pubkey_accepted_key_types_keyword = codes "PubkeyAcceptedKeyTypes"

abbrev pub host_keyword : Text
host_keyword = codes "Host"

abbrev pub host_name_keyword : Text
host_name_keyword = codes "HostName"

abbrev pub port_keyword : Text
port_keyword = codes "Port"

abbrev pub strict_host_key_checking_keyword : Text
strict_host_key_checking_keyword = codes "StrictHostKeyChecking"

abbrev pub host_key_algorithms : Text
host_key_algorithms = codes "HostKeyAlgorithms"

abbrev pub user_known_hosts_file_keyword : Text
user_known_hosts_file_keyword = codes "UserKnownHostsFile"

abbrev pub identity_file : Text
identity_file = codes "IdentityFile"

abbrev pub user_keyword : Text
user_keyword = codes "User"

-- `newHost` and `newParam`
unfoldable pub new_host : List Text → List Text → Host
new_host hostnames comments = record { comments = comments; hostnames = hostnames; params = [] }

unfoldable pub new_param : Text → List Text → List Text → Param
new_param keyword args comments = record { comments = comments; keyword = keyword; args = args }

-- `if !strings.HasPrefix(comment, "#") { comment = "# " + comment }`
unfoldable pub comment_text : Text → Text
unfolding has_prefix
comment_text c = if has_prefix c (b'#' ∷ []) then c else b'#' ∷ b' ' ∷ c

-- `for _, comment := range comments { …; fmt.Fprintln(buf, comment) }`
unfoldable pub print_comments : List Text → Text
print_comments [] = []
print_comments (c ∷ cs) = comment_text c ++ (b'\n' ∷ print_comments cs)

-- A blank line stands before a parameter's comments.
unfoldable pub comments_block : List Text → Text
comments_block [] = []
comments_block (c ∷ cs) = b'\n' ∷ print_comments (c ∷ cs)

unfoldable pub param_string : Param → Text
param_string p =
    comments_block p.comments ++ (p.keyword ++ (b' ' ∷ (join (b' ' ∷ []) p.args ++ (b'\n' ∷ []))))

unfoldable pub print_params : Text → List Param → Text
print_params indent [] = []
print_params indent (p ∷ ps) = indent ++ (param_string p ++ print_params indent ps)

unfoldable pub host_string : Host → Text
host_string h =
    print_comments h.comments
    ++ (host_keyword
        ++ (b' '
            ∷ (join (b' ' ∷ []) h.hostnames ++ (b'\n' ∷ print_params (b' ' ∷ b' ' ∷ []) h.params))))

unfoldable pub print_hosts : List Host → Text
print_hosts [] = []
print_hosts (h ∷ hs) = host_string h ++ print_hosts hs

-- `if len(config.globals) > 0 { fmt.Fprintln(buf) }`
abbrev pub gap : List Param → Text
gap [] = []
gap (_ ∷ _) = b'\n' ∷ []

-- What `writeTo` writes. Printing into a buffer never fails.
unfoldable pub write_to : SshConfig → Text
write_to cfg = print_params [] cfg.globals ++ (gap cfg.globals ++ print_hosts cfg.hosts)
