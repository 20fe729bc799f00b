-- ===== src/Tests/Ssh.antt =====
-- pkg/ssh/config and pkg/editor/vscode at concrete inputs.
use envd.Base.{
  Bool, true, false, not, ◌&&◌, none, some, List, [], ◌∷◌, ◌++◌, map, ◌≡◌, refl, sym, arith, All,
  ◌==◌,
}
use mathlib.Core.Path.{subst}
use envd.Base.Text.{Text, codes, text_eq}
use envd.Base.Strings.Space.{
  is_space, has_prefix, trim_left, trim_right, trim_space, join, IsSolid, IsWord,
}
use envd.Base.Strings.Lines.{IsLine, fits_buffer, byte_len}
use envd.Base.Strings.Decimal.{pos, itoa}
use envd.Ssh.{Param, Host, SshConfig, host_keyword, comment_text, write_to}
use envd.Ssh.Parse.{parse}
use envd.Ssh.Find.{
  has_name, get_param, is_managed, is_found, find_host, remove_host, without_host, build_hostname,
}
use envd.Ssh.Find.Laws.{IsSingle, others}
use envd.Ssh.File.{open_failed, rename_failed, ok, OpenIo, SaveIo, get_config, save}
use envd.Ssh.Entry.{EntryOptions, entry_host, entry_params, add_host, add, remove, get_port}
use envd.Ssh.Lines.{config_lines}
use envd.Ssh.Steps.{IsComment, IsKeyword, IsParam, IsHost, norm_param, norm_host}
use envd.Ssh.RoundTrip.{IsPrintable, parse-write_to}
use envd.Ssh.EntryLaws.{add_host-add_host, get_port-add, add_atomic}

abbrev is_solid : Text → Bool
is_solid [] = true
is_solid (c ∷ cs) = not (is_space c) && is_solid cs

is_solid_sound : (t : Text) → is_solid t ≡ true → IsSolid t
is_solid_sound [] h = tt
is_solid_sound (c ∷ cs) h = (ground (arith, h), is_solid_sound cs (ground (arith, h)))

abbrev is_word : Text → Bool
is_word [] = false
is_word (c ∷ cs) = is_solid (c ∷ cs)

is_word_sound : (t : Text) → is_word t ≡ true → IsWord t
is_word_sound [] h = cc
is_word_sound (c ∷ cs) h = is_solid_sound (c ∷ cs) h

abbrev is_line : Text → Bool
is_line [] = true
is_line (c ∷ cs) = not (c == b'\n') && is_line cs

is_line_sound : (t : Text) → is_line t ≡ true → IsLine t
is_line_sound [] h = tt
is_line_sound (c ∷ cs) h = (ground (arith, h), is_line_sound cs (ground (arith, h)))

abbrev all_of {ℓ} : {A : Type ℓ} → (A → Bool) → List A → Bool
all_of f [] = true
all_of f (x ∷ xs) = f x && all_of f xs

all_of_sound {ℓ κ} :
    {A : Type ℓ} (P : A → Type κ) (f : A → Bool) (xs : List A)
    → ((x : A) → f x ≡ true → P x)
    → all_of f xs ≡ true
    → All P xs
all_of_sound P f [] sound h = tt
all_of_sound P f (x ∷ xs) sound h =
    (sound x (ground (arith, h)), all_of_sound P f xs sound (ground (arith, h)))

abbrev is_keyword : Text → Bool
is_keyword [] = false
is_keyword (c ∷ cs) = not (is_space c) && (is_solid cs && not (c == b'#'))

is_keyword_sound : (t : Text) → is_keyword t ≡ true → IsKeyword t
is_keyword_sound [] h = cc
is_keyword_sound (c ∷ cs) h =
    (ground (arith, h), is_solid_sound cs (ground (arith, h)), ground (arith, h))

-- A parameter with no comments.
abbrev is_plain : Param → Bool
is_plain p =
    (elim p.comments [ [] ↦ true | _ ∷ _ ↦ false ])
    && (is_keyword p.keyword && (not (text_eq p.keyword host_keyword) && all_of is_word p.args))

no_comments : (cs : List Text) → (elim cs [ [] ↦ true | _ ∷ _ ↦ false ]) ≡ true → All IsComment cs
no_comments [] h = tt
no_comments (c ∷ cs) h = cc

is_plain_sound : (p : Param) → is_plain p ≡ true → IsParam p
is_plain_sound p h = (
  no_comments p.comments (ground (arith, h)),
  is_keyword_sound p.keyword (ground (arith, h)),
  ground (arith, h),
  all_of_sound IsWord is_word p.args is_word_sound (ground (arith, h)),
)

abbrev timeout : Param
timeout = record { comments = []; keyword = codes "Timeout"; args = codes "5" ∷ [] }

abbrev server : Host
server = record {
  comments = codes "old server" ∷ [];
  hostnames = codes "server" ∷ [];
  params = record { comments = []; keyword = codes "Port"; args = codes "22" ∷ [] } ∷ [];
}

abbrev small : SshConfig
small = record { source = []; globals = timeout ∷ []; hosts = server ∷ [] }

abbrev no_hosts : SshConfig
no_hosts = record { source = []; globals = timeout ∷ []; hosts = [] }

timeout_ok : IsParam timeout
unfolding is_space text_eq
timeout_ok = is_plain_sound timeout refl

server_ok : IsHost server
unfolding is_space text_eq trim_space trim_left trim_right comment_text has_prefix
server_ok = (
  ((refl, is_line_sound (codes "# old server") refl), tt),
  (is_word_sound (codes "server") refl, tt),
  all_of_sound IsParam is_plain server.params is_plain_sound refl,
)

lines_fit : All (λ l. fits_buffer l ≡ true) (config_lines small)
unfolding byte_len join comment_text has_prefix
lines_fit = all_of_sound _ fits_buffer (config_lines small) (λ l h. h) refl

small-IsPrintable : IsPrintable small
small-IsPrintable = record {
  globals_ok = (timeout_ok, tt);
  hosts_ok = (server_ok, tt);
  fits = lines_fit;
}

parse-write_to_example : parse (write_to small) ≡ record {
  source = write_to small;
  globals = map norm_param small.globals;
  hosts = map norm_host small.hosts;
}
parse-write_to_example = parse-write_to small small-IsPrintable (λ e. cc)

global_fits : All (λ l. fits_buffer l ≡ true) (config_lines no_hosts)
unfolding byte_len join
global_fits = all_of_sound _ fits_buffer (config_lines no_hosts) (λ l h. h) refl

abbrev entry : EntryOptions
entry = record {
  name = codes "demo.envd";
  iface = codes "127.0.0.1";
  port = pos 2222;
  private_key_path = codes "/k";
  enable_host_key_check = false;
  enable_agent_forward = true;
  user = codes "envd";
}

abbrev moved : EntryOptions
moved = record entry { port = pos 3333 }

abbrev checked : EntryOptions
checked = record entry { enable_host_key_check = true }

abbrev nothing : SshConfig
nothing = record { source = []; globals = []; hosts = [] }

small-IsSingle : IsSingle (codes "demo.envd") small.hosts
unfolding find_host without_host is_found
small-IsSingle = refl

-- The entry in front of the hosts that are kept.
abbrev crowded : SshConfig
crowded = record small { hosts = entry_host entry ∷ small.hosts }

crowded-IsSingle : IsSingle (codes "demo.envd") crowded.hosts
unfolding find_host without_host is_found is_managed has_name get_param entry_host entry_params
crowded-IsSingle = refl

add_host-add_host_example :
    (add_host moved (add_host entry crowded) ≡ add_host moved crowded)
    × (add_host moved crowded
        ≡ record crowded { hosts = others moved.name crowded.hosts ++ (entry_host moved ∷ []) })
add_host-add_host_example = add_host-add_host entry moved crowded refl refl crowded-IsSingle

abbrev readable : OpenIo
readable = record { open_fails = false; read_fails = false }

abbrev shut : OpenIo
shut = record { open_fails = true; read_fails = false }

abbrev calm : SaveIo
calm = record {
  stat_fails = false;
  temp_fails = false;
  write_fails = false;
  close_fails = false;
  chmod_fails = false;
  reopen_fails = false;
  rename_fails = false;
}

abbrev full_disk : SaveIo
full_disk = record calm { rename_fails = true }

add_fails : (add readable full_disk entry none).1 ≡ some rename_failed
unfolding add save get_config
add_fails = refl

add_atomic_example : (add readable full_disk entry none).0 ≡ none
add_atomic_example = add_atomic readable full_disk entry none rename_failed add_fails

remove_fails : (remove shut calm (codes "demo.envd") (some (codes "Host a"))).1 ≡ some open_failed
unfolding remove get_config
remove_fails = refl

added : add readable calm entry none ≡ (some (write_to (add_host entry nothing)), none)
unfolding add save get_config
added = refl

no_file : get_config readable none ≡ ok nothing
unfolding get_config
no_file = refl

nothing-IsSingle : IsSingle (codes "demo.envd") nothing.hosts
unfolding find_host without_host is_found
nothing-IsSingle = refl

demo_hostname : codes "demo.envd" ≡ build_hostname (codes "demo")
unfolding build_hostname
demo_hostname = refl

entry_ok : IsHost (entry_host entry)
unfolding entry_host itoa is_space text_eq trim_space trim_left trim_right comment_text
entry_ok = (
  ((refl, is_line_sound (codes "# entry generated by envd") refl), tt),
  (is_word_sound (codes "demo.envd") refl, tt),
  all_of_sound IsParam is_plain (entry_host entry).params is_plain_sound refl,
)

abbrev entry_only : SshConfig
entry_only = record { source = []; globals = []; hosts = entry_host entry ∷ [] }

entry_alone : add_host entry nothing ≡ entry_only
unfolding add_host remove_host find_host
entry_alone = refl

entry_fits : All (λ l. fits_buffer l ≡ true) (config_lines entry_only)
unfolding entry_host itoa byte_len join comment_text text_eq
entry_fits = all_of_sound _ fits_buffer (config_lines entry_only) (λ l h. h) refl

entry-IsPrintable : IsPrintable (add_host entry nothing)
entry-IsPrintable =
    subst IsPrintable (sym entry_alone)
      (record { globals_ok = tt; hosts_ok = (entry_ok, tt); fits = entry_fits })

get_port-add_example :
    get_port readable (codes "demo") (some (write_to (add_host entry nothing))) ≡ ok (pos 2222)
get_port-add_example =
    get_port-add readable readable calm entry (codes "demo") none
      (some (write_to (add_host entry nothing))) nothing demo_hostname refl (omega arith) no_file
      entry-IsPrintable nothing-IsSingle added refl refl
