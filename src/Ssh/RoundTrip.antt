-- ===== src/Ssh/RoundTrip.antt =====
-- `parse` reads back what `writeTo` of pkg/ssh/config/ssh_config.go writes.
use envd.Base.{
  ℕ, true, false, none, List, [], ◌∷◌, ◌++◌, map, ◌≡◌, ◌≢◌, refl, sym, ap, ◌∙◌, arith, ◌==◌, All,
  All-append,
}
use mathlib.Core.Path.{ap₂}
use envd.Base.Text.{Text}
use envd.Base.Strings.Space.{is_space, join, IsSolid, IsWord}
use envd.Base.Strings.Lines.{
  scan_lines, fits_buffer, drop_cr, IsLine, scan_lines-unlines, trim_space-drop_cr,
}
use envd.Ssh.{Param, Host, SshConfig, empty_param, host_keyword, comment_text, write_to}
use envd.Ssh.Parse.{State, start, step, run, finish, parse}
use envd.Ssh.Lines.{
  Indent, none_, two, blanks, words_text, param_lines, params_lines, host_lines, hosts_lines,
  gap_lines, config_lines, write_to-unlines,
}
use envd.Ssh.Steps.{
  IsComment, IsKeyword, IsParam, IsHost, norm_param, norm_host, state, run-cons, step-blanks,
  run-globals, run-host, run-hosts, hosts_of,
}

-- What `parse` reads back. A line that does not fit the scanner's buffer would end the scan.
pub record IsPrintable (cfg : SshConfig) : Type 0 where
  pub globals_ok : All IsParam cfg.globals
  pub hosts_ok : All IsHost cfg.hosts
  pub fits : All (λ l. fits_buffer l ≡ true) (config_lines cfg)

solid-IsLine : (t : Text) → IsSolid t → IsLine t
solid-IsLine [] h = tt
solid-IsLine (c ∷ cs) h = (solid-newline c h.0, solid-IsLine cs h.1)
  where
    solid-newline : (c : ℕ) → is_space c ≡ false → (c == b'\n') ≡ false
    solid-newline c h = unfold is_space in ground arith

word-IsLine : (w : Text) → IsWord w → IsLine w
word-IsLine [] h = tt
word-IsLine (c ∷ cs) h = solid-IsLine (c ∷ cs) h

join-IsLine : (ws : List Text) → All IsWord ws → IsLine (join (b' ' ∷ []) ws)
unfolding join
join-IsLine [] h = tt
join-IsLine (w ∷ []) h = word-IsLine w h.0
join-IsLine (w ∷ v ∷ ws) h =
    All-append (λ c. (c == b'\n') ≡ false) w _ (word-IsLine w h.0) (refl, join-IsLine (v ∷ ws) h.1)

words_text-IsLine :
    (w : Text) (ws : List Text) → IsSolid w → All IsWord ws → IsLine (words_text w ws)
words_text-IsLine w ws h k =
    All-append (λ c. (c == b'\n') ≡ false) w _ (solid-IsLine w h) (refl, join-IsLine ws k)

comments-IsLine : (cs : List Text) → All IsComment cs → All IsLine (map comment_text cs)
comments-IsLine [] h = tt
comments-IsLine (c ∷ cs) h = (h.0.1, comments-IsLine cs h.1)

blanks-IsLine : (i : Indent) (t : Text) → IsLine t → IsLine (blanks i ++ t)
blanks-IsLine none_ t h = h
blanks-IsLine two t h = (refl, (refl, h))

IsKeyword-IsSolid : (w : Text) → IsKeyword w → IsSolid w
IsKeyword-IsSolid [] h = tt
IsKeyword-IsSolid (c ∷ cs) h = (h.0, h.1)

fields-IsLine :
    (i : Indent) (comments : List Text) (keyword : Text) (args : List Text)
    → All IsComment comments
    → IsLine (words_text keyword args)
    → All IsLine (param_lines i (record { comments = comments; keyword = keyword; args = args }))
fields-IsLine i [] keyword args c k = (blanks-IsLine i _ k, tt)
fields-IsLine i (x ∷ xs) keyword args c k = (
  blanks_alone i,
  All-append IsLine (map comment_text (x ∷ xs)) _ (comments-IsLine (x ∷ xs) c) (k, tt),
)
  where
    blanks_alone : (i : Indent) → IsLine (blanks i)
    blanks_alone none_ = tt
    blanks_alone two = (refl, (refl, tt))

params-IsLine : (i : Indent) (ps : List Param) → All IsParam ps → All IsLine (params_lines i ps)
params-IsLine i [] h = tt
params-IsLine i (p ∷ ps) h =
    All-append IsLine (param_lines i p) (params_lines i ps)
      (fields-IsLine i p.comments p.keyword p.args h.0.0
        (words_text-IsLine p.keyword p.args (IsKeyword-IsSolid p.keyword h.0.1) h.0.3))
      (params-IsLine i ps h.1)

host_keyword-IsSolid : IsSolid host_keyword
unfolding is_space
host_keyword-IsSolid = (refl, (refl, (refl, (refl, tt))))

hosts-IsLine : (hs : List Host) → All IsHost hs → All IsLine (hosts_lines hs)
hosts-IsLine [] k = tt
hosts-IsLine (h ∷ hs) k =
    All-append IsLine (host_lines h) (hosts_lines hs)
      (All-append IsLine (map comment_text h.comments) _ (comments-IsLine h.comments k.0.0) (
        words_text-IsLine host_keyword h.hostnames host_keyword-IsSolid k.0.1,
        params-IsLine two h.params k.0.2,
      ))
      (hosts-IsLine hs k.1)

gap-IsLine : (ps : List Param) → All IsLine (gap_lines ps)
gap-IsLine [] = tt
gap-IsLine (p ∷ ps) = (tt, tt)

config-IsLine : (cfg : SshConfig) → IsPrintable cfg → All IsLine (config_lines cfg)
config-IsLine cfg v =
    All-append IsLine (params_lines none_ cfg.globals) _
      (params-IsLine none_ cfg.globals v.globals_ok)
      (All-append IsLine (gap_lines cfg.globals) _ (gap-IsLine cfg.globals)
        (hosts-IsLine cfg.hosts v.hosts_ok))

step-drop_cr : (s : State) (l : Text) → step s (drop_cr l) ≡ step s l
unfolding step
step-drop_cr s l = rw trim_space-drop_cr

run-drop_cr : (s : State) (ls : List Text) → run s (map drop_cr ls) ≡ run s ls
run-drop_cr s [] = refl
run-drop_cr s (l ∷ ls) =
    run-cons s (drop_cr l) (map drop_cr ls)
    ∙ ap (λ t. run t (map drop_cr ls)) (step-drop_cr s l)
    ∙ run-drop_cr (step s l) ls
    ∙ sym (run-cons s l ls)

-- The lines are what counts.
run-write_to :
    (cfg : SshConfig)
    → IsPrintable cfg
    → run start (scan_lines (write_to cfg)) ≡ run start (config_lines cfg)
run-write_to cfg v =
    ap (λ t. run start (scan_lines t)) (write_to-unlines cfg)
    ∙ ap (run start) (scan_lines-unlines (config_lines cfg) (config-IsLine cfg v) v.fits)
    ∙ run-drop_cr start (config_lines cfg)

-- The blank line behind the globals does nothing.
run-gap :
    (ps : List Param) (s : State) (rest : List Text) → run s (gap_lines ps ++ rest) ≡ run s rest
run-gap [] s rest = refl
run-gap (p ∷ ps) s rest = run-cons s [] rest ∙ ap (λ t. run t rest) (step-blanks none_ s)

finish-false :
    (source : Text) (s : State)
    → s.global ≡ false
    → finish source s ≡ record { source = source; globals = s.globals; hosts = hosts_of s }
unfolding finish
finish-false source s h = rw h

-- The loop over the lines of globals and at least one host.
finish-config_lines :
    (source : Text) (gl : List Param) (x : Host) (xs : List Host)
    → All IsParam gl
    → All IsHost (x ∷ xs)
    → finish source (run start (params_lines none_ gl ++ (gap_lines gl ++ hosts_lines (x ∷ xs))))
      ≡ record { source = source; globals = map norm_param gl; hosts = map norm_host (x ∷ xs) }
finish-config_lines source gl x xs kg kh =
    let first = state true empty_param none (map norm_param gl) [] in
    let (g, e, hs) = run-hosts xs (norm_host x) (map norm_param gl) [] kh.1 in
    ap (finish source) (
      run-globals none_ gl (gap_lines gl ++ hosts_lines (x ∷ xs)) none [] [] kg
      ∙ run-gap gl first (hosts_lines (x ∷ xs))
      ∙ run-host x (hosts_lines xs) true none (map norm_param gl) [] kh.0)
    ∙ finish-false source _ g
    ∙ ap₂ (λ (a : List Param) (b : List Host). record { source = source; globals = a; hosts = b }) e
        hs

finish-hosts :
    (source : Text) (gl : List Param) (hs : List Host)
    → hs ≢ []
    → All IsParam gl
    → All IsHost hs
    → finish source (run start (params_lines none_ gl ++ (gap_lines gl ++ hosts_lines hs)))
      ≡ record { source = source; globals = map norm_param gl; hosts = map norm_host hs }
finish-hosts source gl [] ne kg kh = absurd (ne refl)
finish-hosts source gl (x ∷ xs) ne kg kh = finish-config_lines source gl x xs kg kh

finish_no_hosts :
    (source : Text) (gl : List Param) (hs : List Host)
    → hs ≡ []
    → All IsParam gl
    → finish source (run start (params_lines none_ gl ++ (gap_lines gl ++ hosts_lines hs)))
      ≡ record { source = source; globals = map norm_param gl ++ (empty_param ∷ []); hosts = [] }
finish_no_hosts source gl (x ∷ xs) e kg = cc
finish_no_hosts source gl [] e kg =
    ap (finish source) (
      run-globals none_ gl (gap_lines gl ++ []) none [] [] kg
      ∙ run-gap gl (state true empty_param none (map norm_param gl) []) [])
    ∙ unfold run finish in refl

-- What `writeTo` writes is read back by `parse`, if there is a host: the same globals and the same
-- hosts in the same order, with their names, keywords and arguments, and each comment as it was
-- printed, behind a `#`. This is for keywords, arguments and names that are words, no global or
-- parameter called `Host`, comments that are trimmed lines, and lines that fit the scanner's buffer.
pub parse-write_to :
    (cfg : SshConfig)
    → IsPrintable cfg
    → cfg.hosts ≢ []
    → parse (write_to cfg) ≡ record {
      source = write_to cfg;
      globals = map norm_param cfg.globals;
      hosts = map norm_host cfg.hosts;
    }
unfolding parse
parse-write_to cfg v ne =
    ap (finish (write_to cfg)) (run-write_to cfg v)
    ∙ finish-hosts (write_to cfg) cfg.globals cfg.hosts ne v.globals_ok v.hosts_ok

-- With no host, what `writeTo` writes is read back with one more global behind those that were
-- written, which has no keyword.
pub parse-write_to_no_hosts :
    (cfg : SshConfig)
    → IsPrintable cfg
    → cfg.hosts ≡ []
    → parse (write_to cfg) ≡ record {
      source = write_to cfg;
      globals = map norm_param cfg.globals ++ (empty_param ∷ []);
      hosts = [];
    }
unfolding parse
parse-write_to_no_hosts cfg v e =
    ap (finish (write_to cfg)) (run-write_to cfg v)
    ∙ finish_no_hosts (write_to cfg) cfg.globals cfg.hosts e v.globals_ok
