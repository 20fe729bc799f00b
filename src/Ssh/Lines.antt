-- ===== src/Ssh/Lines.antt =====
-- The lines that `writeTo` of pkg/ssh/config/ssh_config.go writes, and what `parse` does at each.
use mathlib.Core.List.{append_assoc}
use envd.Base.{List, [], ◌∷◌, ◌++◌, map, ◌≡◌, refl, sym, ◌∙◌, inl, inr}
use envd.Base.Lists.{List-cases}
use mathlib.Core.Path.{ap₂}
use envd.Base.Text.{Text}
use envd.Base.Strings.Space.{join}
use envd.Base.Strings.Lines.{unlines, unlines-append}
use envd.Ssh.{
  Param, Host, SshConfig, host_keyword, comment_text, print_comments, comments_block, param_string,
  print_params, host_string, print_hosts, gap, write_to,
}

-- The blanks in front of a parameter's line.
pub data Indent : Type 0 where
  none_ two : Indent

abbrev pub blanks : Indent → Text
blanks none_ = []
blanks two = b' ' ∷ b' ' ∷ []

-- A keyword, and what stands behind it.
abbrev pub words_text : Text → List Text → Text
words_text keyword args = keyword ++ (b' ' ∷ join (b' ' ∷ []) args)

abbrev pub param_lines : Indent → Param → List Text
param_lines i p = elim p.comments [
  | [] ↦ (blanks i ++ words_text p.keyword p.args) ∷ []
  | c ∷ cs ↦ blanks i ∷ (map comment_text (c ∷ cs) ++ (words_text p.keyword p.args ∷ []))
]

abbrev pub params_lines : Indent → List Param → List Text
params_lines i [] = []
params_lines i (p ∷ ps) = param_lines i p ++ params_lines i ps

abbrev pub host_lines : Host → List Text
host_lines h =
    map comment_text h.comments ++ (words_text host_keyword h.hostnames ∷ params_lines two h.params)

abbrev pub hosts_lines : List Host → List Text
hosts_lines [] = []
hosts_lines (h ∷ hs) = host_lines h ++ hosts_lines hs

abbrev pub gap_lines : List Param → List Text
gap_lines [] = []
gap_lines (_ ∷ _) = [] ∷ []

abbrev pub config_lines : SshConfig → List Text
config_lines cfg =
    params_lines none_ cfg.globals ++ (gap_lines cfg.globals ++ hosts_lines cfg.hosts)

unlines-cons : (l : Text) (ls : List Text) → unlines (l ∷ ls) ≡ l ++ (b'\n' ∷ unlines ls)
unfolding unlines
unlines-cons l ls = refl

print_comments-unlines : (cs : List Text) → print_comments cs ≡ unlines (map comment_text cs)
unfolding unlines print_comments
print_comments-unlines [] = refl
print_comments-unlines (c ∷ cs) = rw (print_comments-unlines cs)

param_string-unlines :
    (i : Indent) (p : Param) → blanks i ++ param_string p ≡ unlines (param_lines i p)
unfolding param_string comments_block
param_string-unlines i p = elim (List-cases p.comments) [
  | inl e ↦ rw (e, param_lines) (unfold unlines in simp append_assoc)
  | inr (c, cs, e) ↦
      rw (e, param_lines)
        (simp (print_comments-unlines, unlines-cons, unlines-append, append_assoc)
          (unfold unlines in refl))
]

print_params-unlines :
    (i : Indent) (ps : List Param) → print_params (blanks i) ps ≡ unlines (params_lines i ps)
unfolding print_params
print_params-unlines i [] = unfold unlines in refl
print_params-unlines i (p ∷ ps) =
    sym (append_assoc (blanks i) (param_string p) (print_params (blanks i) ps))
    ∙ ap₂ ◌++◌ (param_string-unlines i p) (print_params-unlines i ps)
    ∙ sym (unlines-append (param_lines i p) (params_lines i ps))

host_string-unlines : (h : Host) → host_string h ≡ unlines (host_lines h)
unfolding host_string
host_string-unlines h =
    simp
      (unlines-append, unlines-cons, print_comments-unlines, print_params-unlines two, append_assoc)

print_hosts-unlines : (hs : List Host) → print_hosts hs ≡ unlines (hosts_lines hs)
unfolding print_hosts
print_hosts-unlines [] = unfold unlines in refl
print_hosts-unlines (h ∷ hs) =
    ap₂ ◌++◌ (host_string-unlines h) (print_hosts-unlines hs)
    ∙ sym (unlines-append (host_lines h) (hosts_lines hs))

gap-unlines : (ps : List Param) → gap ps ≡ unlines (gap_lines ps)
unfolding unlines
gap-unlines [] = refl
gap-unlines (p ∷ ps) = refl

pub write_to-unlines : (cfg : SshConfig) → write_to cfg ≡ unlines (config_lines cfg)
unfolding write_to
write_to-unlines cfg =
    simp (print_params-unlines none_, gap-unlines, print_hosts-unlines, unlines-append)
