-- ===== src/Ssh/Steps.antt =====
-- What `parse` of pkg/ssh/config/ssh_config.go does at each line that `writeTo` writes.
use mathlib.Core.List.{append-nil, append_assoc}
use envd.Base.{
  ℕ, Bool, true, false, Option, some, List, [], ◌∷◌, ◌++◌, map, ◌≡◌, refl, sym, ap, ◌∙◌, arith,
  ◌==◌, All, inl, inr, Bool-cases,
}
use envd.Base.Text.{Text, text_eq}
use envd.Base.Strings.Space.{
  is_space, trim_left, trim_right, trim_space, trim_space-cons, trim_space-indent, IsSolid, IsWord,
}
use envd.Base.Strings.Lines.{IsLine}
use envd.Base.Strings.Words.{scan_words, scan_words-trim_space, scan_words-join}
use envd.Ssh.{Param, Host, empty_param, host_keyword, comment_text}
use envd.Ssh.Parse.{State, keyword_line, words_line, trimmed_line, step, run, with_host}
use envd.Ssh.Lines.{
  Indent, none_, two, blanks, words_text, param_lines, params_lines, host_lines, hosts_lines,
}

-- A comment that is a line of its own when printed, with no space at its ends.
abbrev pub IsComment : Text → Type 0
IsComment c = (trim_space (comment_text c) ≡ comment_text c) × IsLine (comment_text c)

-- A word that does not begin a comment.
abbrev pub IsKeyword : Text → Type 0
IsKeyword [] = ⊥
IsKeyword (c ∷ cs) = (is_space c ≡ false) × IsSolid cs × ((c == b'#') ≡ false)

abbrev pub IsParam : Param → Type 0
IsParam p =
    All IsComment p.comments
    × IsKeyword p.keyword
    × (text_eq p.keyword host_keyword ≡ false)
    × All IsWord p.args

abbrev pub IsHost : Host → Type 0
IsHost h = All IsComment h.comments × All IsWord h.hostnames × All IsParam h.params

-- Comments as they are printed.
abbrev pub norm_param : Param → Param
norm_param p = record p { comments = map comment_text p.comments }

abbrev pub norm_host : Host → Host
norm_host h = record {
  comments = map comment_text h.comments;
  hostnames = h.hostnames;
  params = map norm_param h.params;
}

abbrev pub state : Bool → Param → Option Host → List Param → List Host → State
state g p h globals hosts = record { global = g; p = p; h = h; globals = globals; hosts = hosts }

pub run-cons : (s : State) (l : Text) (ls : List Text) → run s (l ∷ ls) ≡ run (step s l) ls
unfolding run
run-cons s l ls = refl

IsKeyword-IsWord : (w : Text) → IsKeyword w → IsWord w
IsKeyword-IsWord [] h = absurd h
IsKeyword-IsWord (c ∷ cs) h = (h.0, h.1)

trimmed_line-hash :
    (cs : Text) (g : Bool) (p : Param) (h : Option Host) (gl : List Param) (hs : List Host)
    → trimmed_line (b'#' ∷ cs) (state g p h gl hs)
      ≡ state g (record p { comments = p.comments ++ ((b'#' ∷ cs) ∷ []) }) h gl hs
unfolding trimmed_line
trimmed_line-hash cs g p h gl hs = refl

trimmed_line-words :
    (c : ℕ) (cs : Text) (s : State)
    → (c == b'#') ≡ false
    → trimmed_line (c ∷ cs) s ≡ words_line (scan_words (c ∷ cs)) s
unfolding trimmed_line
trimmed_line-words c cs s h = rw h

pub step-blanks : (i : Indent) (s : State) → step s (blanks i) ≡ s
unfolding step trimmed_line trim_space trim_right trim_left is_space
step-blanks none_ s = refl
step-blanks two s = refl

comment_text-hash : (c : Text) → (cs : Text) × (comment_text c ≡ b'#' ∷ cs)
unfolding comment_text
comment_text-hash [] = (b' ' ∷ [], refl)
comment_text-hash (x ∷ cs) = elim (Bool-cases (x == b'#')) [
  | inl e ↦ (cs, ground arith)
  | inr e ↦ (b' ' ∷ x ∷ cs, ground arith)
]

-- A comment is added to those that wait for the next keyword.
step-comment :
    (c : Text) (g : Bool) (p : Param) (h : Option Host) (gl : List Param) (hs : List Host)
    → IsComment c
    → step (state g p h gl hs) (comment_text c)
      ≡ state g (record p { comments = p.comments ++ (comment_text c ∷ []) }) h gl hs
unfolding step
step-comment c g p h gl hs k =
    let (cs, e) = comment_text-hash c in
    ap (λ t. trimmed_line t (state g p h gl hs)) k.0 ∙ rw e (trimmed_line-hash cs g p h gl hs)

-- The words of a line that begins with no space, trimmed or not, with the indent or without.
trimmed-words :
    (c : ℕ) (x : Text) (s : State)
    → is_space c ≡ false
    → (c == b'#') ≡ false
    → trimmed_line (c ∷ trim_right x) s ≡ words_line (scan_words (c ∷ x)) s
trimmed-words c x s h k =
    trimmed_line-words c (trim_right x) s k
    ∙ ap (λ t. words_line (scan_words t) s) (sym (trim_space-cons c x h))
    ∙ ap (λ ws. words_line ws s) (scan_words-trim_space (c ∷ x))

words_line-cons :
    (s : State) (keyword : Text) (args : List Text)
    → words_line (keyword ∷ args) s
      ≡ keyword_line (record s.p { keyword = keyword; args = s.p.args ++ args }) s
unfolding words_line
words_line-cons s keyword args = refl

-- A keyword with its arguments.
step-words :
    (i : Indent) (s : State) (keyword : Text) (args : List Text)
    → IsKeyword keyword
    → All IsWord args
    → step s (blanks i ++ words_text keyword args)
      ≡ keyword_line (record s.p { keyword = keyword; args = s.p.args ++ args }) s
unfolding step
step-words i s [] args k w = absurd k
step-words none_ s (c ∷ cs) args k w =
    ap (λ t. trimmed_line t s) (trim_space-cons c _ k.0)
    ∙ trimmed-words c _ s k.0 k.2
    ∙ ap (λ ws. words_line ws s) (scan_words-join (c ∷ cs) args (k.0, k.1) w)
    ∙ words_line-cons s (c ∷ cs) args
step-words two s (c ∷ cs) args k w =
    ap (λ t. trimmed_line t s) (trim_space-indent c _ k.0)
    ∙ trimmed-words c _ s k.0 k.2
    ∙ ap (λ ws. words_line ws s) (scan_words-join (c ∷ cs) args (k.0, k.1) w)
    ∙ words_line-cons s (c ∷ cs) args

run-comments :
    (cs : List Text) (rest : List Text) (g : Bool) (p : Param) (h : Option Host) (gl : List Param)
    (hs : List Host)
    → All IsComment cs
    → run (state g p h gl hs) (map comment_text cs ++ rest)
      ≡ run (state g (record p { comments = p.comments ++ map comment_text cs }) h gl hs) rest
run-comments [] rest g p h gl hs k = rw append-nil
run-comments (c ∷ cs) rest g p h gl hs k =
    run-cons _ _ _
    ∙ ap (λ s. run s (map comment_text cs ++ rest)) (step-comment c g p h gl hs k.0)
    ∙ run-comments cs rest g (record p { comments = p.comments ++ (comment_text c ∷ []) }) h gl hs
        k.1
    ∙ rw append_assoc

keyword_line-any :
    (q : Param) (g : Bool) (p p' : Param) (h : Option Host) (gl : List Param) (hs : List Host)
    → keyword_line q (state g p h gl hs) ≡ keyword_line q (state g p' h gl hs)
unfolding keyword_line
keyword_line-any q true p p' h gl hs = ground arith
keyword_line-any q false p p' h gl hs = ground arith

run-words :
    (i : Indent) (keyword : Text) (args comments rest : List Text) (g : Bool) (h : Option Host)
    (gl : List Param) (hs : List Host)
    → IsKeyword keyword
    → All IsWord args
    → run
        (state g (record { comments = comments; keyword = []; args = [] }) h gl hs)
        ((blanks i ++ words_text keyword args) ∷ rest)
      ≡ run
          (keyword_line
            (record { comments = comments; keyword = keyword; args = args })
            (state g empty_param h gl hs))
          rest
run-words i keyword args comments rest g h gl hs k w =
    run-cons _ _ _
    ∙ ap (λ s. run s rest)
        (step-words i _ keyword args k w ∙ keyword_line-any _ g _ empty_param h gl hs)

run-fields :
    (i : Indent) (comments : List Text) (keyword : Text) (args rest : List Text) (g : Bool)
    (h : Option Host) (gl : List Param) (hs : List Host)
    → All IsComment comments
    → IsKeyword keyword
    → All IsWord args
    → run
        (state g empty_param h gl hs)
        (param_lines i (record { comments = comments; keyword = keyword; args = args }) ++ rest)
      ≡ run
          (keyword_line
            (record { comments = map comment_text comments; keyword = keyword; args = args })
            (state g empty_param h gl hs))
          rest
run-fields i [] keyword args rest g h gl hs c k w = run-words i keyword args [] rest g h gl hs k w
run-fields i (x ∷ xs) keyword args rest g h gl hs c k w =
    run-cons _ _ _
    ∙ ap (λ s. run s ((map comment_text (x ∷ xs) ++ (words_text keyword args ∷ [])) ++ rest))
        (step-blanks i (state g empty_param h gl hs))
    ∙ ap (run (state g empty_param h gl hs))
        (append_assoc (map comment_text (x ∷ xs)) (words_text keyword args ∷ []) rest)
    ∙ run-comments (x ∷ xs) (words_text keyword args ∷ rest) g empty_param h gl hs c
    ∙ run-words none_ keyword args (map comment_text (x ∷ xs)) rest g h gl hs k w

-- The lines of one parameter.
run-param :
    (i : Indent) (p : Param) (rest : List Text) (g : Bool) (h : Option Host) (gl : List Param)
    (hs : List Host)
    → IsParam p
    → run (state g empty_param h gl hs) (param_lines i p ++ rest)
      ≡ run (keyword_line (norm_param p) (state g empty_param h gl hs)) rest
run-param i p rest g h gl hs k = run-fields i p.comments p.keyword p.args rest g h gl hs k.0 k.1 k.3

keyword_line-global :
    (p : Param) (h : Option Host) (gl : List Param) (hs : List Host)
    → text_eq p.keyword host_keyword ≡ false
    → keyword_line (norm_param p) (state true empty_param h gl hs)
      ≡ state true empty_param h (gl ++ (norm_param p ∷ [])) hs
unfolding keyword_line
keyword_line-global p h gl hs k = rw k

keyword_line-param :
    (p : Param) (h : Host) (gl : List Param) (hs : List Host)
    → text_eq p.keyword host_keyword ≡ false
    → keyword_line (norm_param p) (state false empty_param (some h) gl hs)
      ≡ state false empty_param (some (record h { params = h.params ++ (norm_param p ∷ []) })) gl hs
unfolding keyword_line
keyword_line-param p h gl hs k = rw k

keyword_line-host :
    (comments hostnames : List Text) (g : Bool) (h : Option Host) (gl : List Param) (hs : List Host)
    → keyword_line
        (record { comments = comments; keyword = host_keyword; args = hostnames })
        (state g empty_param h gl hs)
      ≡ state false empty_param
          (some (record { comments = comments; hostnames = hostnames; params = [] }))
          gl
          (with_host h hs)
unfolding keyword_line text_eq
keyword_line-host comments hostnames g h gl hs = refl

host-IsKeyword : IsKeyword host_keyword
unfolding is_space
host-IsKeyword = (refl, (refl, (refl, (refl, tt))), refl)

-- The parameters before the first host.
pub run-globals :
    (i : Indent) (ps : List Param) (rest : List Text) (h : Option Host) (gl : List Param)
    (hs : List Host)
    → All IsParam ps
    → run (state true empty_param h gl hs) (params_lines i ps ++ rest)
      ≡ run (state true empty_param h (gl ++ map norm_param ps) hs) rest
run-globals i [] rest h gl hs k = rw append-nil
run-globals i (p ∷ ps) rest h gl hs k =
    ap (run (state true empty_param h gl hs))
      (append_assoc (param_lines i p) (params_lines i ps) rest)
    ∙ run-param i p (params_lines i ps ++ rest) true h gl hs k.0
    ∙ ap (λ s. run s (params_lines i ps ++ rest)) (keyword_line-global p h gl hs k.0.2)
    ∙ run-globals i ps rest h (gl ++ (norm_param p ∷ [])) hs k.1
    ∙ rw append_assoc

-- The parameters of a host.
run-params :
    (i : Indent) (ps : List Param) (rest : List Text) (h : Host) (gl : List Param) (hs : List Host)
    → All IsParam ps
    → run (state false empty_param (some h) gl hs) (params_lines i ps ++ rest)
      ≡ run
          (state false empty_param
            (some (record h { params = h.params ++ map norm_param ps }))
            gl
            hs)
          rest
run-params i [] rest h gl hs k = rw append-nil
run-params i (p ∷ ps) rest h gl hs k =
    ap (run (state false empty_param (some h) gl hs))
      (append_assoc (param_lines i p) (params_lines i ps) rest)
    ∙ run-param i p (params_lines i ps ++ rest) false (some h) gl hs k.0
    ∙ ap (λ s. run s (params_lines i ps ++ rest)) (keyword_line-param p h gl hs k.0.2)
    ∙ run-params i ps rest (record h { params = h.params ++ (norm_param p ∷ []) }) gl hs k.1
    ∙ rw append_assoc

-- The lines of a host.
pub run-host :
    (x : Host) (rest : List Text) (g : Bool) (h : Option Host) (gl : List Param) (hs : List Host)
    → IsHost x
    → run (state g empty_param h gl hs) (host_lines x ++ rest)
      ≡ run (state false empty_param (some (norm_host x)) gl (with_host h hs)) rest
run-host x rest g h gl hs k =
    ap (run (state g empty_param h gl hs))
      (append_assoc (map comment_text x.comments) (words_text host_keyword x.hostnames ∷ _) rest)
    ∙ run-comments x.comments _ g empty_param h gl hs k.0
    ∙ run-words none_ host_keyword x.hostnames (map comment_text x.comments) _ g h gl hs
        host-IsKeyword k.1
    ∙ ap (λ s. run s (params_lines two x.params ++ rest))
        (keyword_line-host _ x.hostnames g h gl hs)
    ∙ run-params two x.params rest _ gl (with_host h hs) k.2

-- The hosts so far, with the one that is being read.
abbrev pub hosts_of : State → List Host
hosts_of s = with_host s.h s.hosts

-- All the hosts: what the loop ends with.
pub run-hosts :
    (xs : List Host) (h : Host) (gl : List Param) (hs : List Host)
    → All IsHost xs
    → let s = run (state false empty_param (some h) gl hs) (hosts_lines xs) in
      (s.global ≡ false) × (s.globals ≡ gl) × (hosts_of s ≡ hs ++ (h ∷ map norm_host xs))
run-hosts [] h gl hs k = unfold run in (refl, refl, refl)
run-hosts (x ∷ xs) h gl hs k = rw (run-host x (hosts_lines xs) false (some h) gl hs k.0) (
    let ih = run-hosts xs (norm_host x) gl (hs ++ (h ∷ [])) k.1 in
    (ih.0, ih.1, ih.2 ∙ append_assoc hs (h ∷ []) _))
