-- ===== src/Graph/Owner.antt =====
-- `getUIDGID` of pkg/lang/ir/v1/util.go: who owns the files of the image.
use envd.Base.{
  String, suc, Bool, true, false, ◌||◌, ◌&&◌, Option, none, some, List, [], ◌∷◌, ◌++◌, ◌≡◌, ◌≢◌,
  refl, ap, ◌∙◌, arith, if◌then◌else◌, All, inl, inr, Bool-cases,
}
use envd.Base.Text.{Text}
use envd.Base.Int.{int_eq, int_eq_iff}
use envd.Base.Strings.Space.{IsWord}
use envd.Base.Strings.Decimal.{
  ℤ, pos, negsuc, itoa, atoi, atoi-itoa, FitsInt64, is_digit, digits_of-digits, itoa-IsWord,
}
use envd.Plugin.RoundTrip.{Lacks}
use envd.Options.{split}
use envd.Options.From.{split-Lacks, split-append}
use envd.Graph.{Graph}
use envd.Graph.Rules
use envd.Graph.Program.{Rule, apply, run_program}
use envd.Graph.Program.Owned.{ids, IsOther, run_program-ids}

-- `user.Current()`, with its two texts, and whether the system is macOS.
pub record System : Type 0 where
  pub user : Option (Text × Text)
  pub darwin : Bool

abbrev pub pair : Option ℤ → Option ℤ → Option (ℤ × ℤ)
pair (some u) (some g) = some (u, g)
pair _ _ = none

-- The flag's parts between colons. A missing group is the user's number.
abbrev pub from_flag : List Text → Option (ℤ × ℤ)
from_flag (u ∷ []) = pair (atoi u) (atoi u)
from_flag (u ∷ g ∷ []) = pair (atoi u) (atoi g)
from_flag _ = none

-- The group 20 of macOS is taken in the image.
abbrev pub not_staff : Bool → Option (ℤ × ℤ) → Option (ℤ × ℤ)
not_staff darwin none = none
not_staff darwin (some (u, g)) = some (u, if darwin && int_eq g (pos 20) then u else g)

abbrev pub from_user : System → Option (ℤ × ℤ)
from_user s = elim s.user [
  | none ↦ none
  | some (u, g) ↦ not_staff s.darwin (pair (atoi u) (atoi g))
]

abbrev pub from_graph : System → Graph → Option (ℤ × ℤ)
from_graph s g =
    if int_eq g.uid (negsuc 0) || int_eq g.gid (negsuc 0) then from_user s else some (g.uid, g.gid)

-- `none` is an error. The first argument is the flag's value.
unfoldable pub get_uid_gid : Text → System → Graph → Option (ℤ × ℤ)
get_uid_gid [] s g = from_graph s g
get_uid_gid (c ∷ owner) s g = from_flag (split b':' (c ∷ owner))

digit-no_colon : (t : Text) → All (λ c. is_digit c ≡ true) t → Lacks b':' t
digit-no_colon [] h = tt
digit-no_colon (c ∷ t) h = (ground (arith, h.0), digit-no_colon t h.1)

itoa-no_colon : (z : ℤ) → Lacks b':' (itoa z)
unfolding itoa
itoa-no_colon (pos n) = digit-no_colon _ (digits_of-digits (suc n) n)
itoa-no_colon (negsuc n) = (refl, digit-no_colon _ (digits_of-digits (suc (suc n)) (suc n)))

get_uid_gid-nonempty :
    (t rest : Text) (s : System) (g : Graph)
    → IsWord t
    → get_uid_gid (t ++ rest) s g ≡ from_flag (split b':' (t ++ rest))
unfolding get_uid_gid
get_uid_gid-nonempty [] rest s g h = absurd h
get_uid_gid-nonempty (c ∷ t) rest s g h = refl

get_uid_gid-word :
    (t : Text) (s : System) (g : Graph) → IsWord t → get_uid_gid t s g ≡ from_flag (split b':' t)
unfolding get_uid_gid
get_uid_gid-word [] s g h = absurd h
get_uid_gid-word (c ∷ t) s g h = refl

not_unset : (z : ℤ) → z ≢ negsuc 0 → int_eq z (negsuc 0) ≡ false
not_unset z h = elim (Bool-cases (int_eq z (negsuc 0))) [
  | inl e ↦ absurd (h ((int_eq_iff z (negsuc 0)).0 e))
  | inr e ↦ e
]

from_graph-ids :
    (uid gid : ℤ) (s : System) (g : Graph)
    → uid ≢ negsuc 0
    → gid ≢ negsuc 0
    → ids g ≡ (uid, gid)
    → get_uid_gid [] s g ≡ some (uid, gid)
unfolding get_uid_gid
from_graph-ids uid gid s g nu ng e =
    let eu : g.uid ≡ uid = ap (λ (p : ℤ × ℤ). p.0) e in
    let eg : g.gid ≡ gid = ap (λ (p : ℤ × ℤ). p.1) e in
    ap
      (λ (p : ℤ × ℤ).
        if int_eq p.0 (negsuc 0) || int_eq p.1 (negsuc 0) then from_user s else some p)
      e
    ∙ rw (not_unset uid nu, not_unset gid ng)

ids-owner : (uid gid : ℤ) (g : Graph) → ids (Rules.owner uid gid g).0 ≡ (uid, gid)
unfolding Rules.owner
ids-owner uid gid g = refl

module _ (parse_digest : String → Option String) where
  -- The rules from the last owner on.
  run_program-owner :
      (uid gid : ℤ) (rs : List Rule) (g : Graph)
      → All IsOther rs
      → ids (run_program parse_digest (Rule.owner uid gid ∷ rs) g).0 ≡ (uid, gid)
  unfolding run_program apply Rules.owner
  run_program-owner uid gid rs g h =
      run_program-ids parse_digest rs (Rules.owner uid gid g).0 h ∙ ids-owner uid gid g

  -- The flag comes first: the value `uid:gid` gives these numbers and `uid` alone gives it for both,
  -- whatever the graph and the system say. Without the flag the last owner that the rules of a build
  -- file set is taken, whatever the graph before it, the rules behind it, which may end in an error,
  -- and the system, if neither number is -1. The flag's numbers are 64-bit integers as they are
  -- printed.
  pub get_uid_gid-precedence :
      (uid gid uid' gid' : ℤ) (s : System) (rest : List Rule) (g : Graph)
      → FitsInt64 uid
      → FitsInt64 gid
      → uid' ≢ negsuc 0
      → gid' ≢ negsuc 0
      → All IsOther rest
      → (get_uid_gid (itoa uid ++ (b':' ∷ itoa gid)) s g ≡ some (uid, gid))
        × (get_uid_gid (itoa uid) s g ≡ some (uid, uid))
        × (get_uid_gid [] s (run_program parse_digest (Rule.owner uid' gid' ∷ rest) g).0
            ≡ some (uid', gid'))
  get_uid_gid-precedence uid gid uid' gid' s rest g fu fg nu ng others =
      let both =
        split-append b':' (itoa uid) (itoa gid) (itoa-no_colon uid)
        ∙ ap (λ t. itoa uid ∷ t) (split-Lacks b':' (itoa gid) (itoa-no_colon gid)) in
      (
        get_uid_gid-nonempty (itoa uid) (b':' ∷ itoa gid) s g (itoa-IsWord uid)
            ∙ ap from_flag both
            ∙ rw (atoi-itoa uid fu, atoi-itoa gid fg),
        get_uid_gid-word (itoa uid) s g (itoa-IsWord uid)
            ∙ ap from_flag (split-Lacks b':' (itoa uid) (itoa-no_colon uid))
            ∙ rw (atoi-itoa uid fu),
        from_graph-ids uid' gid' s (run_program parse_digest (Rule.owner uid' gid' ∷ rest) g).0 nu
            ng (run_program-owner uid' gid' rest g others),
      )
