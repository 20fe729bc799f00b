-- ===== src/Home/Auth/Laws.antt =====
-- What the methods of pkg/home/auth.go do to the credentials.
use envd.Base.{
  String, Bool, true, false, ◌||◌, none, some, List, [], ◌∷◌, ◌++◌, ◌≡◌, refl, arith, ap, ◌∙◌,
  str_eq, str_eq_refl, if◌then◌else◌, inl, inr, Bool-cases,
}
use envd.Home.File.{DumpIo, written, create_fails, encode_fails}
use envd.Home.State.{AuthConfig, EnvdAuth, Manager}
use envd.Home.Auth.{
  has_auth, find_auth, auth_get_current, dump_auth, auth_use, add_auth, auth_create,
}

pub auth-dump_auth : (io : DumpIo) (m : Manager) → (dump_auth io m).0.auth ≡ m.auth
unfolding dump_auth
auth-dump_auth written m = refl
auth-dump_auth create_fails m = refl
auth-dump_auth encode_fails m = refl

has_auth-append :
    (n : String) (as' : List AuthConfig) (a : AuthConfig)
    → has_auth n (as' ++ (a ∷ [])) ≡ (has_auth n as' || str_eq a.name n)
unfolding has_auth
has_auth-append n [] a = ground arith
has_auth-append n (b ∷ as') a = ground (arith, has_auth-append n as' a)

find_auth-append :
    (n : String) (as' : List AuthConfig) (a : AuthConfig)
    → find_auth n (as' ++ (a ∷ []))
      ≡ (if has_auth n as' then find_auth n as' else if str_eq a.name n then some a else none)
unfolding has_auth find_auth
find_auth-append n [] a = ground arith
find_auth-append n (b ∷ as') a = ground (arith, find_auth-append n as' a)

-- The name that was created is in the list.
has_auth-add_auth : (ac : AuthConfig) (a : EnvdAuth) → has_auth ac.name (add_auth ac a).auth ≡ true
has_auth-add_auth ac a = ground (arith, has_auth-append ac.name a.auth ac, str_eq_refl ac.name)

auth-auth_use :
    (name : String) (io : DumpIo) (m : Manager)
    → (auth_use name io m).0.auth
      ≡ (if has_auth name m.auth.auth then record m.auth { current = name } else m.auth)
unfolding auth_use
auth-auth_use name io m = elim (Bool-cases (has_auth name m.auth.auth)) [
  | inl e ↦ rw e (auth-dump_auth io (record m { auth = record m.auth { current = name } }))
  | inr e ↦ rw e
]

-- The list that `AuthCreate` leaves is the one with the credential added, whether or not it is
-- used and whether or not the dump succeeds.
auth-auth_create :
    (ac : AuthConfig) (use_it : Bool) (io : DumpIo) (m : Manager)
    → (auth_create ac use_it io m).0.auth.auth ≡ (add_auth ac m.auth).auth
unfolding auth_create
auth-auth_create ac true io m = ground (
  arith,
  auth-auth_use ac.name io (record m { auth = add_auth ac m.auth }),
  has_auth-add_auth ac m.auth,
)
auth-auth_create ac false io m =
    ap (λ (e : EnvdAuth). e.auth) (auth-dump_auth io (record m { auth = add_auth ac m.auth }))

-- `AuthCreate` of a name that is there changes no credential, whatever token it is given, whether
-- or not the name is to be used, and whatever the system answers to the dump.
pub auth_create-keeps :
    (ac : AuthConfig) (use_it : Bool) (io : DumpIo) (m : Manager)
    → has_auth ac.name m.auth.auth ≡ true
    → (auth_create ac use_it io m).0.auth.auth ≡ m.auth.auth
auth_create-keeps ac use_it io m h = auth-auth_create ac use_it io m ∙ rw h

-- `AuthCreate` with `use` makes the name current: `AuthGetCurrent` then returns the new credential
-- if the name was not there, and the old one of that name if it was.
pub auth_get_current-auth_create :
    (ac : AuthConfig) (io : DumpIo) (m : Manager)
    → auth_get_current (auth_create ac true io m).0
      ≡ (if has_auth ac.name m.auth.auth then find_auth ac.name m.auth.auth else some ac)
unfolding auth_create
auth_get_current-auth_create ac io m = rw auth-auth_use (
    rw has_auth-add_auth
      (ground (arith, find_auth-append ac.name m.auth.auth ac, str_eq_refl ac.name)))

-- Repeating `AuthCreate` with any other token leaves the credentials as the first call left them.
pub auth_create_idem :
    (ac : AuthConfig) (token : String) (use_it again : Bool) (io io' : DumpIo) (m : Manager)
    → (auth_create
        (record ac { jwt_token = token })
        again
        io'
        (auth_create ac use_it io m).0).0.auth.auth
      ≡ (auth_create ac use_it io m).0.auth.auth
auth_create_idem ac token use_it again io io' m =
    auth_create-keeps (record ac { jwt_token = token }) again io' (auth_create ac use_it io m).0
      (rw auth-auth_create (has_auth-add_auth ac m.auth))
