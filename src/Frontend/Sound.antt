-- ===== src/Frontend/Sound.antt =====
-- What a call of the build language does to the graph: nothing, or one rule of
-- pkg/lang/ir/v1/interface.go whose arguments are checked.
pub mod Calls
pub mod Programs
use envd.Base.{true, ◌≡◌, ◌≢◌, refl}
use envd.Base.Strings.Decimal.{ℤ, pos, negsuc}
use envd.Graph.{Graph}
use envd.Graph.Program.{Rule, owner, runtime_expose, gpu, jupyter, conda_package, apply}
use envd.Frontend.{
  Host, Reply, raised, crashed, Step, Got, got, refused, broken, ◌>>=◌, ir, Within16, is_int64,
}
use envd.Frontend.Install.{excludes_names}

abbrev pub IsPort : ℤ → Type 0
IsPort z = Within16 z × (z ≢ pos 0)

module _ (h : Host) where
  -- What the frontend checks of the arguments of a rule.
  abbrev pub IsChecked : Rule → Type 0
  IsChecked (owner uid gid) = Within16 uid × Within16 gid
  IsChecked (runtime_expose envd_port host_port name address) =
      IsPort envd_port × Within16 host_port × (h.is_ip address ≡ true)
  IsChecked (gpu n) = is_int64 n ≡ true
  IsChecked (jupyter token port) = is_int64 port ≡ true
  IsChecked (conda_package names channels file) = excludes_names file names channels ≡ true
  IsChecked _ = Unit {0}

  pub data Does (f : Step) : Type 0 where
    refuses : (r : Reply) → ((g : Graph) → f g ≡ (g, r)) → Does f
    applies :
        (r : Rule) → IsChecked r → ((g : Graph) → f g ≡ ir (apply h.parse_digest r) g) → Does f

  pub Does-bind {ℓ} :
      {A : Type ℓ} (m : Got A) {k : A → Step} → ((a : A) → m ≡ got a → Does (k a)) → Does (m >>= k)
  unfolding ◌>>=◌
  Does-bind (got a) d = d a refl
  Does-bind (refused e) d = refuses (raised e) (λ g. refl)
  Does-bind broken d = refuses crashed (λ g. refl)

  pub Does-ir : (r : Rule) → IsChecked r → Does (ir (apply h.parse_digest r))
  Does-ir r c = applies r c (λ g. refl)
