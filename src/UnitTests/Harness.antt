-- ===== src/UnitTests/Harness.antt =====
-- What the unit tests use of the language: assertions, loops over an array, and comparisons. A test
-- passes if it returns, in every world and so in both builds.
use wdk_safe.Base.{ℕ, ◌≡◌, eq_ℤ, Bool, true, false, ◌&&◌, ◌||◌, List, [], ◌∷◌, ◌==◌}
use wdk_safe.Machine.{World, Outcome, ok, panic, fault, Cmd, pure, ◌>>◌}
use wdk_safe.Status.{NtStatus, Severity, success, informational, warning, error}
use wdk_safe.Ioctl.{TransferMethod, RequiredAccess, method_bits, access_bits}

-- `assert!`, which a release build keeps.
abbrev pub assert : Bool → Cmd (Unit {0})
assert true w = ok tt w
assert false w = panic

-- `for a in [..]`
abbrev pub each {ℓ} : {A : Type ℓ} → List A → (A → Cmd (Unit {0})) → Cmd (Unit {0})
each [] body = pure tt
each (a ∷ as') body = do body a; each as' body

abbrev is_prefix : List ℕ → List ℕ → Bool
is_prefix s [] = true
is_prefix [] (p ∷ ps) = false
is_prefix (c ∷ cs) (p ∷ ps) = elim (c == p) [ true ↦ is_prefix cs ps | false ↦ false ]

-- `str::contains`
abbrev pub contains : List ℕ → List ℕ → Bool
contains [] t = is_prefix [] t
contains (c ∷ cs) t = is_prefix (c ∷ cs) t || contains cs t

-- The derived `PartialEq`s.
abbrev pub same_status : NtStatus → NtStatus → Bool
same_status a b = eq_ℤ a.value b.value

abbrev rank : Severity → ℕ
rank success = 0
rank informational = 1
rank warning = 2
rank error = 3

abbrev pub same_severity : Severity → Severity → Bool
same_severity a b = rank a == rank b

abbrev pub same_method : TransferMethod → TransferMethod → Bool
same_method a b = method_bits a == method_bits b

abbrev pub same_access : RequiredAccess → RequiredAccess → Bool
same_access a b = access_bits a == access_bits b

abbrev returns : Outcome (Unit {0}) → Bool
returns (ok a w) = true
returns panic = false
returns fault = false

abbrev all_return : List (Cmd (Unit {0})) → World → Bool
all_return [] w = true
all_return (t ∷ ts) w = returns (t w) && all_return ts w

-- Every test of the list returns, whatever the world, in a debug build and in a release build.
abbrev pub AllPass : List (Cmd (Unit {0})) → Type 0
AllPass ts =
    (w : World)
    → (all_return ts (record w { debug_assertions = true }) ≡ true)
      × (all_return ts (record w { debug_assertions = false }) ≡ true)
