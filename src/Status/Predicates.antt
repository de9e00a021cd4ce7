-- ===== src/Status/Predicates.antt =====
-- The predicates of `NtStatus` against its severity field.
use wdk_safe.Base.{◌≡◌, Bool, true, false, ℤ, pos, negsuc, arith}
use wdk_safe.Status.{
  NtStatus, IsStatus, from_raw, Severity, success, informational, warning, error, is_success,
  is_informational, is_warning, is_error, severity,
}

-- What the predicates say of each severity: is_success, is_informational, is_warning, is_error.
abbrev pub answers : Severity → Bool × Bool × Bool × Bool
answers success = (true, false, false, false)
answers informational = (true, true, false, false)
answers warning = (false, false, true, false)
answers error = (false, false, false, true)

-- For every `i32`, each predicate says what the severity field says, success being answered for the
-- informational codes too.
pub predicates-severity :
    (s : NtStatus)
    → IsStatus s
    → (is_success s, is_informational s, is_warning s, is_error s) ≡ answers (severity s)
unfolding is_success is_informational is_warning is_error severity
predicates-severity s h = split s.value h
  where
    split :
        (z : ℤ)
        → IsStatus (from_raw z)
        → (
          is_success (from_raw z),
          is_informational (from_raw z),
          is_warning (from_raw z),
          is_error (from_raw z),
        )
          ≡ answers (severity (from_raw z))
    split (pos n) p = ground arith
    split (negsuc n) p = ground arith
