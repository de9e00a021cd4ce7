-- ===== src/Macros/Resolve.antt =====
-- What the names after `method =` and `access =` stand for.
use wdk_safe.Base.{◌≡◌, ◌⊎◌, inl, inr, refl, none, some, same_name, same_name_eq, Bool-cases}
use wdk_safe.Base.Hex.{codes}
use wdk_safe.Ioctl.{
  TransferMethod, buffered, in_direct, out_direct, neither, RequiredAccess, any, read, write,
  read_write,
}
use wdk_safe.Ioctl.Format.{method_name, access_name}
use wdk_safe.Macros.{Name, ok, err, resolve_method, resolve_access, unknown_method, unknown_access}

-- The Debug names of the methods, read back.
pub method_name-resolve : (t : TransferMethod) → resolve_method (some (method_name t)) ≡ ok t
unfolding resolve_method method_name
method_name-resolve buffered = refl
method_name-resolve in_direct = refl
method_name-resolve out_direct = refl
method_name-resolve neither = refl

pub access_name-resolve : (t : RequiredAccess) → resolve_access (some (access_name t)) ≡ ok t
unfolding resolve_access access_name
access_name-resolve any = refl
access_name-resolve read = refl
access_name-resolve write = refl
access_name-resolve read_write = refl

resolve_method-name :
    (n : Name)
    → (resolve_method (some n) ≡ err (unknown_method n))
      ⊎ ((t : TransferMethod) × (n ≡ method_name t))
unfolding resolve_method method_name
resolve_method-name n = elim (Bool-cases (same_name n (codes "Buffered"))) [
  | inl e ↦ inr (buffered, same_name_eq n (codes "Buffered") e)
  | inr e1 ↦ elim (Bool-cases (same_name n (codes "InDirect"))) [
    | inl e ↦ inr (in_direct, same_name_eq n (codes "InDirect") e)
    | inr e2 ↦ elim (Bool-cases (same_name n (codes "OutDirect"))) [
      | inl e ↦ inr (out_direct, same_name_eq n (codes "OutDirect") e)
      | inr e3 ↦ elim (Bool-cases (same_name n (codes "Neither"))) [
        | inl e ↦ inr (neither, same_name_eq n (codes "Neither") e)
        | inr e4 ↦ inl (rw (e1, e2, e3, e4) refl)
      ]
    ]
  ]
]

resolve_access-name :
    (n : Name)
    → (resolve_access (some n) ≡ err (unknown_access n))
      ⊎ ((t : RequiredAccess) × (n ≡ access_name t))
unfolding resolve_access access_name
resolve_access-name n = elim (Bool-cases (same_name n (codes "Any"))) [
  | inl e ↦ inr (any, same_name_eq n (codes "Any") e)
  | inr e1 ↦ elim (Bool-cases (same_name n (codes "Read"))) [
    | inl e ↦ inr (read, same_name_eq n (codes "Read") e)
    | inr e2 ↦ elim (Bool-cases (same_name n (codes "Write"))) [
      | inl e ↦ inr (write, same_name_eq n (codes "Write") e)
      | inr e3 ↦ elim (Bool-cases (same_name n (codes "ReadWrite"))) [
        | inl e ↦ inr (read_write, same_name_eq n (codes "ReadWrite") e)
        | inr e4 ↦ inl (rw (e1, e2, e3, e4) refl)
      ]
    ]
  ]
]

-- A name is taken as a transfer method exactly when it is the Debug name of that method, and as an
-- access exactly when it is the Debug name of that access; with no name the method is Buffered and
-- the access is Any; any other name is refused by an error that shows it.
pub resolve-name :
    (n : Name)
    → ((resolve_method (some n) ≡ err (unknown_method n))
        ⊎ ((t : TransferMethod) × (n ≡ method_name t)))
      × ((resolve_access (some n) ≡ err (unknown_access n))
          ⊎ ((t : RequiredAccess) × (n ≡ access_name t)))
      × ((t : TransferMethod) → resolve_method (some (method_name t)) ≡ ok t)
      × ((t : RequiredAccess) → resolve_access (some (access_name t)) ≡ ok t)
      × (resolve_method none ≡ ok buffered)
      × (resolve_access none ≡ ok any)
unfolding resolve_method resolve_access
resolve-name n = (
  resolve_method-name n,
  resolve_access-name n,
  method_name-resolve,
  access_name-resolve,
  refl,
  refl,
)
