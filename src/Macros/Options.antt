-- ===== src/Macros/Options.antt =====
-- Which lists of settings are taken.
use wdk_safe.Base.{
  ℕ, suc, ◌≡◌, ◌⊎◌, inl, inr, refl, Bool, true, false, ◌&&◌, Option, none, some, List, [], ◌∷◌, leb,
  if◌then◌else◌, same_name, same_name_eq, Bool-cases, arith,
}
use wdk_safe.Macros.{
  Error, Name, Token, ident, comma, equals, ok, err, Settings, no_settings, method_key, access_key,
  assign, set_method, set_access, parse_settings, unknown_key, method_twice, access_twice,
}

-- A list of settings as it is written, perhaps with a comma at the end.
pub record Setting : Type 0 where
  pub key : Name
  pub val : Name

abbrev pub render : Bool → List Setting → List Token
render true [] = comma ∷ []
render false [] = []
render trailing (s ∷ ss) = comma ∷ ident s.key ∷ equals ∷ ident s.val ∷ render trailing ss

-- How often a key is set, and the values of the first setting of it.
abbrev pub count : Name → List Setting → ℕ
count k [] = 0
count k (s ∷ ss) = let rest = count k ss in if same_name s.key k then suc rest else rest

abbrev pub first : Name → List Setting → Option Name
first k [] = none
first k (s ∷ ss) = if same_name s.key k then some s.val else first k ss

-- Is each of the keys one of the two?
abbrev pub all_known : List Setting → Bool
all_known [] = true
all_known (s ∷ ss) =
    (if same_name s.key method_key then true else same_name s.key access_key) && all_known ss

-- Can a key be set n times more?
abbrev pub has_room : Option Name → ℕ → Bool
has_room none n = leb n 1
has_room (some v) n = leb n 0

abbrev pub or_else : Option Name → Option Name → Option Name
or_else none o = o
or_else (some n) o = some n

-- The settings can be added to those that were read.
abbrev pub acceptable : List Setting → Settings → Bool
acceptable ss s =
    all_known ss
    && (has_room s.method (count method_key ss) && has_room s.access (count access_key ss))

abbrev pub added : List Setting → Settings → Settings
added ss s = record {
  method = or_else s.method (first method_key ss);
  access = or_else s.access (first access_key ss);
}

-- The run of the parser is the one that is called for.
abbrev pub Reads : Bool → List Setting → Settings → Type 0
Reads trailing ss s =
    ((acceptable ss s ≡ true) × (parse_settings (render trailing ss) s ≡ ok (added ss s, [])))
    ⊎ ((acceptable ss s ≡ false) × ((e : Error) × (parse_settings (render trailing ss) s ≡ err e)))

keys_differ : (n : Name) → same_name n method_key ≡ true → same_name n access_key ≡ false
keys_differ n e = rw (same_name_eq n method_key e) refl

nil_acceptable : (m a : Option Name) → acceptable [] (record { method = m; access = a }) ≡ true
nil_acceptable none none = refl
nil_acceptable none (some a) = refl
nil_acceptable (some m) none = refl
nil_acceptable (some m) (some a) = refl

or_else-none : (o : Option Name) → or_else o none ≡ o
or_else-none none = refl
or_else-none (some n) = refl

nil-Reads :
    (trailing : Bool) (m a : Option Name) → Reads trailing [] (record { method = m; access = a })
unfolding parse_settings
nil-Reads true m a = inl (nil_acceptable m a, rw (or_else-none m, or_else-none a) refl)
nil-Reads false m a = inl (nil_acceptable m a, rw (or_else-none m, or_else-none a) refl)

pub parse_cons :
    (trailing : Bool) (x : Setting) (ss : List Setting) (s : Settings)
    → parse_settings (render trailing (x ∷ ss)) s ≡ elim (assign x.key x.val s) [
      | ok s' ↦ parse_settings (render trailing ss) s'
      | err e ↦ err e
    ]
unfolding parse_settings
parse_cons true x ss s = refl
parse_cons false x ss s = refl

assign-method :
    (key val : Name) (s : Settings)
    → same_name key method_key ≡ true
    → assign key val s ≡ set_method val s
unfolding assign
assign-method key val s e = rw e refl

assign-access :
    (key val : Name) (s : Settings)
    → same_name key method_key ≡ false
    → same_name key access_key ≡ true
    → assign key val s ≡ set_access val s
unfolding assign
assign-access key val s e f = rw (e, f) refl

assign-unknown :
    (key val : Name) (s : Settings)
    → same_name key method_key ≡ false
    → same_name key access_key ≡ false
    → assign key val s ≡ err (unknown_key key)
unfolding assign
assign-unknown key val s e f = rw (e, f) refl

one_more : (c : ℕ) → leb (suc c) 1 ≡ leb c 0
one_more c = ground arith

no_more : (c : ℕ) → leb (suc c) 0 ≡ false
no_more c = ground arith

and_false : (a : Bool) → (a && false) ≡ false
and_false true = refl
and_false false = refl

-- The first of the settings is of the method, and of the access; the others are read as they
-- should be, whatever was read before them.
method-Reads :
    (trailing : Bool) (x : Setting) (ss : List Setting) (m a : Option Name)
    → same_name x.key method_key ≡ true
    → ((m' a' : Option Name) → Reads trailing ss (record { method = m'; access = a' }))
    → Reads trailing (x ∷ ss) (record { method = m; access = a })
method-Reads trailing x ss none a e ih =
    let s : Settings = record { method = none; access = a } in
    rw
      (
        e,
        keys_differ x.key e,
        one_more (count method_key ss),
        parse_cons trailing x ss s,
        assign-method x.key x.val s e,
      )
      (ih (some x.val) a)
method-Reads trailing x ss (some m) a e ih =
    let s : Settings = record { method = some m; access = a } in
    inr (
      rw (e, no_more (count method_key ss), and_false (all_known ss)) refl,
      (method_twice, rw (parse_cons trailing x ss s, assign-method x.key x.val s e) refl),
    )

access-Reads :
    (trailing : Bool) (x : Setting) (ss : List Setting) (m a : Option Name)
    → same_name x.key method_key ≡ false
    → same_name x.key access_key ≡ true
    → ((m' a' : Option Name) → Reads trailing ss (record { method = m'; access = a' }))
    → Reads trailing (x ∷ ss) (record { method = m; access = a })
access-Reads trailing x ss m none e f ih =
    let s : Settings = record { method = m; access = none } in
    rw
      (
        e,
        f,
        one_more (count access_key ss),
        parse_cons trailing x ss s,
        assign-access x.key x.val s e f,
      )
      (ih m (some x.val))
access-Reads trailing x ss m (some a) e f ih =
    let s : Settings = record { method = m; access = some a } in
    inr (
      rw
          (
            e,
            f,
            no_more (count access_key ss),
            and_false (has_room m (count method_key ss)),
            and_false (all_known ss),
          )
          refl,
      (access_twice, rw (parse_cons trailing x ss s, assign-access x.key x.val s e f) refl),
    )

settings-Reads :
    (trailing : Bool) (ss : List Setting) (m a : Option Name)
    → Reads trailing ss (record { method = m; access = a })
settings-Reads trailing [] m a = nil-Reads trailing m a
settings-Reads trailing (x ∷ ss) m a =
    let s : Settings = record { method = m; access = a } in
    elim (Bool-cases (same_name x.key method_key)) [
      | inl e ↦ method-Reads trailing x ss m a e (settings-Reads trailing ss)
      | inr e ↦ elim (Bool-cases (same_name x.key access_key)) [
        | inl f ↦ access-Reads trailing x ss m a e f (settings-Reads trailing ss)
        | inr f ↦ inr (
          rw (e, f) refl,
          (
            unknown_key x.key,
            rw (parse_cons trailing x ss s, assign-unknown x.key x.val s e f) refl,
          ),
        )
      ]
    ]

-- The parser takes a list of settings, with or without a comma at its end, exactly when each key is
-- `method` or `access` and neither is set twice; it then gives the values that were set, and
-- otherwise an error.
pub parse_settings-render :
    (trailing : Bool) (ss : List Setting)
    → ((acceptable ss no_settings ≡ true)
        × (parse_settings (render trailing ss) no_settings
            ≡ ok (record { method = first method_key ss; access = first access_key ss }, [])))
      ⊎ ((acceptable ss no_settings ≡ false)
          × ((e : Error) × (parse_settings (render trailing ss) no_settings ≡ err e)))
parse_settings-render trailing ss = settings-Reads trailing ss none none
