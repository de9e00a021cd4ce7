-- ===== src/Macros/Aliases.antt =====
-- The names of the aliases can be read back: `derive_alias_names` gives different names to
-- different constants in SCREAMING_SNAKE_CASE.
use mathlib.Core.List.{reverse, reverse-append, reverse-reverse}
use wdk_safe.Base.{
  zero, suc, sym, ◌∙◌, ℕ, ◌≤◌, ◌≡◌, ◌≢◌, ◌⊎◌, inl, inr, refl, ap, true, false, ◌&&◌, List, [], ◌∷◌,
  ◌++◌, leb, if◌then◌else◌, ==_false, arith,
}
use wdk_safe.Base.Hex.{codes}
use wdk_safe.Macros.{
  Name, underscore, split, to_uppercase, to_lowercase, lower, capitalise, concat,
  derive_alias_names,
}

abbrev pub IsUpper : ℕ → Type 0
IsUpper c = (0x41 ≤ c) × (c ≤ 0x5A)

abbrev pub IsDigit : ℕ → Type 0
IsDigit c = (0x30 ≤ c) × (c ≤ 0x39)

abbrev pub IsTail : Name → Type 0
IsTail [] = Unit
IsTail (c ∷ cs) = (IsUpper c ⊎ IsDigit c) × IsTail cs

-- A word begins with a capital letter, and goes on with capital letters and digits.
abbrev pub IsWord : Name → Type 0
IsWord [] = ⊥
IsWord (c ∷ cs) = IsUpper c × IsTail cs

abbrev pub AreWords : List Name → Type 0
AreWords [] = Unit
AreWords (w ∷ ws) = IsWord w × AreWords ws

-- The words with underscores between them.
abbrev pub join : List Name → Name
join [] = []
join (w ∷ []) = w
join (w ∷ v ∷ ws) = w ++ (underscore ∷ join (v ∷ ws))

-- An underscore before each capital letter, and capital letters throughout.
abbrev pub spread : Name → Name
spread [] = []
spread (c ∷ cs) =
    let rest = spread cs in
    if leb 0x41 c && leb c 0x5A then underscore ∷ c ∷ rest else to_uppercase c ∷ rest

-- The name without the underscore at its start.
abbrev pub rest_of : Name → Name
rest_of [] = []
rest_of (c ∷ cs) = cs

abbrev pub screaming : Name → Name
screaming name = rest_of (spread name)

append_assoc : (a b c : Name) → (a ++ b) ++ c ≡ a ++ (b ++ c)
append_assoc [] b c = refl
append_assoc (x ∷ a) b c = ap (λ t. x ∷ t) (append_assoc a b c)

split_tail : (t : Name) → IsTail t → split t ≡ t ∷ []
split_tail [] h = refl
split_tail (c ∷ t) (h, hs) =
    let ne : c ≢ underscore = ground arith in rw (==_false c underscore ne, split_tail t hs) refl

split_tail-next : (t r : Name) → IsTail t → split (t ++ (underscore ∷ r)) ≡ t ∷ split r
split_tail-next [] r h = refl
split_tail-next (c ∷ t) r (h, hs) =
    let ne : c ≢ underscore = ground arith in
    rw (==_false c underscore ne, split_tail-next t r hs) refl

IsWord-IsTail : (w : Name) → IsWord w → IsTail w
IsWord-IsTail [] h = elim h [ ]
IsWord-IsTail (c ∷ w) (h, hs) = (inl h, hs)

split-join : (w : Name) (ws : List Name) → IsWord w → AreWords ws → split (join (w ∷ ws)) ≡ w ∷ ws
split-join w [] h hs = split_tail w (IsWord-IsTail w h)
split-join w (v ∷ ws) h (hv, hs) =
    rw (split_tail-next w (join (v ∷ ws)) (IsWord-IsTail w h), split-join v ws hv hs) refl

-- A later character of a word, in lower case, is no capital letter, and its upper case is itself.
tail_plain :
    (c : ℕ)
    → IsUpper c ⊎ IsDigit c
    → (leb 0x41 (to_lowercase c) && leb (to_lowercase c) 0x5A) ≡ false
tail_plain c h = ground arith

tail_back : (c : ℕ) → IsUpper c ⊎ IsDigit c → to_uppercase (to_lowercase c) ≡ c
tail_back c h = ground arith

upper_capital :
    (c : ℕ) → IsUpper c → (leb 0x41 (to_uppercase c) && leb (to_uppercase c) 0x5A) ≡ true
upper_capital c h = ground arith

upper_same : (c : ℕ) → IsUpper c → to_uppercase c ≡ c
upper_same c h = ground arith

spread_lower : (t r : Name) → IsTail t → spread (lower t ++ r) ≡ t ++ spread r
spread_lower [] r h = refl
spread_lower (c ∷ t) r (h, hs) = rw (tail_plain c h, tail_back c h, spread_lower t r hs) refl

spread-capitalise :
    (w r : Name) → IsWord w → spread (capitalise w ++ r) ≡ underscore ∷ (w ++ spread r)
spread-capitalise [] r h = elim h [ ]
spread-capitalise (c ∷ w) r (h, hs) =
    rw (upper_capital c h, upper_same c h, spread_lower w r hs) refl

spread-concat :
    (w : Name) (ws : List Name) (r : Name)
    → IsWord w
    → AreWords ws
    → spread (concat (w ∷ ws) ++ r) ≡ underscore ∷ (join (w ∷ ws) ++ spread r)
spread-concat w [] r h hs = rw (append_assoc (capitalise w) [] r) (spread-capitalise w r h)
spread-concat w (v ∷ ws) r h (hv, hs) =
    rw
      (
        append_assoc (capitalise w) (concat (v ∷ ws)) r,
        spread-capitalise w (concat (v ∷ ws) ++ r) h,
        spread-concat v ws r hv hs,
        append_assoc w (underscore ∷ join (v ∷ ws)) (spread r),
      )
      refl

-- For a constant whose name is words joined by underscores, each a capital letter followed by
-- capital letters and digits, the two aliases, read back into capitals with an underscore before
-- each capital letter, are the constant's name followed by `_INPUT` and `_OUTPUT`.
pub screaming-derive_alias_names :
    (w : Name) (ws : List Name)
    → IsWord w
    → AreWords ws
    → (screaming (derive_alias_names (join (w ∷ ws))).0 ≡ join (w ∷ ws) ++ codes "_INPUT")
      × (screaming (derive_alias_names (join (w ∷ ws))).1 ≡ join (w ∷ ws) ++ codes "_OUTPUT")
unfolding derive_alias_names
screaming-derive_alias_names w ws h hs = (
  rw (split-join w ws h hs) (ap rest_of (spread-concat w ws (codes "Input") h hs)),
  rw (split-join w ws h hs) (ap rest_of (spread-concat w ws (codes "Output") h hs)),
)

-- The list without its first n elements.
abbrev beyond : ℕ → Name → Name
beyond zero name = name
beyond (suc n) [] = []
beyond (suc n) (c ∷ cs) = beyond n cs

reverse-cancel : (a b : Name) → reverse a ≡ reverse b → a ≡ b
reverse-cancel a b r = sym (reverse-reverse a) ∙ ap reverse r ∙ reverse-reverse b

input_cancel : (a b : Name) → a ++ codes "_INPUT" ≡ b ++ codes "_INPUT" → a ≡ b
input_cancel a b e = reverse-cancel a b (
    ap (beyond 6)
      (sym (reverse-append a (codes "_INPUT")) ∙ ap reverse e ∙ reverse-append b (codes "_INPUT")))

output_cancel : (a b : Name) → a ++ codes "_OUTPUT" ≡ b ++ codes "_OUTPUT" → a ≡ b
output_cancel a b e = reverse-cancel a b (
    ap (beyond 7) (
      sym (reverse-append a (codes "_OUTPUT")) ∙ ap reverse e ∙ reverse-append b (codes "_OUTPUT")))

-- Two constants whose names are words joined by underscores, each a capital letter followed by
-- capital letters and digits, share neither the alias of the input nor that of the output unless
-- they are the same.
pub derive_alias_names-distinct :
    (v w : Name) (vs ws : List Name)
    → IsWord v
    → AreWords vs
    → IsWord w
    → AreWords ws
    → ((derive_alias_names (join (v ∷ vs))).0 ≡ (derive_alias_names (join (w ∷ ws))).0)
      ⊎ ((derive_alias_names (join (v ∷ vs))).1 ≡ (derive_alias_names (join (w ∷ ws))).1)
    → join (v ∷ vs) ≡ join (w ∷ ws)
derive_alias_names-distinct v w vs ws hv hvs hw hws (inl e) =
    input_cancel (join (v ∷ vs)) (join (w ∷ ws)) (
      sym (screaming-derive_alias_names v vs hv hvs).0
      ∙ ap screaming e
      ∙ (screaming-derive_alias_names w ws hw hws).0)
derive_alias_names-distinct v w vs ws hv hvs hw hws (inr e) =
    output_cancel (join (v ∷ vs)) (join (w ∷ ws)) (
      sym (screaming-derive_alias_names v vs hv hvs).1
      ∙ ap screaming e
      ∙ (screaming-derive_alias_names w ws hw hws).1)
