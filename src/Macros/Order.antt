-- ===== src/Macros/Order.antt =====
-- The order of the settings of `define_ioctl!`.
use mathlib.Core.Quot
use mathlib.Core.Quot.{Quot}
use mathlib.Core.List.{Permᴰ}
use wdk_safe.Base.{
  ◌≡◌, refl, sym, ap, ◌∙◌, Bool, true, false, Option, none, some, List, [], ◌∷◌, arith,
}
use wdk_safe.Macros.{Name, Token, Result, ok, err, Settings, no_settings, assign, parse_settings}
use wdk_safe.Macros.Options.{Setting, render, parse_cons}

-- The settings that were taken, or none after an error.
abbrev pub accepted : Result (Settings × List Token) → Option Settings
accepted (ok (s, ts)) = some s
accepted (err e) = none

-- The settings that the parser takes from a text, on top of those that were read.
unfoldable pub taken : Bool → List Setting → Settings → Option Settings
taken trailing ss s = accepted (parse_settings (render trailing ss) s)

-- The parser goes on after a setting, or two.
abbrev goes_on : Bool → List Setting → Result Settings → Option Settings
goes_on trailing ss (ok s) = taken trailing ss s
goes_on trailing ss (err e) = none

abbrev goes_on_after : Bool → List Setting → Option Settings → Option Settings
goes_on_after trailing ss none = none
goes_on_after trailing ss (some s) = taken trailing ss s

-- A second setting.
abbrev then_setting : Setting → Result Settings → Option Settings
then_setting y (err e) = none
then_setting y (ok s) = elim (assign y.key y.val s) [ err e ↦ none | ok s' ↦ some s' ]

two_comm :
    (x y : Setting) (m a : Option Name)
    → let s : Settings = record { method = m; access = a } in
      then_setting y (assign x.key x.val s) ≡ then_setting x (assign y.key y.val s)
unfolding assign
two_comm x y m a = ground arith

one-taken :
    (trailing : Bool) (x : Setting) (ss : List Setting) (s : Settings)
    → taken trailing (x ∷ ss) s ≡ goes_on trailing ss (assign x.key x.val s)
unfolding taken
one-taken trailing x ss s = ground (arith, parse_cons trailing x ss s)

second-taken :
    (trailing : Bool) (y : Setting) (ss : List Setting) (r : Result Settings)
    → goes_on trailing (y ∷ ss) r ≡ goes_on_after trailing ss (then_setting y r)
second-taken trailing y ss (err e) = refl
second-taken trailing y ss (ok s) = ground (arith, one-taken trailing y ss s)

two-taken :
    (trailing : Bool) (x y : Setting) (ss : List Setting) (s : Settings)
    → taken trailing (x ∷ y ∷ ss) s
      ≡ goes_on_after trailing ss (then_setting y (assign x.key x.val s))
two-taken trailing x y ss s =
    one-taken trailing x (y ∷ ss) s ∙ second-taken trailing y ss (assign x.key x.val s)

taken_swap :
    (trailing : Bool) (x y : Setting) (ss : List Setting) (s : Settings)
    → taken trailing (x ∷ y ∷ ss) s ≡ taken trailing (y ∷ x ∷ ss) s
taken_swap trailing x y ss s =
    two-taken trailing x y ss s
    ∙ ap (goes_on_after trailing ss) (two_comm x y s.method s.access)
    ∙ sym (two-taken trailing y x ss s)

-- What holds of the rest holds of the whole.
taken_cons :
    (t u : Bool) (x : Setting) (ss ts : List Setting)
    → ((s : Settings) → taken t ss s ≡ taken u ts s)
    → (s : Settings) → taken t (x ∷ ss) s ≡ taken u (x ∷ ts) s
taken_cons t u x ss ts same s =
    one-taken t x ss s ∙ goes (assign x.key x.val s) ∙ sym (one-taken u x ts s)
  where
    goes : (r : Result Settings) → goes_on t ss r ≡ goes_on u ts r
    goes (ok s') = same s'
    goes (err e) = refl

-- A comma at the end makes no difference.
taken_trailing : (ss : List Setting) (s : Settings) → taken true ss s ≡ taken false ss s
unfolding taken parse_settings
taken_trailing [] s = refl
taken_trailing (x ∷ ss) s = taken_cons true false x ss ss (taken_trailing ss) s

-- The order makes no difference.
taken-Perm :
    (trailing : Bool) (ss ts : List Setting)
    → Permᴰ ss ts
    → (s : Settings) → taken trailing ss s ≡ taken trailing ts s
taken-Perm trailing ss ts Permᴰ.nil s = refl
taken-Perm trailing (x ∷ ss) (y ∷ ts) (Permᴰ.cons e p) s =
    taken_cons trailing trailing x ss ts (taken-Perm trailing ss ts p) s
    ∙ ap (λ (z : Setting). taken trailing (z ∷ ts) s) e
taken-Perm trailing (x ∷ y ∷ ss) (x' ∷ y' ∷ ss') (Permᴰ.swap e f) s =
    taken_swap trailing x y ss s
    ∙ ap (λ (z : Setting). taken trailing (z ∷ x ∷ ss) s) f
    ∙ ap (λ (z : Setting). taken trailing (x' ∷ z ∷ ss) s) e
taken-Perm trailing ss ts (Permᴰ.trans {l₂ = us} p q) s =
    taken-Perm trailing ss us p s ∙ taken-Perm trailing us ts q s

-- The settings as a bag.
abbrev pub Bag : Type 0
Bag = Quot {α = List Setting} Permᴰ

settings-IsSet : IsSet (Option Settings)
settings-IsSet = hlevel

-- What a bag of settings stands for.
pub bag_settings : Bag → Option Settings
bag_settings =
    Quot.lift settings-IsSet (λ (ss : List Setting). taken false ss no_settings)
      (λ ss ts p. taken-Perm false ss ts p no_settings)

-- What the parser takes from a text of settings, or that it refuses them, depends on the bag of the
-- settings alone: not on their order, and not on a comma at the end.
pub parse_settings-Bag :
    (trailing : Bool) (ss : List Setting)
    → accepted (parse_settings (render trailing ss) no_settings) ≡ bag_settings (Quot.mk ss)
unfolding bag_settings taken
parse_settings-Bag true ss = taken_trailing ss no_settings
parse_settings-Bag false ss = refl
