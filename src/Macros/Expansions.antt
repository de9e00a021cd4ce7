-- ===== src/Macros/Expansions.antt =====
-- What `define_ioctl!` makes of a well-formed input.
use wdk_safe.Base.{◌≡◌, refl, Bool, true, false, Option, none, some, List, [], ◌∷◌, ◌++◌}
use wdk_safe.Ioctl.{TransferMethod, buffered, RequiredAccess, any}
use wdk_safe.Ioctl.Format.{method_name, access_name}
use wdk_safe.Macros.{
  Name, Token, ident, comma, fat_arrow, ok, Settings, no_settings, method_key, access_key,
  parse_settings, assign, resolve_method, resolve_access, derive_alias_names, Syn, DefineIoctlArgs,
  parse_args, parse_all, Expansion, define_ioctl,
}
use wdk_safe.Macros.Options.{Setting, render}
use wdk_safe.Macros.Resolve.{method_name-resolve, access_name-resolve}

-- Expressions and types with tokens of their own, which `syn`'s parsers read back: an expression up
-- to a comma, a type up to an arrow, a comma or the end of the input.
pub record Printed (syn : Syn) : Type 0 where
  pub expr_tokens : syn.Expr → List Token
  pub type_tokens : syn.Ty → List Token
  pub expr_back :
      (e : syn.Expr) (ts : List Token)
      → syn.parse_expr (expr_tokens e ++ (comma ∷ ts)) ≡ ok (e, comma ∷ ts)
  pub type_back_arrow :
      (t : syn.Ty) (ts : List Token)
      → syn.parse_type (type_tokens t ++ (fat_arrow ∷ ts)) ≡ ok (t, fat_arrow ∷ ts)
  pub type_back_comma :
      (t : syn.Ty) (ts : List Token)
      → syn.parse_type (type_tokens t ++ (comma ∷ ts)) ≡ ok (t, comma ∷ ts)
  pub type_back_end : (t : syn.Ty) → syn.parse_type (type_tokens t ++ []) ≡ ok (t, [])

abbrev pub default {ℓ} : {A : Type ℓ} → A → Option A → A
default d none = d
default d (some a) = a

-- The settings that are given, in one order or the other.
abbrev pub method_setting : Option TransferMethod → List Setting
method_setting none = []
method_setting (some t) = record { key = method_key; val = method_name t } ∷ []

abbrev pub access_setting : Option RequiredAccess → List Setting
access_setting none = []
access_setting (some t) = record { key = access_key; val = access_name t } ∷ []

abbrev pub settings_of : Bool → Option TransferMethod → Option RequiredAccess → List Setting
settings_of true m a = method_setting m ++ access_setting a
settings_of false m a = access_setting a ++ method_setting m

abbrev method_text : Option TransferMethod → Option Name
method_text none = none
method_text (some t) = some (method_name t)

abbrev access_text : Option RequiredAccess → Option Name
access_text none = none
access_text (some t) = some (access_name t)

abbrev given : Option TransferMethod → Option RequiredAccess → Settings
given m a = record { method = method_text m; access = access_text a }

parsed :
    (trailing method_first : Bool) (m : Option TransferMethod) (a : Option RequiredAccess)
    → parse_settings (render trailing (settings_of method_first m a)) no_settings
      ≡ ok (given m a, [])
unfolding parse_settings assign
parsed true true none none = refl
parsed true true none (some u) = refl
parsed true true (some t) none = refl
parsed true true (some t) (some u) = refl
parsed true false none none = refl
parsed true false none (some u) = refl
parsed true false (some t) none = refl
parsed true false (some t) (some u) = refl
parsed false true none none = refl
parsed false true none (some u) = refl
parsed false true (some t) none = refl
parsed false true (some t) (some u) = refl
parsed false false none none = refl
parsed false false none (some u) = refl
parsed false false (some t) none = refl
parsed false false (some t) (some u) = refl

given_method :
    (m : Option TransferMethod) → resolve_method (method_text m) ≡ ok (default buffered m)
unfolding resolve_method
given_method none = refl
given_method (some t) = method_name-resolve t

given_access : (a : Option RequiredAccess) → resolve_access (access_text a) ≡ ok (default any a)
unfolding resolve_access
given_access none = refl
given_access (some t) = access_name-resolve t

module _ (syn : Syn) (printed : Printed syn) (name : Name) (device function : syn.Expr)
    (input output : syn.Ty) where
  -- The tokens of an input, with its settings and perhaps a comma at its end.
  abbrev pub written : Bool → List Setting → List Token
  written trailing ss =
      ident name
      ∷ comma
      ∷ (printed.expr_tokens device
          ++ (comma
              ∷ (printed.expr_tokens function
                  ++ (comma
                      ∷ (printed.type_tokens input
                          ++ (fat_arrow ∷ (printed.type_tokens output ++ render trailing ss)))))))

  -- The output type is followed by a comma or by nothing.
  output_back :
      (trailing : Bool) (ss : List Setting)
      → syn.parse_type (printed.type_tokens output ++ render trailing ss)
        ≡ ok (output, render trailing ss)
  output_back true [] = printed.type_back_comma output []
  output_back false [] = printed.type_back_end output
  output_back true (s ∷ ss) = printed.type_back_comma output _
  output_back false (s ∷ ss) = printed.type_back_comma output _

  abbrev pub args : Settings → DefineIoctlArgs syn
  args settings = record {
    const_name = name;
    device_type = device;
    function = function;
    input_type = input;
    output_type = output;
    settings = settings;
  }

  parse_args_lem :
      (trailing : Bool) (ss : List Setting) (settings : Settings)
      → parse_settings (render trailing ss) no_settings ≡ ok (settings, [])
      → parse_args syn (written trailing ss) ≡ ok (args settings, [])
  unfolding parse_args
  parse_args_lem trailing ss settings e =
      let t3 = printed.type_tokens output ++ render trailing ss in
      let t2 = printed.type_tokens input ++ (fat_arrow ∷ t3) in
      let t1 = printed.expr_tokens function ++ (comma ∷ t2) in
      rw
        (
          printed.expr_back device t1,
          printed.expr_back function t2,
          printed.type_back_arrow input t3,
          output_back trailing ss,
          e,
        )
        refl

  -- The expansion with the given method and access.
  abbrev pub expansion : TransferMethod → RequiredAccess → Expansion syn
  expansion method access = record {
    const_name = name;
    device_type = device;
    function = function;
    method = method;
    access = access;
    input_alias = (derive_alias_names name).0;
    input_type = input;
    output_alias = (derive_alias_names name).1;
    output_type = output;
  }

  -- An input of the documented form expands to the constant `IoControlCode::new(device, function,
  -- method, access)` and the two aliases, whichever of the settings are given, in either order and
  -- with or without a comma at the end; the method is Buffered and the access is Any where they are
  -- not given. Condition: `syn` reads the tokens of expressions and types back.
  pub define_ioctl-written :
      (trailing method_first : Bool) (m : Option TransferMethod) (a : Option RequiredAccess)
      → define_ioctl syn (written trailing (settings_of method_first m a))
        ≡ ok (expansion (default buffered m) (default any a))
  unfolding define_ioctl parse_all derive_alias_names
  define_ioctl-written trailing method_first m a =
      rw
        (
          parse_args_lem trailing (settings_of method_first m a) (given m a)
              (parsed trailing method_first m a),
          given_method m,
          given_access a,
        )
        refl
