-- ===== src/Macros.antt =====
-- crates/wdk-safe-macros/src/lib.rs: the parser of `define_ioctl!`'s arguments, the resolution of
-- the transfer method and the access, and the names of the two type aliases. The parsers of Rust's
-- expressions and types are those of the `syn` crate. Identifiers have ASCII letters.
pub mod Aliases
pub mod Options
pub mod Order
pub mod Resolve
pub mod Expansions
use Prim.Native.String.{String}
use wdk_safe.Base.{
  ℕ, ◌+◌, ◌-◌, Bool, true, false, ◌&&◌, Option, none, some, List, [], ◌∷◌, ◌++◌, ◌==◌, leb,
  if◌then◌else◌, same_name,
}
use wdk_safe.Base.Hex.{codes}
use wdk_safe.Ioctl.{
  TransferMethod, buffered, in_direct, out_direct, neither, RequiredAccess, any, read, write,
  read_write,
}

abbrev pub Name : Type 0
Name = List ℕ

-- A token: an identifier, one of the three separators, or a piece of an expression or a type.
pub data Token : Type 0 where
  ident : Name → Token
  comma equals fat_arrow : Token
  piece : ℕ → Token

-- Why the macro refuses its input; `expected` stands for the errors of `syn`'s own parsers.
pub data Error : Type 0 where
  expected method_twice access_twice : Error
  unknown_key unknown_method unknown_access : Name → Error

pub data Result {ℓ} (A : Type ℓ) : Type ℓ where
  ok : A → Result A
  err : Error → Result A

infixl 5 ◌>>=◌
abbrev pub ◌>>=◌ {ℓ κ} : {A : Type ℓ} {B : Type κ} → Result A → (A → Result B) → Result B
◌>>=◌ (ok a) f = f a
◌>>=◌ (err e) f = err e

-- A parser takes tokens from the front.
abbrev pub Parser {ℓ} : Type ℓ → Type ℓ
Parser A = List Token → Result (A × List Token)

abbrev pub parse_ident : Parser Name
parse_ident (ident n ∷ ts) = ok (n, ts)
parse_ident other = err expected

abbrev pub parse_comma : Parser (Unit {0})
parse_comma (comma ∷ ts) = ok (tt, ts)
parse_comma other = err expected

abbrev pub parse_equals : Parser (Unit {0})
parse_equals (equals ∷ ts) = ok (tt, ts)
parse_equals other = err expected

abbrev pub parse_fat_arrow : Parser (Unit {0})
parse_fat_arrow (fat_arrow ∷ ts) = ok (tt, ts)
parse_fat_arrow other = err expected

-- The settings that were read so far.
pub record Settings : Type 0 where
  pub method : Option Name
  pub access : Option Name

abbrev pub no_settings : Settings
no_settings = record { method = none; access = none }

abbrev pub method_key : Name
method_key = codes "method"

abbrev pub access_key : Name
access_key = codes "access"

-- The match on the key.
abbrev pub set_method : Name → Settings → Result Settings
set_method val s = elim s.method [
  | some m ↦ err method_twice
  | none ↦ ok (record s { method = some val })
]

abbrev pub set_access : Name → Settings → Result Settings
set_access val s = elim s.access [
  | some a ↦ err access_twice
  | none ↦ ok (record s { access = some val })
]

unfoldable pub assign : Name → Name → Settings → Result Settings
assign key val s =
    if same_name key method_key
    then set_method val s
    else if same_name key access_key
    then set_access val s
    else err (unknown_key key)

-- The loop over `, key = value`, which allows a comma at the end of the input.
unfoldable pub parse_settings : List Token → Settings → Result (Settings × List Token)
parse_settings (comma ∷ []) s = ok (s, [])
parse_settings (comma ∷ ident key ∷ equals ∷ ident val ∷ ts) s = elim (assign key val s) [
  | ok s' ↦ parse_settings ts s'
  | err e ↦ err e
]
parse_settings (comma ∷ other) s = err expected
parse_settings ts s = ok (s, ts)

unfoldable pub resolve_method : Option Name → Result TransferMethod
resolve_method none = ok buffered
resolve_method (some n) =
    if same_name n (codes "Buffered")
    then ok buffered
    else if same_name n (codes "InDirect")
    then ok in_direct
    else if same_name n (codes "OutDirect")
    then ok out_direct
    else if same_name n (codes "Neither")
    then ok neither
    else err (unknown_method n)

unfoldable pub resolve_access : Option Name → Result RequiredAccess
resolve_access none = ok any
resolve_access (some n) =
    if same_name n (codes "Any")
    then ok any
    else if same_name n (codes "Read")
    then ok read
    else if same_name n (codes "Write")
    then ok write
    else if same_name n (codes "ReadWrite")
    then ok read_write
    else err (unknown_access n)

-- `split('_')`: the words between underscores, of which there is always one more.
abbrev pub underscore : ℕ
underscore = 0x5F

abbrev pub push_front : ℕ → List Name → List Name
push_front c [] = (c ∷ []) ∷ []
push_front c (w ∷ ws) = (c ∷ w) ∷ ws

abbrev pub split : Name → List Name
split [] = [] ∷ []
split (c ∷ cs) = let rest = split cs in if c == underscore then [] ∷ rest else push_front c rest

abbrev pub to_uppercase : ℕ → ℕ
to_uppercase c = if leb 0x61 c && leb c 0x7A then c - 0x20 else c

abbrev pub to_lowercase : ℕ → ℕ
to_lowercase c = if leb 0x41 c && leb c 0x5A then c + 0x20 else c

abbrev pub lower : Name → Name
lower [] = []
lower (c ∷ cs) = to_lowercase c ∷ lower cs

abbrev pub capitalise : Name → Name
capitalise [] = []
capitalise (first ∷ rest) = to_uppercase first ∷ lower rest

abbrev pub concat : List Name → Name
concat [] = []
concat (w ∷ ws) = capitalise w ++ concat ws

abbrev pub pascal : Name → Name
pascal name = concat (split name)

unfoldable pub derive_alias_names : Name → Name × Name
derive_alias_names const_name =
    (pascal const_name ++ codes "Input", pascal const_name ++ codes "Output")

-- The parsers of `syn::Expr` and `syn::Type`.
pub record Syn : Type 1 where
  pub Expr : Type 0
  pub Ty : Type 0
  pub parse_expr : Parser Expr
  pub parse_type : Parser Ty

module _ (syn : Syn) where
  pub record DefineIoctlArgs : Type 0 where
    pub const_name : Name
    pub device_type : syn.Expr
    pub function : syn.Expr
    pub input_type : syn.Ty
    pub output_type : syn.Ty
    pub settings : Settings

  unfoldable pub parse_args : Parser DefineIoctlArgs
  parse_args input = do
    (const_name, t1) ← parse_ident input
    (u1, t2) ← parse_comma t1
    (device_type, t3) ← syn.parse_expr t2
    (u2, t4) ← parse_comma t3
    (function, t5) ← syn.parse_expr t4
    (u3, t6) ← parse_comma t5
    (input_type, t7) ← syn.parse_type t6
    (u4, t8) ← parse_fat_arrow t7
    (output_type, t9) ← syn.parse_type t8
    (settings, rest) ← parse_settings t9 no_settings
    ok (
      record {
        const_name = const_name;
        device_type = device_type;
        function = function;
        input_type = input_type;
        output_type = output_type;
        settings = settings;
      },
      rest,
    )

  -- The constant, whose value is `IoControlCode::new` of the four arguments, and the two aliases.
  pub record Expansion : Type 0 where
    pub const_name : Name
    pub device_type : syn.Expr
    pub function : syn.Expr
    pub method : TransferMethod
    pub access : RequiredAccess
    pub input_alias : Name
    pub input_type : syn.Ty
    pub output_alias : Name
    pub output_type : syn.Ty

  -- `parse_macro_input!` wants every token to be used.
  unfoldable pub parse_all : List Token → Result DefineIoctlArgs
  parse_all input = do
    (args, rest) ← parse_args input
    elim rest [ [] ↦ ok args | t ∷ ts ↦ err expected ]

  unfoldable pub define_ioctl : List Token → Result Expansion
  unfolding derive_alias_names
  define_ioctl input = do
    args ← parse_all input
    method ← resolve_method args.settings.method
    access ← resolve_access args.settings.access
    let aliases = derive_alias_names args.const_name
    ok (record {
      const_name = args.const_name;
      device_type = args.device_type;
      function = args.function;
      method = method;
      access = access;
      input_alias = aliases.0;
      input_type = args.input_type;
      output_alias = aliases.1;
      output_type = args.output_type;
    })
