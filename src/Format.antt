-- ===== src/Format.antt =====
-- engine/p8_log.cpp, find_prefix and cp8_log::parse_format_string; the argument codes are those of
-- api/p8_protocol.h. A format is the list of its characters without the terminator.
pub mod Bounds
use p.Prelude.{
  ℕ, zero, suc, ◌+◌, ◌-◌, ◌*◌, ◌/◌, ◌%◌, Bool, true, false, ◌&&◌, ◌||◌, Option, none, some, List,
  [], ◌∷◌, ◌++◌, ltb, leb, ◌==◌, if◌then◌else◌, length,
}

-- What the build macros and the compiler fix: G_OS_WINDOWS, GTX64, and the sizes of the types.
pub record Platform : Type 0 where
  pub windows : Bool
  pub x64 : Bool
  pub sizeof_pvoid : ℕ
  pub sizeof_wchar : ℕ
  pub sizeof_intmax : ℕ
  pub sizeof_ldouble : ℕ

pub data Prefix : Type 0 where
  i64 i32 ll l hh h i w j upper_l unknown : Prefix

pub record PrefixDesc : Type 0 where
  pub text : List ℕ
  pub len : ℕ
  pub kind : Prefix

abbrev desc : List ℕ → ℕ → Prefix → PrefixDesc
desc t n k = record { text = t; len = n; kind = k }

-- gs_prefixes, without its terminating entry.
abbrev pub prefixes : List PrefixDesc
prefixes =
    desc (b'I' ∷ b'6' ∷ b'4' ∷ []) 3 i64
    ∷ desc (b'I' ∷ b'3' ∷ b'2' ∷ []) 3 i32
    ∷ desc (b'l' ∷ b'l' ∷ []) 2 ll
    ∷ desc (b'h' ∷ b'h' ∷ []) 2 hh
    ∷ desc (b'h' ∷ []) 1 h
    ∷ desc (b'l' ∷ []) 1 l
    ∷ desc (b'L' ∷ []) 1 upper_l
    ∷ desc (b'I' ∷ []) 1 i
    ∷ desc (b'z' ∷ []) 1 i
    ∷ desc (b't' ∷ []) 1 i
    ∷ desc (b'w' ∷ []) 1 w
    ∷ desc (b'j' ∷ []) 1 j
    ∷ []

-- strncmp(text, pattern, its length) == 0
abbrev pub begins : List ℕ → List ℕ → Bool
begins [] text = true
begins (c ∷ pattern) [] = false
begins (c ∷ pattern) (d ∷ text) = (c == d) && begins pattern text

abbrev pub search_prefix : List PrefixDesc → List ℕ → Option PrefixDesc
search_prefix [] text = none
search_prefix (d ∷ ds) text = if begins d.text text then some d else search_prefix ds text

unfoldable pub find_prefix : List ℕ → Option PrefixDesc
find_prefix text = search_prefix prefixes text

-- s_p8_log_varg
pub record Varg : Type 0 where
  pub type : ℕ
  pub size : ℕ

abbrev pub varg : ℕ → ℕ → Varg
varg t n = record { type = t; size = n }

-- P8_LOG_ARG_TYPE_XXX
abbrev pub arg_char : ℕ
arg_char = 0x1

abbrev pub arg_int8 : ℕ
arg_int8 = 0x1

abbrev pub arg_char16 : ℕ
arg_char16 = 0x2

abbrev pub arg_int16 : ℕ
arg_int16 = 0x3

abbrev pub arg_int32 : ℕ
arg_int32 = 0x4

abbrev pub arg_int64 : ℕ
arg_int64 = 0x5

abbrev pub arg_double : ℕ
arg_double = 0x6

abbrev pub arg_pvoid : ℕ
arg_pvoid = 0x7

abbrev pub arg_ustr16 : ℕ
arg_ustr16 = 0x8

abbrev pub arg_stra : ℕ
arg_stra = 0x9

abbrev pub arg_ustr8 : ℕ
arg_ustr8 = 0xa

abbrev pub arg_ustr32 : ℕ
arg_ustr32 = 0xb

abbrev pub arg_char32 : ℕ
arg_char32 = 0xc

abbrev pub arg_intmax : ℕ
arg_intmax = 0xd

abbrev pub arg_ldouble : ℕ
arg_ldouble = 0xe

-- P8_SIZE_OF_ARG: rounded up to 8 bytes, to 4 on 32-bit platforms, as a uint8_t.
unfoldable pub size_of_arg : Platform → ℕ → ℕ
size_of_arg p n = if p.x64 then (n + 7) / 8 * 8 % 256 else (n + 3) / 4 * 4 % 256

-- The cases of the switch.
pub data Class : Type 0 where
  star length_prefix integer string pointer float character percent other : Class

abbrev pub among : ℕ → List ℕ → Bool
among c [] = false
among c (d ∷ ds) = (c == d) || among c ds

unfoldable pub classify : ℕ → Class
classify c =
    if c == b'*'
    then star
    else if among c (b'I' ∷ b'l' ∷ b'h' ∷ b'w' ∷ b'z' ∷ b'j' ∷ b't' ∷ b'L' ∷ [])
    then length_prefix
    else if among c (b'd' ∷ b'i' ∷ b'o' ∷ b'u' ∷ b'x' ∷ b'X' ∷ b'b' ∷ b'B' ∷ [])
    then integer
    else if among c (b's' ∷ b'S' ∷ [])
    then string
    else if c == b'p'
    then pointer
    else if among c (b'e' ∷ b'E' ∷ b'f' ∷ b'F' ∷ b'g' ∷ b'G' ∷ b'a' ∷ b'A' ∷ [])
    then float
    else if among c (b'c' ∷ b'C' ∷ [])
    then character
    else if c == b'%'
    then percent
    else other

-- The argument of an integer conversion.
unfoldable pub integer_arg : Platform → Prefix → Varg
unfolding size_of_arg
integer_arg p unknown = varg arg_int32 (size_of_arg p 4)
integer_arg p ll = varg arg_int64 (size_of_arg p 8)
integer_arg p i64 = varg arg_int64 (size_of_arg p 8)
integer_arg p h = varg arg_int16 (size_of_arg p 2)
integer_arg p hh = varg arg_int8 (size_of_arg p 1)
integer_arg p l =
    if p.windows
    then varg arg_int32 (size_of_arg p 4)
    else if p.x64
    then varg arg_int64 (size_of_arg p 8)
    else varg arg_int32 (size_of_arg p 4)
integer_arg p i32 = varg arg_int32 (size_of_arg p 4)
integer_arg p i =
    if p.x64 then varg arg_int64 (size_of_arg p 8) else varg arg_int32 (size_of_arg p 4)
integer_arg p j = varg arg_intmax (size_of_arg p p.sizeof_intmax)
integer_arg p w = varg arg_int32 (size_of_arg p 4)
integer_arg p upper_l = varg arg_int32 (size_of_arg p 4)

-- The type of a string argument: of `S` under any prefix but h, and of `s`.
unfoldable pub upper_string_type : Platform → Prefix → ℕ
upper_string_type p h = arg_stra
upper_string_type p _ = if p.windows then arg_stra else arg_ustr32

unfoldable pub lower_string_type : Platform → Prefix → ℕ
lower_string_type p h = arg_stra
lower_string_type p l = if p.windows then arg_ustr16 else arg_ustr32
lower_string_type p _ = arg_ustr8

unfoldable pub string_arg : Platform → Prefix → ℕ → ℕ → Varg
unfolding upper_string_type lower_string_type
string_arg p prefix c has_width =
    varg (if c == b'S' then upper_string_type p prefix else lower_string_type p prefix) has_width

unfoldable pub float_arg : Platform → Prefix → Varg
unfolding size_of_arg
float_arg p upper_l = varg arg_ldouble (size_of_arg p p.sizeof_ldouble)
float_arg p _ = varg arg_double (size_of_arg p 8)

unfoldable pub character_arg : Platform → Prefix → Varg
unfolding size_of_arg
character_arg p h = varg arg_char (size_of_arg p 1)
character_arg p l =
    varg (if p.windows then arg_char16 else arg_char32) (size_of_arg p p.sizeof_wchar)
character_arg p _ = varg arg_char (size_of_arg p 1)

-- The locals of the loop; `args` are the entries written so far.
pub record Scan : Type 0 where
  pub percent : Bool
  pub prefix : Prefix
  pub has_width : ℕ
  pub args : List Varg

-- The end of one iteration: the call returns, or it goes on with a state, `skip` characters past
-- the one that was read, before the increment.
pub data Next : Type 0 where
  stop : Next
  go : (skip : ℕ) → Scan → Next

-- A conversion that takes an argument.
unfoldable pub convert : ℕ → Scan → Varg → Next
convert max s a =
    if leb max (length s.args)
    then stop
    else go 0 (record s { args = s.args ++ a ∷ []; percent = false })

unfoldable pub take_prefix : Scan → Option PrefixDesc → Next
take_prefix s none = go 0 s
take_prefix s (some d) = go (d.len - 1) (record s { prefix = d.kind })

-- The switch over *lp_iter = c, before the characters `rest`.
unfoldable pub switch : Platform → ℕ → Class → ℕ → List ℕ → Scan → Next
unfolding find_prefix take_prefix convert integer_arg string_arg float_arg character_arg
switch p max star c rest s =
    if leb max (length s.args)
    then stop
    else go 0 (record s { args = s.args ++ varg arg_int32 (size_of_arg p 4) ∷ []; has_width = 1 })
switch p max length_prefix c rest s = take_prefix s (find_prefix (c ∷ rest))
switch p max integer c rest s = convert max s (integer_arg p s.prefix)
switch p max string c rest s = convert max s (string_arg p s.prefix c s.has_width)
switch p max pointer c rest s = convert max s (varg arg_pvoid (size_of_arg p p.sizeof_pvoid))
switch p max float c rest s = convert max s (float_arg p s.prefix)
switch p max character c rest s = convert max s (character_arg p s.prefix)
switch p max percent c rest s = go 0 (record s { percent = false })
switch p max other c rest s = go 0 s

abbrev pub char_at : ℕ → List ℕ → ℕ
char_at k [] = 0
char_at zero (c ∷ cs) = c
char_at (suc k) (c ∷ cs) = char_at k cs

-- `if(lb_percent && *lp_iter >= '0' && *lp_iter <= '9') lu_has_width = 1`
unfoldable pub note_width : List ℕ → Next → Next
note_width text stop = stop
note_width text (go skip s) =
    let c = char_at skip text in
    go skip (if s.percent && leb b'0' c && leb c b'9' then record s { has_width = 1 } else s)

unfoldable pub scan_one : Platform → ℕ → ℕ → List ℕ → Scan → Next
unfolding classify switch note_width
scan_one p max c rest s =
    if s.percent
    then note_width (c ∷ rest) (switch p max (classify c) c rest s)
    else if c == b'%'
    then go 0 (record s { percent = true; prefix = unknown; has_width = 0 })
    else go 0 s

-- `skip` counts the characters that a prefix has already taken.
unfoldable pub scan : Platform → ℕ → ℕ → List ℕ → Scan → List Varg
unfolding scan_one
scan p max skip [] s = s.args
scan p max (suc skip) (c ∷ rest) s = scan p max skip rest s
scan p max zero (c ∷ rest) s = elim (scan_one p max c rest s) [
  | stop ↦ s.args
  | go skip s' ↦ scan p max skip rest s'
]

abbrev pub start : Scan
start = record { percent = false; prefix = unknown; has_width = 0; args = [] }

-- The entries that the call writes to op_args; their number is its result. none is a null format;
-- op_args is not null, as in the call of resolve_log_desc.
unfoldable pub parse_format_string : Platform → ℕ → Option (List ℕ) → List Varg
unfolding scan
parse_format_string p max none = []
parse_format_string p max (some text) = if max == 0 then [] else scan p max 0 text start
