-- ===== src/Format/Bounds.antt =====
-- The entries that the parser writes: their number and their sizes.
use p.Prelude.{
  ℕ, zero, suc, ◌≤◌, ◌<◌, ◌≡◌, ◌⊎◌, inl, inr, Bool, true, false, Option, none, some, List, [], ◌∷◌,
  ◌++◌, leb, ◌==◌, if◌then◌else◌, arith, Bool-cases, length, length-append, All, All-append,
}
use p.Format.{
  Platform, Prefix, PrefixDesc, Varg, varg, Class, Scan, Next, stop, go, size_of_arg, integer_arg,
  string_arg, float_arg, character_arg, convert, take_prefix, find_prefix, switch, note_width,
  classify, scan_one, scan, start, parse_format_string, arg_ldouble, arg_int32,
}

-- A 64-bit platform, with types of common size.
pub record IsWide (p : Platform) : Type 0 where
  pub wide : p.x64 ≡ true
  pub pvoid : (0 < p.sizeof_pvoid) × (p.sizeof_pvoid ≤ 8)
  pub wchar : (0 < p.sizeof_wchar) × (p.sizeof_wchar ≤ 8)
  pub intmax : (0 < p.sizeof_intmax) × (p.sizeof_intmax ≤ 8)

-- The types of the four string arguments.
abbrev pub IsString : ℕ → Type 0
IsString t = (8 ≤ t) × (t ≤ 11)

-- What the argument loop of cp8_log::send takes from the va_list for the entry: a string, eight
-- bytes, or a long double.
abbrev pub IsReadable : Varg → Type 0
IsReadable a = (IsString a.type × (a.size ≤ 1)) ⊎ ((a.size ≡ 8) ⊎ (a.type ≡ arg_ldouble))

pub record IsWritten (max : ℕ) (s : Scan) : Type 0 where
  pub room : length s.args ≤ max
  pub width : s.has_width ≤ 1
  pub readable : All IsReadable s.args

abbrev NextIsWritten : ℕ → Next → Type 0
NextIsWritten max stop = Unit
NextIsWritten max (go skip s) = IsWritten max s

eight : (p : Platform) (n : ℕ) → p.x64 ≡ true → 0 < n → n ≤ 8 → size_of_arg p n ≡ 8
unfolding size_of_arg
eight p n e lo hi = ground arith

integer_arg-IsReadable : (p : Platform) (k : Prefix) → IsWide p → IsReadable (integer_arg p k)
unfolding integer_arg
integer_arg-IsReadable p Prefix.i64 h = ground arith
integer_arg-IsReadable p k h = ground arith

string_arg-IsReadable :
    (p : Platform) (k : Prefix) (c width : ℕ) → width ≤ 1 → IsReadable (string_arg p k c width)
unfolding string_arg
string_arg-IsReadable p Prefix.i64 c width h = ground arith
string_arg-IsReadable p k c width h = ground arith

float_arg-IsReadable : (p : Platform) (k : Prefix) → IsWide p → IsReadable (float_arg p k)
unfolding float_arg
float_arg-IsReadable p Prefix.i64 h = ground arith
float_arg-IsReadable p k h = ground arith

character_arg-IsReadable : (p : Platform) (k : Prefix) → IsWide p → IsReadable (character_arg p k)
unfolding character_arg
character_arg-IsReadable p Prefix.i64 h = ground arith
character_arg-IsReadable p k h = ground arith

push-IsWritten :
    (max : ℕ) (s : Scan) (a : Varg) (percent : Bool) (width : ℕ)
    → IsWritten max s
    → IsReadable a
    → leb max (length s.args) ≡ false
    → width ≤ 1
    → IsWritten max (record s { args = s.args ++ a ∷ []; percent = percent; has_width = width })
push-IsWritten max s a percent width h r room w = record {
  room = ground (arith, length-append s.args (a ∷ []), h.room);
  width = w;
  readable = All-append IsReadable s.args (a ∷ []) h.readable (r, tt);
}

convert-IsWritten :
    (max : ℕ) (s : Scan) (a : Varg)
    → IsWritten max s
    → IsReadable a
    → NextIsWritten max (convert max s a)
unfolding convert
convert-IsWritten max s a h r = elim (Bool-cases (leb max (length s.args))) [
  | inl full ↦ rw full tt
  | inr room ↦ rw room (push-IsWritten max s a false s.has_width h r room h.width)
]

take_prefix-IsWritten :
    (max : ℕ) (s : Scan) (d : Option PrefixDesc)
    → IsWritten max s
    → NextIsWritten max (take_prefix s d)
unfolding take_prefix
take_prefix-IsWritten max s none h = h
take_prefix-IsWritten max s (some d) h = record {
  room = h.room;
  width = h.width;
  readable = h.readable;
}

star-IsWritten :
    (p : Platform) (max c : ℕ) (rest : List ℕ) (s : Scan)
    → IsWide p
    → IsWritten max s
    → NextIsWritten max (switch p max Class.star c rest s)
unfolding switch
star-IsWritten p max c rest s wide h = elim (Bool-cases (leb max (length s.args))) [
  | inl full ↦ rw full tt
  | inr room ↦ rw room (
      push-IsWritten max s (varg arg_int32 (size_of_arg p 4)) s.percent 1 h
        (inr (inl (eight p 4 wide.wide (omega arith) (omega arith)))) room (omega arith))
]

switch-IsWritten :
    (p : Platform) (max : ℕ) (k : Class) (c : ℕ) (rest : List ℕ) (s : Scan)
    → IsWide p
    → IsWritten max s
    → NextIsWritten max (switch p max k c rest s)
unfolding switch
switch-IsWritten p max Class.star c rest s wide h = star-IsWritten p max c rest s wide h
switch-IsWritten p max Class.length_prefix c rest s wide h =
    take_prefix-IsWritten max s (find_prefix (c ∷ rest)) h
switch-IsWritten p max Class.integer c rest s wide h =
    convert-IsWritten max s _ h (integer_arg-IsReadable p s.prefix wide)
switch-IsWritten p max Class.string c rest s wide h =
    convert-IsWritten max s _ h (string_arg-IsReadable p s.prefix c s.has_width h.width)
switch-IsWritten p max Class.pointer c rest s wide h =
    convert-IsWritten max s _ h
      (inr (inl (eight p p.sizeof_pvoid wide.wide wide.pvoid.0 wide.pvoid.1)))
switch-IsWritten p max Class.float c rest s wide h =
    convert-IsWritten max s _ h (float_arg-IsReadable p s.prefix wide)
switch-IsWritten p max Class.character c rest s wide h =
    convert-IsWritten max s _ h (character_arg-IsReadable p s.prefix wide)
switch-IsWritten p max Class.percent c rest s wide h = record {
  room = h.room;
  width = h.width;
  readable = h.readable;
}
switch-IsWritten p max Class.other c rest s wide h = h

note_width-IsWritten :
    (max : ℕ) (text : List ℕ) (n : Next)
    → NextIsWritten max n
    → NextIsWritten max (note_width text n)
unfolding note_width
note_width-IsWritten max text stop h = tt
note_width-IsWritten max text (go skip s) h = record {
  room = ground arith;
  width = ground arith;
  readable = ground arith;
}

scan_one_inside :
    (p : Platform) (max c : ℕ) (rest : List ℕ) (s : Scan)
    → s.percent ≡ true
    → scan_one p max c rest s ≡ note_width (c ∷ rest) (switch p max (classify c) c rest s)
unfolding scan_one
scan_one_inside p max c rest s e = rw (e, if◌then◌else◌)

scan_one_opens :
    (p : Platform) (max c : ℕ) (rest : List ℕ) (s : Scan)
    → s.percent ≡ false
    → (c == b'%') ≡ true
    → scan_one p max c rest s
      ≡ go 0 (record s { percent = true; prefix = Prefix.unknown; has_width = 0 })
unfolding scan_one
scan_one_opens p max c rest s e f = rw (e, f)

scan_one_plain :
    (p : Platform) (max c : ℕ) (rest : List ℕ) (s : Scan)
    → s.percent ≡ false
    → (c == b'%') ≡ false
    → scan_one p max c rest s ≡ go 0 s
unfolding scan_one
scan_one_plain p max c rest s e f = rw (e, f)

scan_one-IsWritten :
    (p : Platform) (max c : ℕ) (rest : List ℕ) (s : Scan)
    → IsWide p
    → IsWritten max s
    → NextIsWritten max (scan_one p max c rest s)
scan_one-IsWritten p max c rest s wide h = elim (Bool-cases s.percent) [
  | inl inside ↦ rw (scan_one_inside p max c rest s inside) (
      note_width-IsWritten max (c ∷ rest) (switch p max (classify c) c rest s)
        (switch-IsWritten p max (classify c) c rest s wide h))
  | inr outside ↦ elim (Bool-cases (c == b'%')) [
    | inl opens ↦
        rw (scan_one_opens p max c rest s outside opens)
          (record { room = h.room; width = omega arith; readable = h.readable })
    | inr plain ↦ rw (scan_one_plain p max c rest s outside plain) h
  ]
]

scan-IsWritten :
    (p : Platform) (max skip : ℕ) (text : List ℕ) (s : Scan)
    → IsWide p
    → IsWritten max s
    → (length (scan p max skip text s) ≤ max) × All IsReadable (scan p max skip text s)
unfolding scan
scan-IsWritten p max skip [] s wide h = (h.room, h.readable)
scan-IsWritten p max (suc skip) (c ∷ rest) s wide h = scan-IsWritten p max skip rest s wide h
scan-IsWritten p max zero (c ∷ rest) s wide h =
    after (scan_one p max c rest s) (scan_one-IsWritten p max c rest s wide h)
      (λ skip s' h'. scan-IsWritten p max skip rest s' wide h')
  where
    after :
        (n : Next)
        → NextIsWritten max n
        → ((skip : ℕ) (s' : Scan)
            → IsWritten max s'
            → (length (scan p max skip rest s') ≤ max) × All IsReadable (scan p max skip rest s'))
        → let r : List Varg = elim n [ stop ↦ s.args | go skip s' ↦ scan p max skip rest s' ] in
          (length r ≤ max) × All IsReadable r
    after stop n next = (h.room, h.readable)
    after (go skip s') n next = next skip s' n

-- On a 64-bit platform the format parser writes at most as many entries as the array holds, and
-- each is one that the argument loop of send can read: a string whose size is the has-width flag,
-- a value of eight bytes, or a long double.
pub parse_format_string-IsReadable :
    (p : Platform) (max : ℕ) (text : Option (List ℕ))
    → IsWide p
    → (length (parse_format_string p max text) ≤ max)
      × All IsReadable (parse_format_string p max text)
unfolding parse_format_string
parse_format_string-IsReadable p max none wide = (omega arith, tt)
parse_format_string-IsReadable p max (some text) wide = elim (Bool-cases (max == 0)) [
  | inl zero_max ↦ rw zero_max (omega arith, tt)
  | inr some_max ↦ rw some_max (
      scan-IsWritten p max 0 text start wide
        (record { room = omega arith; width = omega arith; readable = tt }))
]
