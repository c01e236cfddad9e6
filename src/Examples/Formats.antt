-- ===== src/Examples/Formats.antt =====
-- The format "%d %8s" on 64-bit Linux.
use p.Prelude.{ℕ, ◌≤◌, refl, true, false, some, List, [], ◌∷◌, length, All, arith}
use p.Format.{Platform, parse_format_string}
use p.Format.Bounds.{IsWide, IsReadable, parse_format_string-IsReadable}

abbrev pub linux : Platform
linux = record {
  windows = false;
  x64 = true;
  sizeof_pvoid = 8;
  sizeof_wchar = 4;
  sizeof_intmax = 8;
  sizeof_ldouble = 16;
}

linux-IsWide : IsWide linux
linux-IsWide = record {
  wide = refl;
  pvoid = (omega arith, omega arith);
  wchar = (omega arith, omega arith);
  intmax = (omega arith, omega arith);
}

abbrev format : List ℕ
format = b'%' ∷ b'd' ∷ b' ' ∷ b'%' ∷ b'8' ∷ b's' ∷ []

parse_format_string-IsReadable_example :
    (length (parse_format_string linux 32 (some format)) ≤ 32)
    × All IsReadable (parse_format_string linux 32 (some format))
parse_format_string-IsReadable_example =
    parse_format_string-IsReadable linux 32 (some format) linux-IsWide
