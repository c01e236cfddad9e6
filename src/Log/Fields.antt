-- ===== src/Log/Fields.antt =====
-- What the fields of a record append to the writer's buffers.
use p.Prelude.{
  ℕ, ◌+◌, ◌≤◌, ◌<◌, ◌≡◌, refl, sym, ap, ◌∙◌, inl, inr, Bool, true, false, Option, none, some, List,
  [], ◌∷◌, ◌++◌, length, take, arith, if_cases, length-append,
}
use mathlib.Core.Path.{subst}
use mathlib.Core.List.{append_assoc, append-nil}
use p.Kit.{Lst}
use p.Format.{Varg}
use p.Core.Descriptor.{Str}
use p.Core.LogDescs.{is_string}
use p.Core.Service.{little_endian}
use p.Writer.{Fragment, Writer, hdr_size, Room, null, exhausted, roomy}
use p.Writer.Trace.{IsWriting, Trace, HasRoom, Copied, ensure_space-HasRoom, copy_fragmented-Copied}
use p.Log.{
  Arg, string, integer, double, long_double, Item, stepped, ◌>>=◌, Part, in_args, in_attrs, written,
  add_written, stored_at, cut, args_after, fixed_bytes, placed, copied, copy_string, put,
  write_string, write_text_arg, write_arg, write_args,
}
use p.Log.Growth.{
  string_bytes, arg_bytes, args_bytes, IsOfType, AreOfTypes, Grew, Grew->>=, Grew-weaken,
  HasWritten,
}

take_all : (l : List ℕ) → take (length l) l ≡ l
take_all [] = refl
take_all (a ∷ l) = ap (◌∷◌ a) (take_all l)

module _ (K : Lst) (now : ℕ) (P : List ℕ → Writer → Type 0) (T : Trace P)
    (large : (s : List ℕ) (v : Writer) → P s v → hdr_size + 256 ≤ v.buf_max) where
  unchanged :
      (part : Part) (i : Item) (v : Writer) (rest : List Bool)
      → HasWritten part 0 i (record i { writer = v; answers = rest })
  unchanged in_args i v rest = (omega arith, refl, refl, refl)
  unchanged in_attrs i v rest = (refl, omega arith, refl, refl)

  placed-Grew :
      (part : Part) (needed : ℕ) (bytes : Fragment → Option (List ℕ)) (t s : List ℕ) (i : Item)
      (room : Room)
      → length t ≡ needed
      → ((b : Fragment) → bytes b ≡ some t)
      → HasRoom P needed s room
      → Grew P (s ++ t) (HasWritten part 0 i) (placed bytes i room)
  placed-Grew part needed bytes t s i null long given room = room
  placed-Grew part needed bytes t s i (exhausted v) long given (held, gone) = ((s, held), gone)
  placed-Grew part needed bytes t s i (roomy v b rest) long given (held, e, fits, wide) =
      subst (λ o. Grew P (s ++ t) (HasWritten part 0 i) (stored_at i v b rest o)) (sym (given b))
        (
          T.on_store s t b v e held,
          unchanged part i _ _,
          (_, (refl, omega (arith, length-append b.body t), wide)),
        )

  pub put-Grew :
      (part : Part) (needed : ℕ) (bytes : Fragment → Option (List ℕ)) (t s : List ℕ) (i : Item)
      (b : Fragment)
      → length t ≡ needed
      → needed ≤ 256
      → ((b : Fragment) → bytes b ≡ some t)
      → P s i.writer
      → IsWriting i.writer b
      → Grew P (s ++ t) (HasWritten part 0 i) (put K now needed bytes i)
  unfolding put
  put-Grew part needed bytes t s i b long small given held writing =
      placed-Grew part needed bytes t s i _ long given (
        ensure_space-HasRoom K P T now needed i.answers s b i.writer writing
          (omega (arith, large s i.writer held)) held)

  copied-Grew :
      (part : Part) (o : Option Str) (s : List ℕ) (i : Item)
      (r : Option (Bool × Writer × ℕ × List Bool))
      → Copied P s (cut o) (written part i) r
      → Grew P (s ++ cut o) (HasWritten part (length (cut o)) i) (copied part i r)
  copied-Grew part o s i none c = c
  copied-Grew in_args o s i (some (true, v, n, rest)) (k, count, held, inl (_, whole, going)) = (
    subst (λ l. P (s ++ l) v) (ap (λ m. take m (cut o)) whole ∙ take_all (cut o)) held,
    (omega arith, omega arith, refl, refl),
    going,
  )
  copied-Grew in_attrs o s i (some (true, v, n, rest)) (k, count, held, inl (_, whole, going)) = (
    subst (λ l. P (s ++ l) v) (ap (λ m. take m (cut o)) whole ∙ take_all (cut o)) held,
    (omega arith, omega arith, refl, refl),
    going,
  )
  copied-Grew in_args o s i (some (false, v, n, rest)) (k, count, held, inr (_, part, gone)) =
      ((_, held), gone)
  copied-Grew in_attrs o s i (some (false, v, n, rest)) (k, count, held, inr (_, part, gone)) =
      ((_, held), gone)
  copied-Grew part o s i (some (false, v, n, rest)) (k, count, held, inl (e, whole, going)) = cc
  copied-Grew part o s i (some (true, v, n, rest)) (k, count, held, inr (e, few, gone)) = cc

  HasWritten-step :
      (part : Part) (n m : ℕ) (s i j : Item)
      → HasWritten part 0 s i
      → HasWritten part m (add_written part n i) j
      → HasWritten part (n + m) s j
  HasWritten-step in_args n m s i j (a, b, c, d) (a', b', c', d') =
      (omega arith, omega arith, c' ∙ c, d' ∙ d)
  HasWritten-step in_attrs n m s i j (a, b, c, d) (a', b', c', d') =
      (omega arith, omega arith, c' ∙ c, d' ∙ d)

  copy_string-Grew :
      (part : Part) (o : Option Str) (s : List ℕ) (i : Item) (b : Fragment)
      → P s i.writer
      → IsWriting i.writer b
      → Grew P
          (s ++ cut o)
          (HasWritten part (length (cut o)) (add_written part 2 i))
          (copy_string K now part o (add_written part 2 i))
  copy_string-Grew in_args o s i b held writing =
      copied-Grew in_args o s (add_written in_args 2 i) _ (
        copy_fragmented-Copied K P T now i.answers s (cut o) b i.writer (i.args_size + 2) writing
          held)
  copy_string-Grew in_attrs o s i b held writing =
      copied-Grew in_attrs o s (add_written in_attrs 2 i) _ (
        copy_fragmented-Copied K P T now i.answers s (cut o) b i.writer (i.attrs_size + 2) writing
          held)

  pub write_string-Grew :
      (part : Part) (o : Option Str) (s : List ℕ) (i : Item) (b : Fragment)
      → P s i.writer
      → IsWriting i.writer b
      → Grew P
          (s ++ string_bytes o)
          (HasWritten part (2 + length (cut o)) i)
          (write_string K now part o i)
  unfolding write_string
  write_string-Grew part o s i b held writing =
      let long = little_endian 2 (length (cut o)) in
      Grew->>= P (s ++ long) (s ++ string_bytes o) (HasWritten part 0 i) _ _ _
        (put-Grew part 2 _ long s i b refl (omega arith) (λ c. refl) held writing)
        (λ j c held' q writing'.
          subst
            (λ l.
              Grew P l (HasWritten part (2 + length (cut o)) i)
                (copy_string K now part o (add_written part 2 j)))
            (append_assoc s long (cut o))
            (Grew-weaken P _ _ _ _ (copy_string-Grew part o (s ++ long) j c held' writing')
              (λ k h. HasWritten-step part 2 (length (cut o)) i j k q h)))

  put_value-Grew :
      (stale : ℕ → ℕ → List ℕ) (v : Varg) (a : Arg) (s : List ℕ) (i : Item) (b : Fragment)
      → length (arg_bytes a) ≡ v.size
      → v.size < 256
      → ((c : Fragment) → fixed_bytes stale v (some a) c ≡ some (arg_bytes a))
      → P s i.writer
      → IsWriting i.writer b
      → Grew P (s ++ arg_bytes a) (HasWritten in_args (length (arg_bytes a)) i) (
          put K now v.size (fixed_bytes stale v (some a)) i >>= λ s1.
          stepped (add_written in_args v.size s1))
  put_value-Grew stale v a s i b long small given held writing =
      Grew->>= P (s ++ arg_bytes a) (s ++ arg_bytes a) (HasWritten in_args 0 i) _ _ _
        (put-Grew in_args v.size _ (arg_bytes a) s i b long (omega arith) given held writing)
        (λ j c held' (x, y, z, w) writing'.
          (held', (omega arith, omega arith, z, w), (c, writing')))

  write_arg-Grew :
      (stale : ℕ → ℕ → List ℕ) (v : Varg) (a : Arg) (s : List ℕ) (i : Item) (b : Fragment)
      → IsOfType v a
      → P s i.writer
      → IsWriting i.writer b
      → Grew P
          (s ++ arg_bytes a)
          (HasWritten in_args (length (arg_bytes a)) i)
          (write_arg K now stale v (some a) i)
  unfolding write_arg write_text_arg
  write_arg-Grew stale v (string o) s i b e held writing =
      if_cases (Grew P (s ++ string_bytes o) (HasWritten in_args (length (string_bytes o)) i))
        (is_string v) _ _
        (λ text.
          Grew-weaken P _ _ _ _ (write_string-Grew in_args o s i b held writing)
            (λ j (x, y, z, w). (omega arith, y, z, w)))
        (λ other. cc)
  write_arg-Grew stale v (integer n) s i b (e, wide, no_double) held writing =
      if_cases (Grew P (s ++ little_endian 8 n) (HasWritten in_args 8 i)) (is_string v) _ _
        (λ text. cc)
        (λ other.
          put_value-Grew stale v (integer n) s i b (ground (arith, wide)) (ground (arith, wide))
            (λ c. rw (wide, no_double)) held writing)
  write_arg-Grew stale v (double n) s i b (e, wide, is_double) held writing =
      if_cases (Grew P (s ++ little_endian 8 n) (HasWritten in_args 8 i)) (is_string v) _ _
        (λ text. cc)
        (λ other.
          put_value-Grew stale v (double n) s i b (ground (arith, wide)) (ground (arith, wide))
            (λ c. rw (wide, is_double)) held writing)
  write_arg-Grew stale v (long_double bytes) s i b (e, narrow, is_long, fits, small) held writing =
      if_cases (Grew P (s ++ bytes) (HasWritten in_args (length bytes) i)) (is_string v) _ _
        (λ text. cc)
        (λ other.
          put_value-Grew stale v (long_double bytes) s i b (ground (arith, fits)) small
            (λ c. rw (narrow, is_long, fits)) held writing)

  -- A value of the type read is taken from the arguments.
  args_after_lem :
      (v : Varg) (a : Arg) (args : List Arg) → IsOfType v a → args_after v (a ∷ args) ≡ args
  args_after_lem v (string o) args e = rw e
  args_after_lem v (integer n) args (e, wide, no_double) = rw (e, wide)
  args_after_lem v (double n) args (e, wide, is_double) = rw (e, wide)
  args_after_lem v (long_double bytes) args (e, narrow, is_long, fits, small) =
      rw (e, narrow, is_long)

  pub write_args-Grew :
      (stale : ℕ → ℕ → List ℕ) (vs : List Varg) (args : List Arg) (s : List ℕ) (i : Item)
      (b : Fragment)
      → AreOfTypes vs args
      → P s i.writer
      → IsWriting i.writer b
      → Grew P
          (s ++ args_bytes vs args)
          (HasWritten in_args (length (args_bytes vs args)) i)
          (write_args K now stale vs args i)
  unfolding write_args
  write_args-Grew stale [] args s i b fits held writing = (
    subst (λ l. P l i.writer) (sym (append-nil s)) held,
    (omega arith, refl, refl, refl),
    (b, writing),
  )
  write_args-Grew stale (v ∷ vs) [] s i b fits held writing = absurd fits
  write_args-Grew stale (v ∷ vs) (a ∷ args) s i b (fit, fits) held writing =
      let bytes = arg_bytes a in
      Grew->>= P (s ++ bytes) _ (HasWritten in_args (length bytes) i) _ _ _
        (write_arg-Grew stale v a s i b fit held writing)
        (λ j c held' (x, y, z, w) writing'.
          subst
            (λ l.
              Grew P l (HasWritten in_args (length (bytes ++ args_bytes vs args)) i)
                (write_args K now stale vs (args_after v (a ∷ args)) j))
            (append_assoc s bytes (args_bytes vs args))
            (subst
              (λ l.
                Grew P ((s ++ bytes) ++ args_bytes vs args)
                  (HasWritten in_args (length (bytes ++ args_bytes vs args)) i)
                  (write_args K now stale vs l j))
              (sym (args_after_lem v a args fit))
              (Grew-weaken P _ _ _ _
                (write_args-Grew stale vs args (s ++ bytes) j c fits held' writing')
                (λ k (x', y', z', w'). (
                  omega (arith, length-append bytes (args_bytes vs args)),
                  omega arith,
                  z' ∙ z,
                  w' ∙ w,
                )))))
