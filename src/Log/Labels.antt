-- ===== src/Log/Labels.antt =====
-- What the attributes of a record append to the writer's buffers.
use p.Prelude.{
  ℕ, zero, suc, ◌+◌, ◌%◌, ◌^◌, ◌≤◌, ◌<◌, ◌≡◌, refl, sym, ap, ◌∙◌, true, false, Option, none, some,
  List, [], ◌∷◌, ◌++◌, ltb, length, get_elem?, arith, if_cases, if◌then◌else◌, length-append,
  length-take,
}
use mathlib.Core.Path.{subst}
use mathlib.Core.List.{append_assoc, append-nil}
use p.Kit.{Lst}
use p.Core.Descriptor.{Str, ℤ, pos, negsuc, attr_str, is_same_type, AttrDesc}
use p.Core.Attributes.{Attrs, at_id}
use p.Core.Attributes.Laws.{sync_attr_cache_lem}
use p.Core.Metrics.{AttrVal, string_of, encode_value}
use p.Core.Service.{little_endian, int32_bytes}
use p.Writer.{Fragment, Writer, hdr_size}
use p.Writer.Trace.{IsWriting, Trace}
use p.Log.{
  Item, ◌>>=◌, in_attrs, add_written, cut, put, write_string, counted, write_attr_value,
  write_known, write_cached, write_attr, write_attrs,
}
use p.Log.Growth.{Grew, Grew->>=, Grew-weaken, HasWritten, string_bytes}
use p.Log.Fields.{put-Grew, write_string-Grew}

-- An attribute as it is sent: its id and its value, or nothing if it is not registered.
abbrev pub known_bytes : Option AttrDesc → AttrVal → List ℕ
known_bytes none v = []
known_bytes (some d) v = int32_bytes v.id ++ encode_value d v

abbrev pub known_count : Option AttrDesc → ℕ
known_count none = 0
known_count (some d) = 1

abbrev pub attrs_bytes : List AttrDesc → List AttrVal → List ℕ
attrs_bytes descs [] = []
attrs_bytes descs (v ∷ vs) = known_bytes (at_id descs v.id) v ++ attrs_bytes descs vs

abbrev pub registered : List AttrDesc → List AttrVal → ℕ
registered descs [] = 0
registered descs (v ∷ vs) = known_count (at_id descs v.id) + registered descs vs

-- A cache that holds the first descriptors of the registry.
abbrev pub IsCache : Attrs → List AttrDesc → Type 0
IsCache registry cache = (rest : List AttrDesc) × (registry.descs ≡ cache ++ rest)

-- From s to i, the attributes grew by n bytes and k attributes.
abbrev pub HasAttrs : Attrs → ℕ → ℕ → Item → Item → Type 0
HasAttrs registry n k s i =
    (i.args_size ≡ s.args_size)
    × (i.attrs_size ≡ s.attrs_size + n)
    × (i.attrs_count ≡ (s.attrs_count + k) % 2 ^ 8)
    × IsCache registry i.cache

HasAttrs-step :
    (registry : Attrs) (n m k l : ℕ) (s i j : Item)
    → HasAttrs registry n k s i
    → HasAttrs registry m l i j
    → HasAttrs registry (n + m) (k + l) s j
HasAttrs-step registry n m k l s i j (a, b, c, d) (a', b', c', d') =
    (a' ∙ a, omega arith, omega arith, d')

length-cut :
    (o : Option Str)
    → length (cut o) ≡ (if ltb 65535 (length (string_of o)) then 65535 else length (string_of o))
length-cut o = ground (
  arith,
  length-take (if ltb 65535 (length (string_of o)) then 65535 else length (string_of o))
      (string_of o),
)

-- The value of a string attribute is sent as a string argument is.
encode_value-string :
    (d : AttrDesc) (v : AttrVal)
    → is_same_type d.type attr_str ≡ true
    → encode_value d v ≡ string_bytes v.str
encode_value-string d v e = rw e (ap (λ n. little_endian 2 n ++ cut v.str) (sym (length-cut v.str)))

encode_value-bits :
    (d : AttrDesc) (v : AttrVal)
    → is_same_type d.type attr_str ≡ false
    → encode_value d v ≡ little_endian 8 v.bits
encode_value-bits d v e = rw e

get_elem?-append :
    (l rest : List AttrDesc) (n : ℕ) (d : AttrDesc)
    → get_elem? l n ≡ some d
    → get_elem? (l ++ rest) n ≡ some d
get_elem?-append [] rest n d e = cc
get_elem?-append (a ∷ l) rest zero d e = e
get_elem?-append (a ∷ l) rest (suc n) d e = get_elem?-append l rest n d e

module _ (K : Lst) (now : ℕ) (P : List ℕ → Writer → Type 0) (T : Trace P)
    (large : (s : List ℕ) (v : Writer) → P s v → hdr_size + 256 ≤ v.buf_max) where
  length-int32_bytes : (n : ℤ) → length (int32_bytes n) ≡ 4
  length-int32_bytes (pos n) = refl
  length-int32_bytes (negsuc n) = refl

  -- A string attribute; its bytes in two parts.
  text_attr-Grew :
      (registry : Attrs) (v : AttrVal) (s : List ℕ) (i : Item) (b : Fragment)
      → IsCache registry i.cache
      → P s i.writer
      → IsWriting i.writer b
      → Grew P
          ((s ++ int32_bytes v.id) ++ string_bytes v.str)
          (HasAttrs registry (4 + length (string_bytes v.str)) 1 i)
          (put K now 4 (λ c. some (int32_bytes v.id)) i >>= λ s1.
            write_string K now in_attrs v.str (add_written in_attrs 4 s1) >>= counted K now)
  text_attr-Grew registry v s i b (rest, cached) held writing =
      Grew->>= P (s ++ int32_bytes v.id) _ (HasWritten in_attrs 0 i) _ _ _
        (put-Grew K now P T large in_attrs 4 _ (int32_bytes v.id) s i b (length-int32_bytes v.id)
          (omega arith) (λ c. refl) held writing)
        (λ j c held' (x, y, z, w) writing'.
          Grew->>= P ((s ++ int32_bytes v.id) ++ string_bytes v.str) _
            (HasWritten in_attrs (2 + length (cut v.str)) (add_written in_attrs 4 j)) _ _ _
            (write_string-Grew K now P T large in_attrs v.str (s ++ int32_bytes v.id)
              (add_written in_attrs 4 j) c held' writing')
            (λ k f held'' (x', y', z', w') writing''. (
              held'',
              (
                x' ∙ x,
                omega arith,
                omega arith,
                (rest, cached ∙ ap (λ l. l ++ rest) (sym (w' ∙ w))),
              ),
              (f, writing''),
            )))

  plain_attr-Grew :
      (registry : Attrs) (v : AttrVal) (s : List ℕ) (i : Item) (b : Fragment)
      → IsCache registry i.cache
      → P s i.writer
      → IsWriting i.writer b
      → Grew P (s ++ (int32_bytes v.id ++ little_endian 8 v.bits)) (HasAttrs registry 12 1 i) (
          put K now 12 (λ c. some (int32_bytes v.id ++ little_endian 8 v.bits)) i >>= λ s1.
          counted K now (add_written in_attrs 12 s1))
  plain_attr-Grew registry v s i b (rest, cached) held writing =
      let bytes = int32_bytes v.id ++ little_endian 8 v.bits in
      Grew->>= P (s ++ bytes) (s ++ bytes) (HasWritten in_attrs 0 i) _ _ _
        (put-Grew K now P T large in_attrs 12 _ bytes s i b
          (omega (
            arith,
            length-append (int32_bytes v.id) (little_endian 8 v.bits),
            length-int32_bytes v.id,
          ))
          (omega arith) (λ c. refl) held writing)
        (λ j c held' (x, y, z, w) writing'. (
          held',
          (x, omega arith, omega arith, (rest, cached ∙ ap (λ l. l ++ rest) (sym w))),
          (c, writing'),
        ))

  -- A registered attribute.
  write_attr_value-Grew :
      (registry : Attrs) (d : AttrDesc) (v : AttrVal) (s : List ℕ) (i : Item) (b : Fragment)
      → IsCache registry i.cache
      → P s i.writer
      → IsWriting i.writer b
      → Grew P
          (s ++ known_bytes (some d) v)
          (HasAttrs registry (length (known_bytes (some d) v)) 1 i)
          (write_attr_value K now d v i)
  unfolding write_attr_value
  write_attr_value-Grew registry d v s i b cached held writing =
      if_cases
        (Grew P (s ++ known_bytes (some d) v)
          (HasAttrs registry (length (known_bytes (some d) v)) 1 i))
        (is_same_type d.type attr_str) _ _
        (λ text.
          subst
            (λ l.
              Grew P (s ++ (int32_bytes v.id ++ l))
                (HasAttrs registry (length (int32_bytes v.id ++ l)) 1 i)
                (put K now 4 (λ c. some (int32_bytes v.id)) i >>= λ s1.
                  write_string K now in_attrs v.str (add_written in_attrs 4 s1) >>= counted K now))
            (sym (encode_value-string d v text))
            (subst
              (λ l.
                Grew P l (HasAttrs registry (length (int32_bytes v.id ++ string_bytes v.str)) 1 i) (
                  put K now 4 (λ c. some (int32_bytes v.id)) i >>= λ s1.
                  write_string K now in_attrs v.str (add_written in_attrs 4 s1) >>= counted K now))
              (append_assoc s (int32_bytes v.id) (string_bytes v.str))
              (Grew-weaken P _ _ _ _ (text_attr-Grew registry v s i b cached held writing)
                (λ j (x, y, z, w). (
                  x,
                  omega (
                    arith,
                    length-append (int32_bytes v.id) (string_bytes v.str),
                    length-int32_bytes v.id,
                  ),
                  z,
                  w,
                )))))
        (λ other.
          subst
            (λ l.
              Grew P (s ++ (int32_bytes v.id ++ l))
                (HasAttrs registry (length (int32_bytes v.id ++ l)) 1 i)
                (put K now 12 (λ c. some (int32_bytes v.id ++ little_endian 8 v.bits)) i >>= λ s1.
                  counted K now (add_written in_attrs 12 s1)))
            (sym (encode_value-bits d v other))
            (Grew-weaken P _ _ _ _ (plain_attr-Grew registry v s i b cached held writing)
              (λ j (x, y, z, w). (
                x,
                omega (
                  arith,
                  length-append (int32_bytes v.id) (little_endian 8 v.bits),
                  length-int32_bytes v.id,
                ),
                z,
                w,
              ))))

  write_known-Grew :
      (registry : Attrs) (o : Option AttrDesc) (v : AttrVal) (s : List ℕ) (i : Item) (b : Fragment)
      → i.attrs_count < 2 ^ 8
      → IsCache registry i.cache
      → P s i.writer
      → IsWriting i.writer b
      → Grew P
          (s ++ known_bytes o v)
          (HasAttrs registry (length (known_bytes o v)) (known_count o) i)
          (write_known K now o v i)
  unfolding write_known
  write_known-Grew registry none v s i b few cached held writing = (
    subst (λ l. P l i.writer) (sym (append-nil s)) held,
    (refl, omega arith, omega arith, cached),
    (b, writing),
  )
  write_known-Grew registry (some d) v s i b few cached held writing =
      write_attr_value-Grew registry d v s i b cached held writing

  write_cached-Grew :
      (registry : Attrs) (n : ℕ) (v : AttrVal) (s : List ℕ) (i : Item) (b : Fragment)
      → i.attrs_count < 2 ^ 8
      → (rest : List AttrDesc) → registry.descs ≡ i.cache ++ rest
      → P s i.writer
      → IsWriting i.writer b
      → (q : Option AttrDesc) → get_elem? i.cache n ≡ q
      → let o = get_elem? registry.descs n in
        Grew P
          (s ++ known_bytes o v)
          (HasAttrs registry (length (known_bytes o v)) (known_count o) i)
          (write_cached K now registry n v i q)
  unfolding write_cached write_known
  write_cached-Grew registry n v s i b few rest cached held writing (some d) e =
      subst
        (λ o.
          Grew P (s ++ known_bytes o v)
            (HasAttrs registry (length (known_bytes o v)) (known_count o) i)
            (write_known K now (some d) v i))
        (sym (ap (λ l. get_elem? l n) cached ∙ get_elem?-append i.cache rest n d e))
        (write_known-Grew registry (some d) v s i b few (rest, cached) held writing)
  write_cached-Grew registry n v s i b few rest cached held writing none e =
      let synced = sync_attr_cache_lem registry i.cache rest cached in
      subst
        (λ cache.
          Grew P (s ++ known_bytes (get_elem? registry.descs n) v)
            (HasAttrs registry (length (known_bytes (get_elem? registry.descs n) v))
              (known_count (get_elem? registry.descs n)) i)
            (write_known K now (get_elem? cache n) v (record i { cache = cache })))
        (sym synced)
        (write_known-Grew registry (get_elem? registry.descs n) v s
          (record i { cache = registry.descs }) b few ([], sym (append-nil registry.descs)) held
          writing)

  write_attr-Grew :
      (registry : Attrs) (v : AttrVal) (id : ℤ) (s : List ℕ) (i : Item) (b : Fragment)
      → i.attrs_count < 2 ^ 8
      → IsCache registry i.cache
      → P s i.writer
      → IsWriting i.writer b
      → let o = at_id registry.descs id in
        Grew P
          (s ++ known_bytes o v)
          (HasAttrs registry (length (known_bytes o v)) (known_count o) i)
          (write_attr K now registry v id i)
  unfolding write_attr
  write_attr-Grew registry v (negsuc n) s i b few cached held writing =
      write_known-Grew registry none v s i b few cached held writing
  write_attr-Grew registry v (pos n) s i b few (rest, cached) held writing =
      write_cached-Grew registry n v s i b few rest cached held writing (get_elem? i.cache n) refl

  pub write_attrs-Grew :
      (registry : Attrs) (vs : List AttrVal) (s : List ℕ) (i : Item) (b : Fragment)
      → i.attrs_count < 2 ^ 8
      → IsCache registry i.cache
      → P s i.writer
      → IsWriting i.writer b
      → Grew P
          (s ++ attrs_bytes registry.descs vs)
          (HasAttrs registry
            (length (attrs_bytes registry.descs vs))
            (registered registry.descs vs)
            i)
          (write_attrs K now registry vs i)
  unfolding write_attrs
  write_attrs-Grew registry [] s i b few cached held writing = (
    subst (λ l. P l i.writer) (sym (append-nil s)) held,
    (refl, omega arith, omega arith, cached),
    (b, writing),
  )
  write_attrs-Grew registry (v ∷ vs) s i b few cached held writing =
      let o = at_id registry.descs v.id in
      let bytes = known_bytes o v in
      let more = attrs_bytes registry.descs vs in
      Grew->>= P (s ++ bytes) _ (HasAttrs registry (length bytes) (known_count o) i) _ _ _
        (write_attr-Grew registry v v.id s i b few cached held writing)
        (λ j c held' q writing'.
          subst
            (λ l.
              Grew P l
                (HasAttrs registry (length (bytes ++ more))
                  (known_count o + registered registry.descs vs) i)
                (write_attrs K now registry vs j))
            (append_assoc s bytes more)
            (Grew-weaken P _ _ _ _
              (write_attrs-Grew registry vs (s ++ bytes) j c (omega arith) q.3 held' writing')
              (λ k h.
                let r =
                  HasAttrs-step registry (length bytes) (length more) (known_count o)
                    (registered registry.descs vs) i j k q h in
                (r.0, omega (arith, length-append bytes more), r.2, r.3))))
