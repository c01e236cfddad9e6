-- ===== src/Sink/File/Contents.antt =====
-- What a batch leaves in the file.
use mathlib.Core.List.{append-nil, append_assoc}
use mathlib.Core.Path.{subst}
use p.Prelude.{
  ℕ, zero, suc, ◌+◌, ◌≤◌, ◌<◌, ◌≡◌, refl, sym, ap, ◌∙◌, inl, inr, min, Bool, true, false, Option,
  none, some, some_eq, List, [], ◌∷◌, ◌++◌, ◌==◌, if◌then◌else◌, ==_iff, length, take, drop, arith,
  Bool-cases, All, length-append, length-take,
}
use p.Kit.{Iovec, total_size, gather, iov_max, FileApi}
use p.Budget.{word}
use p.Sink.{DataBuf}
use p.Sink.File.{
  FileSink, Counters, account, max_iov, chunk_size, data_iovecs, write_loop, write_entries,
  write_data, to_data, drop_all, drop_batch, grow_iov,
}
use p.Sink.File.Accounting.{
  counted, Sent, total_size-split, chunk_size_lem, account-counted, write_loop_round,
  write_loop_end, write_loop-Sent, length-drop_lt,
}

-- Every entry's memory holds the bytes that it sends.
abbrev pub Backed : Iovec → Type 0
Backed v = v.size ≤ length v.memory

gather-split : (n : ℕ) (vs : List Iovec) → gather (take n vs) ++ gather (drop n vs) ≡ gather vs
gather-split zero vs = refl
gather-split (suc n) [] = refl
gather-split (suc n) (v ∷ vs) =
    append_assoc (take v.size v.memory) (gather (take n vs)) (gather (drop n vs))
    ∙ ap (◌++◌ (take v.size v.memory)) (gather-split n vs)

length-gather : (vs : List Iovec) → All Backed vs → length (gather vs) ≡ total_size vs
length-gather [] h = refl
length-gather (v ∷ vs) h = omega (
  arith,
  length-append (take v.size v.memory) (gather vs),
  length-take v.size v.memory,
  length-gather vs h.1,
)

All-take : (n : ℕ) (vs : List Iovec) → All Backed vs → All Backed (take n vs)
All-take zero vs h = tt
All-take (suc n) [] h = tt
All-take (suc n) (v ∷ vs) h = (h.0, All-take n vs h.1)

All-drop : (n : ℕ) (vs : List Iovec) → All Backed vs → All Backed (drop n vs)
All-drop zero vs h = h
All-drop (suc n) [] h = tt
All-drop (suc n) (v ∷ vs) h = All-drop n vs h.1

take_all : (n : ℕ) (bs : List ℕ) → length bs ≤ n → take n bs ≡ bs
take_all zero [] h = refl
take_all zero (b ∷ bs) h = absurd (omega arith)
take_all (suc n) [] h = refl
take_all (suc n) (b ∷ bs) h = ap (◌∷◌ b) (take_all n bs (omega arith))

length-zero : (bs : List ℕ) → length bs ≡ 0 → bs ≡ []
length-zero [] h = refl
length-zero (b ∷ bs) h = absurd (omega arith)

gather_none : (vs : List Iovec) → All Backed vs → total_size vs ≡ 0 → gather vs ≡ []
gather_none vs backed h = length-zero (gather vs) (length-gather vs backed ∙ h)

went_on :
    (sent size : ℕ) (ok : Bool) {P : Type 0}
    → ((true ≡ true) → ((if sent == size then ok else false) ≡ true) × P)
    → sent ≡ size
went_on sent size ok h = ground (arith, (h refl).0)

module _ (F : FileApi) where
  -- One chunk that was sent whole.
  chunk_contents :
      (f : F.Handle) (vs : List Iovec)
      → All Backed vs
      → length vs ≤ iov_max
      → (F.write_v f vs).0 ≡ total_size vs
      → F.contents (F.write_v f vs).1 ≡ F.contents f ++ gather vs
  chunk_contents f vs h few full =
      F.write_v_appends f vs few
      ∙ ap (λ n. F.contents f ++ take n (gather vs)) full
      ∙ ap (◌++◌ (F.contents f))
          (take_all (total_size vs) (gather vs) (omega (arith, length-gather vs h)))

  write_loop-contents :
      (fuel : ℕ) (f g : F.Handle) (vs : List Iovec) (ok : Bool) (c c' : Counters)
      → length vs ≤ fuel
      → counted c + total_size vs < word
      → All Backed vs
      → write_loop F fuel f vs ok c ≡ some (true, g, c')
      → F.contents g ≡ F.contents f ++ gather vs
  write_loop-contents fuel f g [] ok c c' h room backed e =
      let same = some_eq (sym (write_loop_end F fuel f ok c) ∙ e) in
      ap (λ r. F.contents r.1) (sym same) ∙ sym (append-nil (F.contents f))
  write_loop-contents zero f g (v ∷ vs) ok c c' h room backed e = absurd (omega arith)
  write_loop-contents (suc fuel) f g (v ∷ vs) ok c c' h room backed e =
      let n = min max_iov (length (v ∷ vs)) in
      let chunk = take n (v ∷ vs) in
      let rest = drop n (v ∷ vs) in
      let split = total_size-split n (v ∷ vs) in
      let sent = F.write_v f chunk in
      let limit = F.write_v_limit f chunk in
      let size = chunk_size_lem chunk 0 (omega (arith, split)) in
      let so_far = account-counted (total_size chunk) sent.0 c limit (omega (arith, split)) in
      let ok' = if sent.0 == total_size chunk then ok else false in
      let c2 = account (total_size chunk) sent.0 c in
      let fits = length-drop_lt v vs fuel h in
      let room' : counted c2 + total_size rest < word = omega (arith, split, so_far.0) in
      let e' =
        sym (write_loop_round F fuel f v vs ok c (total_size chunk) (size ∙ omega arith)) ∙ e in
      let whole =
        went_on sent.0 (total_size chunk) ok
          (subst (Sent (total_size rest) ok' c2) e'
            (write_loop-Sent F fuel sent.1 rest ok' c2 fits room')).2 in
      let few : length chunk ≤ iov_max = omega (arith, length-take n (v ∷ vs)) in
      write_loop-contents fuel sent.1 g rest ok' c2 c' fits room' (All-drop n (v ∷ vs) backed) e'
      ∙ ap (λ bs. bs ++ gather rest) (chunk_contents f chunk (All-take n (v ∷ vs) backed) few whole)
      ∙ append_assoc (F.contents f) (gather chunk) (gather rest)
      ∙ ap (◌++◌ (F.contents f)) (gather-split n (v ∷ vs))

  -- A batch that was sent whole is in the file: its bytes follow what the file held, in order.
  pub write_entries-contents :
      (f g : F.Handle) (vs : List Iovec) (c c' : Counters)
      → counted c + total_size vs < word
      → All Backed vs
      → write_entries F f vs (total_size vs) c ≡ some (true, g, c')
      → F.contents g ≡ F.contents f ++ gather vs
  unfolding write_entries
  write_entries-contents f g vs c c' room backed e = elim (Bool-cases (total_size vs == 0)) [
    | inl nothing ↦
        let same = some_eq (rw nothing at e) in
        ap (λ r. F.contents r.1) (sym same)
        ∙ sym (append-nil (F.contents f))
        ∙ ap (◌++◌ (F.contents f)) (sym (gather_none vs backed ((==_iff _ _).0 nothing)))
    | inr something ↦ elim (Bool-cases (F.is_open f)) [
      | inl opened ↦
          write_loop-contents (length vs) f g vs true c c' (omega arith) room backed
            (rw (something, opened) at e)
      | inr closed ↦ let wrong = some_eq (rw (something, closed) at e) in cc (ap (λ r. r.0) wrong)
    ]
  ]

  to_data-some :
      (r : Option (Bool × F.Handle × Counters)) (t s' : FileSink F)
      → to_data F r t ≡ some (true, s')
      → r ≡ some (true, s'.data_file, s'.counters)
  to_data-some none t s' e = absurd (ground (arith, e))
  to_data-some (some (ok, f, c)) t s' e =
      let same = some_eq e in ap (λ q. some (q.0, q.1.data_file, q.1.counters)) same

  drop_all-true :
      (total : ℕ) (s s' : FileSink F)
      → drop_all F total s ≡ (true, s')
      → (total ≡ 0) × (s'.data_file ≡ s.data_file)
  unfolding drop_all drop_batch
  drop_all-true total s s' e = elim (Bool-cases (total == 0)) [
    | inl nothing ↦
        let same = rw nothing at e in ((==_iff _ _).0 nothing, sym (ap (λ r. r.1.data_file) same))
    | inr something ↦ let wrong = rw something at e in cc (ap (λ r. r.0) wrong)
  ]

  grow_iov_file :
      (ok : Bool) (n : ℕ) (s : FileSink F)
      → ((grow_iov F ok n s).1.data_file ≡ s.data_file)
        × ((grow_iov F ok n s).1.counters ≡ s.counters)
  unfolding grow_iov
  grow_iov_file ok n s = ground arith

  write_data_nil :
      (realloc_ok : Bool) (s : FileSink F) → write_data F realloc_ok [] s ≡ some (true, s)
  unfolding write_data
  write_data_nil realloc_ok s = refl

  write_data_cons :
      (realloc_ok : Bool) (b : DataBuf) (bufs : List DataBuf) (s : FileSink F)
      → let grown = grow_iov F realloc_ok (length (b ∷ bufs)) s in
        let vs = data_iovecs (b ∷ bufs) in
        let total = chunk_size vs 0 in
        write_data F realloc_ok (b ∷ bufs) s ≡ (
          if grown.0
          then to_data F (write_entries F grown.1.data_file vs total grown.1.counters) grown.1
          else some (drop_all F total grown.1))
  unfolding write_data
  write_data_cons realloc_ok b bufs s =
      let some_buffers : (length (b ∷ bufs) == 0) ≡ false = ground arith in rw some_buffers refl

  -- The batch, after the list of entries was made large enough or was not.
  sent_or_dropped :
      (grown : Bool) (t s' : FileSink F) (vs : List Iovec)
      → counted t.counters + total_size vs < word
      → All Backed vs
      → (if grown
          then to_data F (write_entries F t.data_file vs (total_size vs) t.counters) t
          else some (drop_all F (total_size vs) t))
        ≡ some (true, s')
      → F.contents s'.data_file ≡ F.contents t.data_file ++ gather vs
  sent_or_dropped true t s' vs room backed e =
      write_entries-contents t.data_file s'.data_file vs t.counters s'.counters room backed
        (to_data-some _ t s' e)
  sent_or_dropped false t s' vs room backed e =
      let none_sent = drop_all-true (total_size vs) t s' (some_eq e) in
      ap F.contents none_sent.1
      ∙ sym (append-nil (F.contents t.data_file))
      ∙ ap (◌++◌ (F.contents t.data_file)) (sym (gather_none vs backed none_sent.0))

  -- Whenever write_data of the file sink returns true, the data file holds what it held, followed
  -- by the bytes of every buffer of the batch, up to its header's size, in order, if the counters
  -- have room for the batch and every buffer holds as many bytes as its header says.
  pub write_data-contents :
      (realloc_ok : Bool) (bufs : List DataBuf) (s s' : FileSink F)
      → counted s.counters + total_size (data_iovecs bufs) < word
      → All Backed (data_iovecs bufs)
      → write_data F realloc_ok bufs s ≡ some (true, s')
      → F.contents s'.data_file ≡ F.contents s.data_file ++ gather (data_iovecs bufs)
  write_data-contents realloc_ok [] s s' room backed e =
      ap (λ q. F.contents q.1.data_file) (sym (some_eq (sym (write_data_nil realloc_ok s) ∙ e)))
      ∙ sym (append-nil (F.contents s.data_file))
  write_data-contents realloc_ok (b ∷ bufs) s s' room backed e =
      let vs = data_iovecs (b ∷ bufs) in
      let same = grow_iov_file realloc_ok (length (b ∷ bufs)) s in
      let grown = grow_iov F realloc_ok (length (b ∷ bufs)) s in
      let size = chunk_size_lem vs 0 (omega arith) ∙ omega arith in
      sent_or_dropped grown.0 grown.1 s' vs
        (subst (λ c. counted c + total_size vs < word) (sym same.1) room) backed
        (subst
          (λ n.
            (if grown.0
              then to_data F (write_entries F grown.1.data_file vs n grown.1.counters) grown.1
              else some (drop_all F n grown.1))
            ≡ some (true, s'))
          size (sym (write_data_cons realloc_ok b bufs s) ∙ e))
      ∙ ap (λ h. F.contents h ++ gather vs) same.0
