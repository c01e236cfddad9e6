-- ===== src/Core/Service/History.antt =====
-- Sequences of descriptors through the service buffers of engine/p8_core.cpp, up to their reader.
use p.Prelude.{
  ℕ, suc, ◌+◌, ◌%◌, ◌<◌, ◌≡◌, refl, sym, ap, ◌⊎◌, inl, inr, Option, none, some, List, [], ◌∷◌, ◌++◌,
  arith,
}
use mathlib.Core.Path.{subst}
use mathlib.Core.List.{append_assoc, append-nil}
use p.Kit.{Lst}
use p.Budget.{word}
use p.Core.Descriptor.{AttrDesc, LogDesc, LogMod, MtkDesc}
use p.Core.Service.{
  Svc, buffer_size, serialize_attr_desc, serialize_log_desc, serialize_log_mod, serialize_mtk_desc,
}
use p.Core.Service.Contents.{Holds, read_buffers, read_buffers_lem}
use p.Core.Service.Places.{Took, IsAcquired}
use p.Core.Service.Descriptors.{
  entry_of, attr_size, attr_body, mod_size, mod_body, log_size, log_body, mtk_size, mtk_body,
  serialize_attr_desc-Took, serialize_log_mod-Took, serialize_log_desc-Took,
  serialize_mtk_desc-Took,
}

-- What a registry sends: a metric goes with the blob of its attributes and their number.
pub data Sent : Type 0 where
  sent_attr : AttrDesc → Sent
  sent_site : LogDesc → Sent
  sent_module : LogMod → Sent
  sent_metric : MtkDesc → List ℕ → ℕ → Sent

abbrev pub size_of : Sent → ℕ
size_of (sent_attr d) = attr_size d
size_of (sent_site d) = log_size d
size_of (sent_module m) = mod_size m
size_of (sent_metric d blob count) = mtk_size d blob

abbrev pub entry_for : Sent → List ℕ
entry_for (sent_attr d) = entry_of 2 (attr_size d) (attr_body d)
entry_for (sent_site d) = entry_of 1 (log_size d) (log_body d)
entry_for (sent_module m) = entry_of 6 (mod_size m) (mod_body m)
entry_for (sent_metric d blob count) = entry_of 5 (mtk_size d blob) (mtk_body d blob count)

abbrev pub send_one : Lst → Sent → Option (List ℕ) → Svc → Svc
send_one K (sent_attr d) acquired s = serialize_attr_desc K (some d) acquired s
send_one K (sent_site d) acquired s = serialize_log_desc K (some d) acquired s
send_one K (sent_module m) acquired s = serialize_log_mod K (some m) acquired s
send_one K (sent_metric d blob count) acquired s =
    serialize_mtk_desc K (some d) blob count acquired s

-- Each with the buffer that acquire_buffer would hand out to it.
abbrev pub send_all : Lst → List (Sent × Option (List ℕ)) → Svc → Svc
send_all K [] s = s
send_all K ((d, acquired) ∷ calls) s = send_all K calls (send_one K d acquired s)

abbrev pub AllAcquired : List (Sent × Option (List ℕ)) → Type 0
AllAcquired [] = Unit
AllAcquired ((d, acquired) ∷ calls) = IsAcquired acquired × AllAcquired calls

-- `es` are the entries of the descriptors in order, but for those that found no buffer, whose number
-- is n, and those that are larger than a buffer.
abbrev pub IsSelection : List (Sent × Option (List ℕ)) → List (List ℕ) → ℕ → Type 0
IsSelection [] es n = (es ≡ []) × (n ≡ 0)
IsSelection ((d, acquired) ∷ calls) es n =
    ((rest : List (List ℕ)) × (es ≡ entry_for d ∷ rest) × IsSelection calls rest n)
    ⊎ ((acquired ≡ none) × ((m : ℕ) × (n ≡ suc m) × IsSelection calls es m))
    ⊎ ((buffer_size < size_of d) × IsSelection calls es n)

-- A reader finds the selection, and the core has counted what is missing for want of a buffer.
abbrev pub IsRead : List (Sent × Option (List ℕ)) → Svc → Type 0
IsRead calls t =
    (es : List (List ℕ)) × (n : ℕ) × IsSelection calls es n
    × (read_buffers t.buffers ≡ some es)
    × (t.dropped ≡ n % word)

module _ (K : Lst) where
  send_one-Took :
      (d : Sent) (acquired : Option (List ℕ)) (es : List (List ℕ)) (s : Svc)
      → Holds s.buffers es
      → IsAcquired acquired
      → Took acquired es (entry_for d) s (send_one K d acquired s)
        ⊎ ((buffer_size < size_of d) × (send_one K d acquired s ≡ s))
  send_one-Took (sent_attr d) acquired es s h ok =
      inl (serialize_attr_desc-Took K d acquired es s h ok)
  send_one-Took (sent_site d) acquired es s h ok =
      inl (serialize_log_desc-Took K d acquired es s h ok)
  send_one-Took (sent_module m) acquired es s h ok =
      inl (serialize_log_mod-Took K m acquired es s h ok)
  send_one-Took (sent_metric d blob count) acquired es s h ok =
      elim (serialize_mtk_desc-Took K d blob count acquired es s h ok) [
        | inl (fits, took) ↦ inl took
        | inr (large, same) ↦ inr (large, same)
      ]

  -- The buffers hold what they held and the selection; the drops are counted on.
  abbrev IsSent : List (Sent × Option (List ℕ)) → List (List ℕ) → Svc → Svc → Type 0
  IsSent calls held s t =
      (es : List (List ℕ)) × (n : ℕ) × IsSelection calls es n
      × Holds t.buffers (held ++ es)
      × (t.dropped ≡ (s.dropped + n) % word)

  send_all-IsSent :
      (calls : List (Sent × Option (List ℕ))) (held : List (List ℕ)) (s : Svc)
      → Holds s.buffers held
      → s.dropped < word
      → AllAcquired calls
      → IsSent calls held s (send_all K calls s)
  send_all-IsSent [] held s h small ok =
      ([], 0, (refl, refl), subst (Holds s.buffers) (sym (append-nil held)) h, omega arith)
  send_all-IsSent ((d, acquired) ∷ calls) held s h small (one, ok) =
      let u = send_one K d acquired s in
      elim (send_one-Took d acquired held s h one) [
        | inl (inl (holds, kept)) ↦
            let (es, n, chosen, end, count) =
              send_all-IsSent calls (held ++ entry_for d ∷ []) u holds (omega (arith, kept)) ok in
            (
              entry_for d ∷ es,
              n,
              inl (es, refl, chosen),
              subst (Holds (send_all K calls u).buffers) (append_assoc held (entry_for d ∷ []) es)
                  end,
              omega (arith, count, kept),
            )
        | inl (inr (no_buffer, same, counted)) ↦
            let (es, n, chosen, end, count) =
              send_all-IsSent calls held u (subst (λ b. Holds b held) (sym same) h)
                (omega (arith, counted)) ok in
            (
              es,
              suc n,
              inr (inl (no_buffer, (n, refl, chosen))),
              end,
              omega (arith, count, counted),
            )
        | inr (large, same) ↦
            let (es, n, chosen, end, count) =
              send_all-IsSent calls held u (subst (λ (t : Svc). Holds t.buffers held) (sym same) h)
                (omega (arith, ap (λ (t : Svc). t.dropped) same)) ok in
            (
              es,
              n,
              inr (inr (large, chosen)),
              end,
              omega (arith, count, ap (λ (t : Svc). t.dropped) same),
            )
      ]

  -- Whatever descriptors the registries send in whatever order, and whichever of them a buffer of
  -- the pool's size is handed out to, a reader that walks the service buffers by the sizes in the
  -- headers finds, from empty buffers on, exactly the entries of the descriptors in their order,
  -- but for some for which acquire_buffer had no buffer, whose number modulo 2^64 the core has
  -- counted, and those that are larger than a buffer.
  pub send_all-IsRead :
      (calls : List (Sent × Option (List ℕ)))
      → AllAcquired calls
      → IsRead calls (send_all K calls (record { buffers = []; dropped = 0 }))
  send_all-IsRead calls ok =
      let (es, n, chosen, end, count) =
        send_all-IsSent calls [] (record { buffers = []; dropped = 0 }) refl (omega arith) ok in
      (es, n, chosen, read_buffers_lem _ es end, omega (arith, count))
