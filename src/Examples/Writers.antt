-- ===== src/Examples/Writers.antt =====
-- A writer with buffers of 26 bytes, of which 24 are the header.
use p.Prelude.{refl, true, false, some, [], ◌∷◌, arith}
use p.Examples.Kit.{lst}
use p.Writer.{Fragment, Writer, copy_fragmented, pull}
use p.Writer.Trace.{IsWriting}
use p.Writer.Fragments.{IsCopied, copy_fragmented-IsCopied}
use p.Writer.Pull.{IsPulled, pull-IsPulled}

abbrev first : Fragment
first = record {
  packet_type = 1;
  flags = 0;
  size = 25;
  thread_id = 9;
  start_time = 5;
  stop_time = 0;
  body = 7 ∷ [];
}

abbrev writer : Writer
writer = record { thread_id = 9; buf_max = 26; fragments = []; buffer = some first; buf_used = 25 }

writer-IsWriting : IsWriting writer first
writer-IsWriting = (refl, omega arith, omega arith)

-- Five bytes, with one more buffer given and a second refused: three of them are copied.
copy_fragmented-IsCopied_example :
    IsCopied
      (1 ∷ 2 ∷ 3 ∷ 4 ∷ 5 ∷ [])
      0
      writer
      (copy_fragmented lst 6 (true ∷ false ∷ []) (1 ∷ 2 ∷ 3 ∷ 4 ∷ 5 ∷ []) writer 0)
copy_fragmented-IsCopied_example =
    copy_fragmented-IsCopied lst 6 (true ∷ false ∷ []) (1 ∷ 2 ∷ 3 ∷ 4 ∷ 5 ∷ []) first writer 0
      writer-IsWriting

pull-IsPulled_example : IsPulled (first ∷ []) writer (pull lst (first ∷ []) writer)
pull-IsPulled_example = pull-IsPulled lst (first ∷ []) writer
