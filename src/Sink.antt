-- ===== src/Sink.antt =====
-- engine/p8_sink.hpp: the consumer of finished buffers. Its two implementations are the children.
pub mod File
pub mod Null
use p.Prelude.{ℕ, List}

-- A data buffer as the sink reads it: its header's mu_size, and its memory, the header included.
pub record DataBuf : Type 0 where
  pub size : ℕ
  pub memory : List ℕ

-- s_p8_svc_buf
pub record SvcBuf : Type 0 where
  pub memory : List ℕ
  pub used : ℕ

-- sizeof(s_p8_hdr)
abbrev pub hello_size : ℕ
hello_size = 568
