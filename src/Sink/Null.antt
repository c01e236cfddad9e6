-- ===== src/Sink/Null.antt =====
-- engine/p8_sink_null.cpp: accepts every buffer and counts its bytes.
use p.Prelude.{ℕ, ◌+◌, ◌%◌, ◌≡◌, Bool, true, List, [], ◌∷◌, arith}
use p.Budget.{word}
use p.Sink.{DataBuf, SvcBuf, hello_size}

-- mu_total as the bit pattern of an int64_t.
pub record NullSink : Type 0 where
  pub total : ℕ

unfoldable pub open_sink : NullSink → Bool × NullSink
open_sink s = (true, record { total = 0 })

unfoldable pub write_hello : NullSink → Bool × NullSink
write_hello s = (true, record { total = (s.total + hello_size) % word })

unfoldable pub count_data : List DataBuf → NullSink → NullSink
count_data [] s = s
count_data (b ∷ bufs) s = count_data bufs (record { total = (s.total + b.size) % word })

unfoldable pub write_data : List DataBuf → NullSink → Bool × NullSink
unfolding count_data
write_data bufs s = (true, count_data bufs s)

unfoldable pub count_service : List SvcBuf → NullSink → NullSink
count_service [] s = s
count_service (b ∷ bufs) s = count_service bufs (record { total = (s.total + b.used) % word })

unfoldable pub write_service : List SvcBuf → NullSink → Bool × NullSink
unfolding count_service
write_service bufs s = (true, count_service bufs s)

-- `flush` is empty.
unfoldable pub flush : NullSink → NullSink
flush s = s

abbrev pub sizes : List DataBuf → ℕ
sizes [] = 0
sizes (b ∷ bufs) = b.size + sizes bufs

abbrev pub used_sizes : List SvcBuf → ℕ
used_sizes [] = 0
used_sizes (b ∷ bufs) = b.used + used_sizes bufs

count_data_lem :
    (bufs : List DataBuf) (s : NullSink)
    → (count_data bufs s).total % word ≡ (s.total + sizes bufs) % word
unfolding count_data
count_data_lem [] s = omega arith
count_data_lem (b ∷ bufs) s =
    omega (arith, count_data_lem bufs (record { total = (s.total + b.size) % word }))

count_service_lem :
    (bufs : List SvcBuf) (s : NullSink)
    → (count_service bufs s).total % word ≡ (s.total + used_sizes bufs) % word
unfolding count_service
count_service_lem [] s = omega arith
count_service_lem (b ∷ bufs) s =
    omega (arith, count_service_lem bufs (record { total = (s.total + b.used) % word }))

-- After open, the hello, a service batch and a data batch, the total of the null sink is the
-- number of bytes written, modulo 2^64.
pub session_total :
    (s : NullSink) (svc : List SvcBuf) (bufs : List DataBuf)
    → (write_data bufs (write_service svc (write_hello (open_sink s).1).1).1).1.total % word
      ≡ (hello_size + used_sizes svc + sizes bufs) % word
unfolding write_data write_service write_hello open_sink
session_total s svc bufs = omega (
  arith,
  count_data_lem bufs (count_service svc (record { total = (0 + hello_size) % word })),
  count_service_lem svc (record { total = (0 + hello_size) % word }),
)
