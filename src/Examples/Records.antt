-- ===== src/Examples/Records.antt =====
-- A thread with buffers of 8192 bytes: a sample of the metric 1, and the record of a log call with the
-- format "%d", the argument 7 and one string attribute.
use p.Prelude.{
  ℕ, ◌≡◌, refl, Bool, true, Option, some, none, [], ◌∷◌, arith, replicate, length-replicate,
}
use p.Examples.Kit.{lst}
use p.Examples.Formats.{linux}
use p.Format.{varg, arg_int32, arg_stra}
use p.Core.Descriptor.{pos, attr_str, LogDesc, AttrDesc}
use p.Writer.{ensure_space, copy_fragmented}
use p.Writer.Thread.{Thread, Wait, make_ready}
use p.Writer.Thread.Ready.{IsSteady}
use p.Mtk.{emit}
use p.Mtk.Samples.{IsEmitted, emit-IsEmitted}
use p.Log.{integer, string}
use p.Log.Send.{Call, World, Log, header_bytes, send, describe_call}
use p.Log.Calls.{IsCallable, IsOutcome, send-IsOutcome}

abbrev thread : Thread
thread = record {
  writer = record { thread_id = 9; buf_max = 8192; fragments = []; buffer = none; buf_used = 0 };
  dropped = record { logs = 0; metrics = 0; traces = 0 };
  batch = [];
}

abbrev wait : Wait
wait = record { pulled = true; answer = true; start_time = 3 }

thread-IsSteady : IsSteady thread
thread-IsSteady = record { batch = tt; fragments = tt; resting = tt; small = omega arith }

emit-IsEmitted_example :
    IsEmitted true 2 (pos 1) 77 wait 5 thread (emit lst true 2 (pos 1) 77 wait 5 thread)
emit-IsEmitted_example =
    emit-IsEmitted lst true 2 (pos 1) 77 wait 5 thread (omega arith) thread-IsSteady

abbrev desc : LogDesc
desc = record {
  hash = 42;
  format = some (b'%' ∷ b'd' ∷ []);
  file = none;
  function = none;
  line = 10;
  args_count = 1;
  fixed_args_size = 8;
  args = varg arg_int32 8 ∷ [];
}

abbrev label : AttrDesc
label = record { id = pos 0; type = attr_str; name = some (b'k' ∷ []) }

abbrev call : Call
call = record {
  level = 3;
  module_of = none;
  trace_id = 0;
  site = record { file = none; line = 10; function = none; format = desc.format };
  hash = 42;
  attrs = some (record { id = pos 0; str = some (b'v' ∷ []); bits = 0 } ∷ []);
  args = integer 7 ∷ [];
}

abbrev world : World
world = record {
  present = true;
  verbosity = 2;
  wait = wait;
  now = 6;
  answers = [];
  platform = linux;
  made = true;
  acquired = none;
  stale = λ at n. replicate n 0;
}

abbrev log : Log
log = record {
  thread = thread;
  desc_map = (42, desc) ∷ [];
  cache = [];
  registry = record { descs = label ∷ []; name_map = (b'k' ∷ [], pos 0) ∷ [] };
  descs = [];
  svc = record { buffers = []; dropped = 0 };
  released = [];
}

call-IsCallable : IsCallable lst call world desc log
unfolding describe_call
call-IsCallable = record {
  steady = thread-IsSteady;
  large = omega arith;
  small = omega arith;
  cached = (label ∷ [], refl);
  stale = λ at n. length-replicate n 0;
  site = refl;
  typed = ((refl, refl, refl), tt);
}

send-IsOutcome_example : IsOutcome lst call world desc log (send lst call world log)
send-IsOutcome_example = send-IsOutcome lst call world desc log call-IsCallable

abbrev used_after : Option (Bool × Log) → ℕ
used_after none = 0
used_after (some r) = r.1.thread.writer.buf_used

abbrev three_args : LogDesc
three_args = record desc {
  args_count = 3;
  args = varg arg_stra 0 ∷ varg arg_int32 8 ∷ varg arg_stra 0 ∷ [];
}

-- With buffers of 280 bytes, the padding of this record goes three bytes beyond the last buffer.
overruns :
    used_after (
      send lst
        (record call {
          args = string (some (replicate 211 1)) ∷ integer 7 ∷ string (some (replicate 246 2)) ∷ [];
          attrs = none;
        })
        (record world { answers = true ∷ true ∷ [] })
        (record log {
          thread = record thread { writer = record thread.writer { buf_max = 280 } };
          desc_map = (42, three_args) ∷ [];
        }))
    ≡ 283
unfolding send make_ready ensure_space header_bytes copy_fragmented
overruns = refl
