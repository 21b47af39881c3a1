-- ===== src/StreamBuf/Tests.antt =====
-- A source of ten bytes that returns three at a time, read ahead by two buffers.
use varc.Base.{
  ℕ, ◌+◌, ◌-◌, ◌≡◌, refl, ap, sym, arith, false, not, ◌||◌, none, some, List, [], ◌∷◌, min, ltb,
  ◌==◌, if◌then◌else◌,
}
use varc.ObjectIo.{eof}
use varc.StreamBuf.{soft_start_initial, Input, StreamReader, new_stream, produce, read, read_fill}
use varc.StreamBuf.Produced.{segment, length-segment, IsInput}
use varc.StreamBuf.Calls.{produces, notices_exit, stops, reads, StreamCall, stream_run, has_step}
use varc.StreamBuf.Fifo.{IsStream, stream_run-fifo}

abbrev origin : ℕ → ℕ
origin x = x + 100

abbrev ten_bytes : Input ℕ
ten_bytes = record {
  read = λ p n.
      let m = min 3 (min n (10 - p)) in
      (p + m, segment origin p m, if ltb 0 m then none else (if n == 0 then none else some eof));
  close = λ p. (p, none);
}

ten_bytes-IsInput : IsInput origin (λ p. p) ten_bytes
ten_bytes-IsInput = record {
  takes = λ p n.
      let e = length-segment origin p (min 3 (min n (10 - p))) in
      record { moves = omega (arith, e); bytes = ap (segment origin p) (sym e) };
  few = λ p n. omega (arith, length-segment origin p (min 3 (min n (10 - p))));
  progress = λ p n positive h. ground (arith, h, length-segment origin p (min 3 (min n (10 - p))));
}

abbrev stream : StreamReader ℕ
stream = record {
  world = 4;
  ready = [];
  tokens = 2;
  exit = false;
  exited = false;
  err = none;
  cur = none;
  size = soft_start_initial;
  closed = false;
  taken = 0;
  returned = 0;
}

abbrev calls : List StreamCall
calls = reads 2 ∷ produces ∷ reads 2 ∷ reads 9 ∷ produces ∷ stops ∷ notices_exit ∷ []

stream_run-fifo_example :
    let r = stream_run ten_bytes stream calls in
    IsStream origin (λ p. p) 4 2 r.1 r.0
    × (has_step (produce ten_bytes r.0) ≡ not (r.0.exited || (r.0.tokens == 0)))
unfolding new_stream
stream_run-fifo_example =
    stream_run-fifo origin (λ p. p) ten_bytes 4 2 stream calls ten_bytes-IsInput refl

stream_run_test :
    (stream_run ten_bytes stream (produces ∷ reads 2 ∷ reads 9 ∷ [])).1
    ≡ 104 ∷ 105 ∷ 106 ∷ 107 ∷ 108 ∷ 109 ∷ []
unfolding produce read_fill read
stream_run_test = refl
