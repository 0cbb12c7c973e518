-- ===== src/Wal/Tests.antt =====
-- The log on concrete inputs: records of one byte.
use queue_as_a_service.Base.{
  ℕ, zero, suc, ◌≤◌, ◌%◌, ◌≡◌, ◌≢◌, inl, refl, [], ◌∷◌, ◌++◌, Option, none, some, arith, take, drop,
  length,
}
use queue_as_a_service.Wal.{
  Bytes, Codec, Reads, replay, ok, synced, torn, append, open_log, frame, from_le_bytes,
  to_le_bytes,
}
use queue_as_a_service.Wal.Framing.{reads}
use queue_as_a_service.Log
use queue_as_a_service.Log.{empty}
use queue_as_a_service.Wal.Refinement.{
  Op, adding, reopening, IsDetected, valid, opened, io_of, io_of_write, result_of, run_file,
  run_log, run-refines,
}
use queue_as_a_service.Base.{List, inr, length-drop}
use queue_as_a_service.Wal.Ending.{Ended, open_log-terminates}
use queue_as_a_service.Wal.Crash.{frames, IsTorn, append_durable, append-torn_lost}

abbrev decode_byte : Bytes → Option ℕ
decode_byte [] = none
decode_byte (b ∷ bs) = some b

decode_byte_lem :
    (t : ℕ) (payload : Bytes) → some (t ∷ []) ≡ some payload → decode_byte payload ≡ some t
decode_byte_lem t payload h = ground (arith, h)

abbrev codec : Codec ℕ
codec = record {
  encode = λ n. some (n ∷ []);
  decode = decode_byte;
  hash = λ payload. from_le_bytes payload % 4294967296;
  decode-encode = decode_byte_lem;
  hash-lt = λ payload. omega arith;
}

abbrev sizes : ℕ → ℕ → ℕ
sizes i wanted = 2

abbrev tail : Bytes
tail = 1 ∷ 0 ∷ []

IsTorn-tail : IsTorn codec tail
IsTorn-tail = inl (omega arith)

-- The second read of a file may fail.
abbrev failing : ℕ → Reads
failing zero wanted = some 2
failing (suc i) wanted = none

open_log-terminates_example :
    Ended
      (λ r. r.1 ≤ length (frames codec ((4, 4 ∷ []) ∷ []) ++ tail))
      (replay codec failing (some (frames codec ((4, 4 ∷ []) ∷ []) ++ tail)))
    × Ended
        (λ r. r.0 ≡ take (length r.0) (frames codec ((4, 4 ∷ []) ∷ []) ++ tail))
        (open_log codec failing (some (frames codec ((4, 4 ∷ []) ∷ []) ++ tail)))
open_log-terminates_example =
    open_log-terminates codec failing (frames codec ((4, 4 ∷ []) ∷ []) ++ tail)

append_durable_example :
    ((append codec synced 5 (frames codec ((4, 4 ∷ []) ∷ []))).1 ≡ ok tt)
    × (open_log codec
          (reads sizes)
          (some ((append codec synced 5 (frames codec ((4, 4 ∷ []) ∷ []))).0 ++ tail))
        ≡ ok (frames codec ((4, 4 ∷ []) ∷ []) ++ frame codec (5 ∷ []), 4 ∷ 5 ∷ []))
append_durable_example =
    append_durable codec sizes ((4, 4 ∷ []) ∷ []) 5 (5 ∷ []) ((refl, omega arith), tt)
      (refl, omega arith) tail IsTorn-tail

mixed_hash :
    codec.hash (take 1 (drop 8 (take 8 (frame codec (5 ∷ [])) ++ frame codec (6 ∷ [])))) ≡ 1
unfolding frame to_le_bytes from_le_bytes take drop
mixed_hash = refl

length-frame : length (frame codec (5 ∷ [])) ≡ 9
unfolding frame to_le_bytes
length-frame = refl

-- The byte that is read as the payload is the first of the next frame.
mixed_differs :
    codec.hash (take 1 (drop 8 (take 8 (frame codec (5 ∷ [])) ++ frame codec (6 ∷ []))))
    ≢ codec.hash (5 ∷ [])
unfolding frame to_le_bytes from_le_bytes
mixed_differs e = ground (arith, mixed_hash, e)

append-torn_lost_example :
    ((append codec synced 6 (append codec (torn 8) 5 (frames codec ((4, 4 ∷ []) ∷ []))).0).1
      ≡ ok tt)
    × (open_log codec (reads sizes) (
          some
            (append codec synced 6 (append codec (torn 8) 5 (frames codec ((4, 4 ∷ []) ∷ []))).0).0)
        ≡ ok (frames codec ((4, 4 ∷ []) ∷ []), 4 ∷ []))
append-torn_lost_example =
    append-torn_lost codec sizes ((4, 4 ∷ []) ∷ []) 5 (5 ∷ []) ((refl, omega arith), tt)
      (refl, omega arith) 8 6 (6 ∷ []) (refl, omega arith) (omega arith)
      (omega (arith, length-frame)) mixed_differs

-- Two writes that stop after a byte, a restart, and a record.
abbrev life : List (Op ℕ)
life = adding (torn 1) 5 ∷ adding (torn 1) 6 ∷ reopening sizes ∷ adding synced 7 ∷ []

after_torn : (append codec (torn 1) 6 (append codec (torn 1) 5 []).0).0 ≡ 1 ∷ 1 ∷ []
unfolding append frame to_le_bytes take
after_torn = refl

life-IsDetected : IsDetected codec life [] empty
unfolding IsDetected io_of io_of_write frame to_le_bytes
life-IsDetected = (
  inl refl,
  (
    inr (
        inl (
          rw after_torn (
            omega (
              arith,
              length-drop {A = ℕ} (valid codec (append codec (torn 1) 5 []).0) (1 ∷ 1 ∷ []),
            )))),
    (inl refl, tt),
  ),
)

run-refines_example :
    let file = run_file codec life [] in
    let log = run_log codec life empty in
    (open_log codec (reads sizes) (some file) ≡ ok (opened codec sizes file, log.records))
    × (result_of (append codec synced 4 file).1 ≡ (Log.append (io_of codec synced 4) 4 log).1)
run-refines_example = run-refines codec life sizes synced 4 life-IsDetected
