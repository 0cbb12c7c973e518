-- ===== src/Wal/Reading.antt =====
-- `read_exact_or_eof` tells a full buffer, a clean end and a torn end apart, however the file is read.
use queue_as_a_service.Base.{
  ℕ, zero, suc, ◌+◌, ◌-◌, ◌≤◌, ◌<◌, ◌≡◌, refl, ap, ◌∙◌, [], ◌∷◌, ◌++◌, append-nil, append_assoc,
  some, arith, ◌==◌, if◌then◌else◌, length, take, drop, take-append-take, drop-drop,
  take-append-drop, length-drop,
}
use queue_as_a_service.Wal.{
  Bytes, ok, Reads, full, eof, short_read, fill, read_exact_or_eof, read_size,
}

-- Reads that do not fail, of any sizes.
abbrev pub sized : (ℕ → ℕ) → Reads
sized size wanted = some (size wanted)

take_split :
    (r w : ℕ) (buffer rest : Bytes)
    → r ≤ w
    → (buffer ++ take r rest) ++ take (w - r) (drop r rest) ≡ buffer ++ take w rest
take_split r w buffer rest h =
    let sum : r + (w - r) ≡ w = omega arith in
    rw append_assoc (ap (◌++◌ buffer) (take-append-take r (w - r) rest ∙ ap (λ n. take n rest) sum))

drop_split : (r w : ℕ) (rest : Bytes) → r ≤ w → drop (w - r) (drop r rest) ≡ drop w rest
drop_split r w rest h =
    let sum : r + (w - r) ≡ w = omega arith in drop-drop r (w - r) rest ∙ ap (λ n. drop n rest) sum

module _ (size : ℕ → ℕ) where
  fill_done :
      (fuel : ℕ) (buffer rest : Bytes)
      → fill (sized size) fuel 0 buffer rest
        ≡ ok (record { outcome = full; buffer = buffer; rest = rest })
  unfolding fill
  fill_done zero buffer rest = refl
  fill_done (suc fuel) buffer rest = refl

  fill_step :
      (fuel w : ℕ) (buffer rest : Bytes)
      → 0 < length rest
      → let read = read_size (size (suc w)) (suc w) rest in
        fill (sized size) (suc fuel) (suc w) buffer rest
        ≡ fill (sized size) fuel (suc w - read) (buffer ++ take read rest) (drop read rest)
  unfolding fill
  fill_step fuel w buffer rest h = ground arith

  fill_full :
      (fuel wanted : ℕ) (buffer rest : Bytes)
      → wanted ≤ fuel
      → wanted ≤ length rest
      → fill (sized size) fuel wanted buffer rest
        ≡ ok (record {
          outcome = full;
          buffer = buffer ++ take wanted rest;
          rest = drop wanted rest;
        })
  fill_full fuel zero buffer rest h k =
      fill_done fuel buffer rest ∙ (unfold take drop in rw append-nil)
  fill_full zero (suc w) buffer rest h k = absurd (omega arith)
  fill_full (suc fuel) (suc w) buffer rest h k =
      let r = read_size (size (suc w)) (suc w) rest in
      fill_step fuel w buffer rest (omega arith)
      ∙ fill_full fuel (suc w - r) (buffer ++ take r rest) (drop r rest) (omega arith)
          (omega (arith, length-drop r rest))
      ∙ rw (take_split r (suc w) buffer rest (omega arith), drop_split r (suc w) rest (omega arith))

  fill_end :
      (fuel w : ℕ) (buffer : Bytes)
      → fill (sized size) (suc fuel) (suc w) buffer []
        ≡ ok (record {
          outcome = if length buffer == 0 then eof else short_read;
          buffer = buffer;
          rest = [];
        })
  unfolding fill
  fill_end fuel w buffer = ground arith

  -- Too few bytes: all of them are read, and the outcome says if there were any.
  fill_short :
      (fuel wanted : ℕ) (buffer rest : Bytes)
      → wanted ≤ fuel
      → length rest < wanted
      → fill (sized size) fuel wanted buffer rest
        ≡ ok (record {
          outcome = if length (buffer ++ rest) == 0 then eof else short_read;
          buffer = buffer ++ rest;
          rest = [];
        })
  fill_short fuel zero buffer rest h k = absurd (omega arith)
  fill_short zero (suc w) buffer rest h k = absurd (omega arith)
  fill_short (suc fuel) (suc w) buffer [] h k = rw append-nil (fill_end fuel w buffer)
  fill_short (suc fuel) (suc w) buffer (b ∷ bs) h k =
      let rest = b ∷ bs in
      let r = read_size (size (suc w)) (suc w) rest in
      let whole : (buffer ++ take r rest) ++ drop r rest ≡ buffer ++ rest =
        rw append_assoc (ap (◌++◌ buffer) (take-append-drop r rest)) in
      fill_step fuel w buffer rest (omega arith)
      ∙ fill_short fuel (suc w - r) (buffer ++ take r rest) (drop r rest) (omega arith)
          (omega (arith, length-drop r rest))
      ∙ rw whole

  -- With enough bytes in the file the buffer is filled with the first of them, and with too few the
  -- outcome is `eof` if there is none and `short_read` otherwise.
  pub read_exact_or_eof_lem :
      (wanted : ℕ) (file : Bytes)
      → (wanted ≤ length file
          → read_exact_or_eof (sized size) wanted file
            ≡ ok (record { outcome = full; buffer = take wanted file; rest = drop wanted file }))
        × (length file < wanted
            → read_exact_or_eof (sized size) wanted file
              ≡ ok (record {
                outcome = if length file == 0 then eof else short_read;
                buffer = file;
                rest = [];
              }))
  unfolding read_exact_or_eof
  read_exact_or_eof_lem wanted file = (
    fill_full wanted wanted [] file (omega arith),
    fill_short wanted wanted [] file (omega arith),
  )
