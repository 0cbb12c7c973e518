-- ===== src/Wal/Framing.antt =====
-- One record through the loop of `replay`: the header's fields, and the round that reads a whole frame.
use queue_as_a_service.Base.{
  ℕ, suc, ◌+◌, ◌*◌, ◌<◌, ◌≡◌, refl, ◌∙◌, List, [], ◌∷◌, ◌++◌, some, arith, length, take, drop,
  ==_refl, take-append, drop-append, length-append,
}
use queue_as_a_service.Wal.{
  Bytes, Codec, ok, Reads, full, to_le_bytes, from_le_bytes, read_exact_or_eof, frame, replay_loop,
}
use queue_as_a_service.Wal.Reading.{sized, read_exact_or_eof_lem}

pub from_le_bytes-to_le_bytes : (n : ℕ) → n < 4294967296 → from_le_bytes (to_le_bytes n) ≡ n
unfolding to_le_bytes from_le_bytes
from_le_bytes-to_le_bytes n h = omega arith

pub length-to_le_bytes : (n : ℕ) → length (to_le_bytes n) ≡ 4
unfolding to_le_bytes
length-to_le_bytes n = refl

-- The first bytes of a file are read in one call, however many reads it takes.
pub read_prefix :
    (size : ℕ → ℕ) (wanted : ℕ) (xs rest : Bytes)
    → length xs ≡ wanted
    → read_exact_or_eof (sized size) wanted (xs ++ rest)
      ≡ ok (record { outcome = full; buffer = xs; rest = rest })
read_prefix size wanted xs rest e = rw (← e) (
    (read_exact_or_eof_lem size (length xs) (xs ++ rest)).0 (omega (arith, length-append xs rest))
    ∙ rw (take-append xs rest, drop-append xs rest))

header_take : (n h : ℕ) → take 4 (to_le_bytes n ++ to_le_bytes h) ≡ to_le_bytes n
unfolding to_le_bytes take
header_take n h = refl

header_drop : (n h : ℕ) → drop 4 (to_le_bytes n ++ to_le_bytes h) ≡ to_le_bytes h
unfolding to_le_bytes drop
header_drop n h = refl

abbrev pub reads : (ℕ → ℕ → ℕ) → ℕ → Reads
reads size i = sized (size i)

module _ {T : Type 0} (c : Codec T) where
  pub frame_split :
      (payload rest : Bytes)
      → frame c payload ++ rest
        ≡ (to_le_bytes (length payload) ++ to_le_bytes (c.hash payload)) ++ (payload ++ rest)
  unfolding frame to_le_bytes
  frame_split payload rest = refl

  pub length-frame : (payload : Bytes) → length (frame c payload) ≡ 8 + length payload
  unfolding frame to_le_bytes
  length-frame payload = omega arith

  pub header_length :
      (payload : Bytes) → take 4 (take 8 (frame c payload)) ≡ to_le_bytes (length payload)
  unfolding frame to_le_bytes take
  header_length payload = refl

  pub header_checksum :
      (payload : Bytes) → drop 4 (take 8 (frame c payload)) ≡ to_le_bytes (c.hash payload)
  unfolding frame to_le_bytes take drop
  header_checksum payload = refl

module _ {T : Type 0} (c : Codec T) (size : ℕ → ℕ → ℕ) where
  -- A round on a file that begins with a whole frame.
  pub replay_round :
      (fuel i : ℕ) (r : T) (payload rest : Bytes) (records : List T) (valid_len : ℕ)
      → c.decode payload ≡ some r
      → length payload < 4294967296
      → replay_loop c (reads size) (suc fuel) i (frame c payload ++ rest) records valid_len
        ≡ replay_loop c
            (reads size)
            fuel
            (suc i)
            rest
            (records ++ r ∷ [])
            (valid_len + length (frame c payload))
  unfolding replay_loop to_le_bytes
  replay_round fuel i r payload rest records valid_len d small =
      let n = length payload in
      let h = c.hash payload in
      let header = to_le_bytes n ++ to_le_bytes h in
      rw (
        frame_split c payload rest,
        read_prefix (size (2 * i)) 8 header (payload ++ rest) (unfold to_le_bytes in refl),
        header_take n h,
        from_le_bytes-to_le_bytes n small,
        read_prefix (size (2 * i + 1)) n payload rest refl,
        header_drop n h,
        from_le_bytes-to_le_bytes h (c.hash-lt payload),
        ==_refl h,
        d,
        length-frame c payload,
      )
