-- ===== src/Wal/Crash.antt =====
-- What a crash or a failed write leaves behind, and what `open` makes of it.
use queue_as_a_service.Base.{
  ℕ, zero, suc, ◌+◌, ◌*◌, ◌≤◌, ◌<◌, ◌≡◌, ◌≢◌, ◌⊎◌, inl, inr, refl, sym, ap, ◌∙◌, List, [], ◌∷◌,
  ◌++◌, map, append-nil, append_assoc, Bool-cases, some, arith, ◌==◌, length, take, drop,
  take-append, length-append, length-take, length-drop, All, dec_lt, take-take, take_all,
  take-append_le, All-append, lt→ltb,
}
use mathlib.Core.List.{map-append}
use native.Mathlib.Nat.{add-zero, zero-add, add_assoc}
use queue_as_a_service.Wal.{
  Bytes, Codec, ok, Write, synced, unsynced, torn, from_le_bytes, frame, replay_loop, replay,
  open_log, append, write_framed,
}
use queue_as_a_service.Wal.Reading.{read_exact_or_eof_lem}
use queue_as_a_service.Wal.Framing.{
  reads, replay_round, length-frame, header_length, header_checksum, from_le_bytes-to_le_bytes,
}

module _ {T : Type 0} (c : Codec T) where
  -- The frames of records that were written, each with its payload.
  unfoldable pub frames : List (T × Bytes) → Bytes
  frames [] = []
  frames ((r, payload) ∷ es) = frame c payload ++ frames es

  abbrev pub Encoded : T × Bytes → Type 0
  Encoded e = (c.encode e.0 ≡ some e.1) × (length e.1 < 4294967296)

  -- The length that a header claims, and the checksum that it stores.
  abbrev pub claimed : Bytes → ℕ
  claimed tail = from_le_bytes (take 4 (take 8 tail))

  abbrev pub stored : Bytes → ℕ
  stored tail = from_le_bytes (drop 4 (take 8 tail))

  -- A header that is cut short, a payload that is, or a checksum that does not match.
  abbrev pub IsTorn : Bytes → Type 0
  IsTorn tail =
      (length tail < 8)
      ⊎ ((8 ≤ length tail) × (length tail < 8 + claimed tail))
      ⊎ ((8 + claimed tail ≤ length tail)
          × (c.hash (take (claimed tail) (drop 8 tail)) ≢ stored tail))

  module _ (size : ℕ → ℕ → ℕ) where
    -- The loop ends at a torn tail.
    replay_stops :
        (fuel i : ℕ) (tail : Bytes) (records : List T) (valid_len : ℕ)
        → IsTorn tail
        → replay_loop c (reads size) (suc fuel) i tail records valid_len ≡ ok (records, valid_len)
    unfolding replay_loop
    replay_stops fuel i tail records valid_len (inl short) =
        rw ((read_exact_or_eof_lem (size (2 * i)) 8 tail).1 short)
          (elim (Bool-cases (length tail == 0)) [ inl e ↦ rw e | inr e ↦ rw e ])
    replay_stops fuel i tail records valid_len (inr (inl (whole, short))) =
        rw
          (
            (read_exact_or_eof_lem (size (2 * i)) 8 tail).0 whole,
            (read_exact_or_eof_lem (size (2 * i + 1)) (claimed tail) (drop 8 tail)).1
                (omega (arith, length-drop 8 tail)),
          )
          (elim (Bool-cases (length (drop 8 tail) == 0)) [ inl e ↦ rw e | inr e ↦ rw e ])
    replay_stops fuel i tail records valid_len (inr (inr (whole, differs))) =
        rw
          (
            (read_exact_or_eof_lem (size (2 * i)) 8 tail).0 (omega arith),
            (read_exact_or_eof_lem (size (2 * i + 1)) (claimed tail) (drop 8 tail)).0
                (omega (arith, length-drop 8 tail)),
          )
          (elim (Bool-cases (c.hash (take (claimed tail) (drop 8 tail)) == stored tail)) [
            | inl e ↦ absurd (differs (ground arith))
            | inr e ↦ rw e
          ])

    loop_frames :
        (es : List (T × Bytes)) (tail : Bytes) (fuel i : ℕ) (records : List T) (valid_len : ℕ)
        → All Encoded es
        → IsTorn tail
        → length es < fuel
        → replay_loop c (reads size) fuel i (frames es ++ tail) records valid_len
          ≡ ok (records ++ map (λ e. e.0) es, valid_len + length (frames es))
    unfolding frames
    loop_frames es tail zero i records valid_len h t f = absurd (omega arith)
    loop_frames [] tail (suc fuel) i records valid_len h t f =
        replay_stops fuel i tail records valid_len t ∙ rw (append-nil, add-zero)
    loop_frames ((r, p) ∷ es) tail (suc fuel) i records valid_len h t f =
        rw (append_assoc (frame c p) (frames es) tail) (
          replay_round c size fuel i r p (frames es ++ tail) records valid_len
            (c.decode-encode r p h.0.0) h.0.1
          ∙ loop_frames es tail fuel (suc i) (records ++ r ∷ []) (valid_len + length (frame c p))
              h.1 t (omega arith)
          ∙ rw (
            append_assoc,
            length-append (frame c p) (frames es),
            ← add_assoc valid_len (length (frame c p)) (length (frames es)),
          ))

    length-frames-le : (es : List (T × Bytes)) → length es ≤ length (frames es)
    unfolding frames
    length-frames-le [] = omega arith
    length-frames-le ((r, p) ∷ es) =
        omega (arith, length-append (frame c p) (frames es), length-frame c p, length-frames-le es)

    -- Whatever is torn at the end of the file, `replay` returns exactly the records before it and the
    -- length of their frames.
    pub replay-frames :
        (es : List (T × Bytes)) (tail : Bytes)
        → All Encoded es
        → IsTorn tail
        → replay c (reads size) (some (frames es ++ tail))
          ≡ ok (map (λ e. e.0) es, length (frames es))
    unfolding replay
    replay-frames es tail h t =
        loop_frames es tail (suc (length (frames es ++ tail))) 0 [] 0 h t
          (omega (arith, length-append (frames es) tail, length-frames-le es))
        ∙ rw zero-add

    -- So `open_log` returns these records, and cuts the torn tail off.
    pub open_log-frames :
        (es : List (T × Bytes)) (tail : Bytes)
        → All Encoded es
        → IsTorn tail
        → open_log c (reads size) (some (frames es ++ tail)) ≡ ok (frames es, map (λ e. e.0) es)
    unfolding open_log
    open_log-frames es tail h t = rw (replay-frames es tail h t, take-append (frames es) tail)

  pub nil-IsTorn : IsTorn []
  nil-IsTorn = inl (omega arith)

  -- What a crash leaves of a frame is torn, unless it is the whole frame.
  pub prefix-IsTorn :
      (r : T) (payload : Bytes) (k : ℕ)
      → Encoded (r, payload)
      → k < length (frame c payload)
      → IsTorn (take k (frame c payload))
  prefix-IsTorn r payload k h lt = elim (dec_lt k 8) [
    | yes short ↦ inl (omega (arith, length-take k (frame c payload)))
    | no long ↦ inr (
        inl (
          omega (arith, length-take k (frame c payload)),
          rw
              (
                take-take 8 k (frame c payload) (omega arith),
                header_length c payload,
                from_le_bytes-to_le_bytes (length payload) h.1,
              )
              (omega (arith, length-take k (frame c payload), length-frame c payload)),
        ))
  ]

  pub frames-append :
      (es : List (T × Bytes)) (r : T) (payload : Bytes)
      → frames (es ++ (r, payload) ∷ []) ≡ frames es ++ frame c payload
  unfolding frames
  frames-append [] r payload = append-nil (frame c payload)
  frames-append ((s, p) ∷ es) r payload =
      ap (◌++◌ (frame c p)) (frames-append es r payload)
      ∙ sym (append_assoc (frame c p) (frames es) (frame c payload))

  pub append-Encoded :
      (write : Write) (r : T) (payload file : Bytes)
      → Encoded (r, payload)
      → append c write r file ≡ write_framed write (frame c payload) file
  unfolding append
  append-Encoded write r payload file h = rw (h.0, append) (rw (lt→ltb _ _ h.1))

  torn_append :
      (n : ℕ) (r : T) (payload file : Bytes)
      → Encoded (r, payload)
      → (append c (torn n) r file).0 ≡ file ++ take n (frame c payload)
  torn_append n r payload file h = ap (λ a. a.0) (append-Encoded (torn n) r payload file h)

module _ {T : Type 0} (c : Codec T) (size : ℕ → ℕ → ℕ) (es : List (T × Bytes)) (r : T)
    (payload : Bytes) (old : All (Encoded c) es) (new : Encoded c (r, payload)) where
  all_written :
      (tail : Bytes)
      → IsTorn c tail
      → open_log c (reads size) (some ((frames c es ++ frame c payload) ++ tail))
        ≡ ok (frames c es ++ frame c payload, map (λ e. e.0) es ++ r ∷ [])
  all_written tail t =
      rw (frames-append c es r payload, map-append) at
        (open_log-frames c size (es ++ (r, payload) ∷ []) tail
          (All-append (Encoded c) es ((r, payload) ∷ []) old (new, tt)) t)

  written :
      open_log c (reads size) (some (frames c es ++ frame c payload))
      ≡ ok (frames c es ++ frame c payload, map (λ e. e.0) es ++ r ∷ [])
  written = rw append-nil at (all_written [] (nil-IsTorn c))

  -- An append that is written and synced returns `ok` and makes its record durable: with any torn bytes
  -- behind it, as a crash leaves them, `open_log` returns the earlier records and this one, in order.
  pub append_durable :
      (tail : Bytes)
      → IsTorn c tail
      → let (file, result) = append c synced r (frames c es) in
        (result ≡ ok tt)
        × (open_log c (reads size) (some (file ++ tail))
            ≡ ok (frames c es ++ frame c payload, map (λ e. e.0) es ++ r ∷ []))
  append_durable tail t =
      rw (append-Encoded c synced r payload (frames c es) new) (refl, all_written tail t)

  -- Whatever happens to the write of an append, no earlier record is lost: the file is opened with
  -- the earlier records alone, or with them and the new one.
  pub append_atomic :
      (write : Write)
      → let log = open_log c (reads size) (some (append c write r (frames c es)).0) in
        (log ≡ ok (frames c es, map (λ e. e.0) es))
        ⊎ (log ≡ ok (frames c es ++ frame c payload, map (λ e. e.0) es ++ r ∷ []))
  append_atomic synced = inr (rw (append-Encoded c synced r payload (frames c es) new) written)
  append_atomic unsynced = inr (rw (append-Encoded c unsynced r payload (frames c es) new) written)
  append_atomic (torn n) =
      rw (torn_append c n r payload (frames c es) new) (elim (dec_lt n (length (frame c payload))) [
        | yes cut ↦ inl (
            open_log-frames c size es (take n (frame c payload)) old
              (prefix-IsTorn c r payload n new cut))
        | no whole ↦ inr (rw (take_all n (frame c payload) (omega arith)) written)
      ])

  -- The record of an append that returns `ok` is lost if the append before it failed with its header
  -- and part of its payload written and the checksum tells its payload from the bytes that then follow.
  pub append-torn_lost :
      (n : ℕ) (s : T) (next : Bytes)
      → Encoded c (s, next)
      → 8 ≤ n
      → n < length (frame c payload)
      → c.hash (take (length payload) (drop 8 (take n (frame c payload) ++ frame c next)))
        ≢ c.hash payload
      → let (file, result) = append c synced s (append c (torn n) r (frames c es)).0 in
        (result ≡ ok tt)
        × (open_log c (reads size) (some file) ≡ ok (frames c es, map (λ e. e.0) es))
  append-torn_lost n s next h long cut differs =
      rw
        (
          append-Encoded c synced s next (append c (torn n) r (frames c es)).0 h,
          torn_append c n r payload (frames c es) new,
          append_assoc (frames c es) (take n (frame c payload)) (frame c next),
        )
        (refl, open_log-frames c size es (take n (frame c payload) ++ frame c next) old spoiled)
    where
      mixed : Bytes
      mixed = take n (frame c payload) ++ frame c next

      header : take 8 mixed ≡ take 8 (frame c payload)
      header =
          take-append_le 8 (take n (frame c payload)) (frame c next)
            (omega (arith, length-take n (frame c payload)))
          ∙ take-take 8 n (frame c payload) long

      claims : claimed c mixed ≡ length payload
      claims =
          rw (header, header_length c payload) (from_le_bytes-to_le_bytes (length payload) new.1)

      stores : stored c mixed ≡ c.hash payload
      stores =
          rw (header, header_checksum c payload)
            (from_le_bytes-to_le_bytes (c.hash payload) (c.hash-lt payload))

      eight : 8 ≤ length mixed
      eight = omega (
        arith,
        length-append (take n (frame c payload)) (frame c next),
        length-take n (frame c payload),
      )

      spoiled : IsTorn c mixed
      spoiled = elim (dec_lt (length mixed) (8 + length payload)) [
        | yes short ↦ inr (inl (eight, rw claims short))
        | no whole ↦ inr (inr (rw claims (omega arith), rw (claims, stores) differs))
      ]
