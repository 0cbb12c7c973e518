-- ===== src/Wal/Ending.antt =====
-- The loops of crates/qaas-core/src/wal.rs end on every file, whatever its bytes are and however it is read.
use queue_as_a_service.Base.{
  ℕ, zero, suc, ◌+◌, ◌-◌, ◌*◌, ◌≤◌, ◌<◌, ◌≡◌, refl, false, List, [], ◌∷◌, ◌++◌, some, arith, ◌==◌,
  length, take, drop, length-drop, length-append, length-take, Bool-cases, Option-cases, inl, inr,
}
use queue_as_a_service.Wal.{
  Bytes, Codec, Io, ok, err, failed, invalid_data, out_of_fuel, ◌>>=◌, Reads, Read, ReadOutcome,
  full, eof, short_read, fill, read_exact_or_eof, read_size, from_le_bytes, replay_loop, replay,
  open_log,
}

-- A loop ended by itself, with an error or with a result that has the property.
pub Ended : {A : Type 0} → (A → Type 0) → Io A → Type 0
Ended P (ok a) = P a
Ended P (err failed) = Unit {0}
Ended P (err invalid_data) = Unit {0}
Ended P (err out_of_fuel) = ⊥

Ended-bind :
    {A B : Type 0} (P : A → Type 0) (Q : B → Type 0) (m : Io A) (f : A → Io B)
    → Ended P m
    → ((a : A) → P a → Ended Q (f a))
    → Ended Q (m >>= f)
unfolding Ended
Ended-bind P Q (ok a) f h later = later a h
Ended-bind P Q (err failed) f h later = tt
Ended-bind P Q (err invalid_data) f h later = tt
Ended-bind P Q (err out_of_fuel) f h later = h

Ended-outcome :
    {A : Type 0} (P : A → Type 0) (o : ReadOutcome) (more done : Io A)
    → (o ≡ full → Ended P more)
    → Ended P done
    → Ended P (elim o [ full ↦ more | eof ↦ done | short_read ↦ done ])
Ended-outcome P full more done h k = h refl
Ended-outcome P eof more done h k = k
Ended-outcome P short_read more done h k = k

-- The buffer and the rest make up the file, and a full buffer has as many bytes as were wanted.
Took : Bytes → ℕ → Bytes → Read → Type 0
Took buffer wanted rest r =
    (length r.buffer + length r.rest ≡ length buffer + length rest)
    × (r.outcome ≡ full → length r.rest + wanted ≡ length rest)

Took-more :
    (read wanted : ℕ) (buffer rest : Bytes) (m : Io Read)
    → read ≤ wanted
    → read ≤ length rest
    → Ended (Took (buffer ++ take read rest) (wanted - read) (drop read rest)) m
    → Ended (Took buffer wanted rest) m
unfolding Ended Took
Took-more read wanted buffer rest (ok r) h k took = (
  omega (
    arith,
    took.0,
    length-append buffer (take read rest),
    length-take read rest,
    length-drop read rest,
  ),
  λ done. omega (arith, took.1 done, length-drop read rest),
)
Took-more read wanted buffer rest (err failed) h k took = tt
Took-more read wanted buffer rest (err invalid_data) h k took = tt
Took-more read wanted buffer rest (err out_of_fuel) h k took = took

fill-Ended :
    (reads : Reads) (fuel wanted : ℕ) (buffer rest : Bytes)
    → wanted ≤ fuel
    → Ended (Took buffer wanted rest) (fill reads fuel wanted buffer rest)
unfolding fill Ended Took
fill-Ended reads zero zero buffer rest h = (refl, λ done. omega arith)
fill-Ended reads zero (suc w) buffer rest h = absurd (omega arith)
fill-Ended reads (suc fuel) zero buffer rest h = elim (Option-cases (reads 0)) [
  | inl e ↦ rw (fill, e) (refl, λ done. omega arith)
  | inr (n, e) ↦ rw (fill, e) (refl, λ done. omega arith)
]
fill-Ended reads (suc fuel) (suc w) buffer rest h =
    let some_left : (suc w == 0) ≡ false = ground arith in
    elim (Option-cases (reads (suc w))) [
      | inl e ↦ rw (fill, e, some_left) tt
      | inr (n, e) ↦
          let read = read_size n (suc w) rest in
          elim (Bool-cases (read == 0)) [
            | inl e' ↦ rw (fill, e, some_left, e') (refl, λ done. absurd (ground (arith, done)))
            | inr e' ↦
                rw (fill, e, some_left, e')
                  (Took-more read (suc w) buffer rest _ (omega arith) (omega arith) (
                    fill-Ended reads fuel (suc w - read) (buffer ++ take read rest) (drop read rest)
                      (ground (arith, e'))))
          ]
    ]

module _ {T : Type 0} (c : Codec T) where
  -- `total` are the bytes of the file, of which `valid_len` were read before.
  replay_loop-Ended :
      (total : ℕ) (reads : ℕ → Reads) (fuel i : ℕ) (file : Bytes) (records : List T) (valid_len : ℕ)
      → length file < fuel
      → valid_len + length file ≤ total
      → Ended (λ r. r.1 ≤ total) (replay_loop c reads fuel i file records valid_len)
  unfolding replay_loop Ended read_exact_or_eof Took
  replay_loop-Ended total reads zero i file records valid_len h k = absurd (omega arith)
  replay_loop-Ended total reads (suc fuel) i file records valid_len h k =
      Ended-bind (Took [] 8 file) (λ r. r.1 ≤ total) (read_exact_or_eof (reads (2 * i)) 8 file) _
        (fill-Ended (reads (2 * i)) 8 8 [] file (omega arith))
        (λ header first.
          Ended-outcome (λ r. r.1 ≤ total) header.outcome _ (ok (records, valid_len))
            (λ done.
              let wanted = from_le_bytes (take 4 header.buffer) in
              Ended-bind (Took [] wanted header.rest) (λ r. r.1 ≤ total)
                (read_exact_or_eof (reads (2 * i + 1)) wanted header.rest) _
                (fill-Ended (reads (2 * i + 1)) wanted wanted [] header.rest (omega arith))
                (λ payload second.
                  Ended-outcome (λ r. r.1 ≤ total) payload.outcome _ (ok (records, valid_len))
                    (λ done'.
                      let goes_on : length payload.rest < fuel =
                        omega (arith, first.1 done, second.1 done') in
                      let valid = valid_len + (length header.buffer + length payload.buffer) in
                      let fits : valid + length payload.rest ≤ total =
                        omega (arith, first.0, second.0) in
                      elim (Bool-cases
                        (c.hash payload.buffer == from_le_bytes (drop 4 header.buffer))) [
                          | inr b ↦ rw b (omega arith)
                          | inl b ↦ elim (Option-cases (c.decode payload.buffer)) [
                            | inl d ↦ rw (b, d) tt
                            | inr (r, d) ↦
                                rw (b, d)
                                  (replay_loop-Ended total reads fuel (suc i) payload.rest
                                    (records ++ r ∷ []) valid goes_on fits)
                          ]
                        ])
                    (omega arith)))
            (omega arith))

  -- Reading a file and opening it as a log end, whatever bytes it has and however it is read, failed reads included:
  -- with an error, or with no more valid bytes than the file has and with a beginning of the file kept.
  pub open_log-terminates :
      (reads : ℕ → Reads) (file : Bytes)
      → Ended (λ r. r.1 ≤ length file) (replay c reads (some file))
        × Ended (λ r. r.0 ≡ take (length r.0) file) (open_log c reads (some file))
  unfolding open_log replay Ended
  open_log-terminates reads file =
      let read =
        replay_loop-Ended (length file) reads (suc (length file)) 0 file [] 0 (omega arith)
          (omega arith) in
      (
        read,
        Ended-bind (λ r. r.1 ≤ length file) (λ r. r.0 ≡ take (length r.0) file)
            (replay c reads (some file)) _ read (λ r h. rw (length-take r.1 file h) refl),
      )
