-- ===== src/Wal/Refinement.antt =====
-- The file of crates/qaas-core/src/wal.rs behaves as the list of records that the other components use.
use queue_as_a_service.Base.{
  ℕ, ◌≤◌, ◌<◌, ◌≡◌, ◌⊎◌, inl, inr, refl, sym, ap, ◌∙◌, Bool, true, false, List, [], ◌∷◌, ◌++◌, map,
  append-nil, append_assoc, Bool-cases, Option-cases, none, some, arith, ◌==◌, ltb, leb,
  if◌then◌else◌, length, take, drop, All, All-append, take_all, drop-append, ltb→lt,
}
use mathlib.Core.List.{map-append}
use queue_as_a_service.Log
use queue_as_a_service.Log.{Log, AppendIo, Result, failed, empty, reopen, add_record}
use queue_as_a_service.Wal.{
  Bytes, Codec, Io, ok, err, Write, synced, unsynced, torn, frame, replay, open_log, append,
  write_framed,
}
use queue_as_a_service.Wal.Framing.{reads}
use queue_as_a_service.Wal.Crash.{
  frames, Encoded, IsTorn, nil-IsTorn, prefix-IsTorn, frames-append, replay-frames, open_log-frames,
}

-- What a write makes of a frame of `n` bytes: a torn write may stop before it or behind it.
unfoldable pub io_of_write : ℕ → Write → AppendIo
io_of_write n synced = Log.synced
io_of_write n unsynced = Log.unsynced
io_of_write n (torn k) = if k == 0 then Log.rejected else if leb n k then Log.unsynced else Log.torn

torn_cases :
    (n k : ℕ)
    → ((k ≡ 0) × (io_of_write n (torn k) ≡ Log.rejected))
      ⊎ ((n ≤ k) × (io_of_write n (torn k) ≡ Log.unsynced))
      ⊎ ((k < n) × (io_of_write n (torn k) ≡ Log.torn))
unfolding io_of_write
torn_cases n k = elim (Bool-cases (k == 0)) [
  | inl e ↦ inl (ground (arith, e), ground (arith, e))
  | inr e ↦ elim (Bool-cases (leb n k)) [
    | inl e' ↦ inr (inl (ground (arith, e'), ground (arith, e, e')))
    | inr e' ↦ inr (inr (ground (arith, e'), ground (arith, e, e')))
  ]
]

abbrev pub result_of : {A : Type 0} → Io A → Result A
result_of (ok a) = Log.ok a
result_of (err e) = failed

-- A life of the log: appends, and crashes after which it is opened with reads of some sizes.
pub data Op (T : Type 0) : Type 0 where
  adding : Write → T → Op T
  reopening : (ℕ → ℕ → ℕ) → Op T

module _ {T : Type 0} (c : Codec T) where
  unfoldable pub io_of : Write → T → AppendIo
  io_of write r = elim (c.encode r) [
    | none ↦ Log.rejected
    | some payload ↦
        if ltb (length payload) 4294967296
        then io_of_write (length (frame c payload)) write
        else Log.rejected
  ]

  -- How many bytes of the file `replay` finds to be records.
  unfoldable pub valid : Bytes → ℕ
  valid file = elim (replay c (reads (λ i wanted. 0)) (some file)) [ ok r ↦ r.1 | err e ↦ 0 ]

  unfoldable pub opened : (ℕ → ℕ → ℕ) → Bytes → Bytes
  opened size file = elim (open_log c (reads size) (some file)) [ ok r ↦ r.0 | err e ↦ file ]

  pub run_file : List (Op T) → Bytes → Bytes
  run_file [] file = file
  run_file (adding write r ∷ ops) file = run_file ops (append c write r file).0
  run_file (reopening size ∷ ops) file = run_file ops (opened size file)

  pub run_log : List (Op T) → Log T → Log T
  run_log [] log = log
  run_log (adding write r ∷ ops) log = run_log ops (Log.append (io_of write r) r log).0
  run_log (reopening size ∷ ops) log = run_log ops (reopen log)

  -- Behind a part of a frame, the checksum tells what is written from a record.
  unfoldable pub IsDetected : List (Op T) → Bytes → Log T → Type 0
  IsDetected [] file log = Unit {0}
  IsDetected (adding write r ∷ ops) file log =
      let file' = (append c write r file).0 in
      ((log.spoiled ≡ false) ⊎ IsTorn c (drop (valid file) file'))
      × IsDetected ops file' (Log.append (io_of write r) r log).0
  IsDetected (reopening size ∷ ops) file log = IsDetected ops (opened size file) (reopen log)

pub record Represents {T : Type 0} (c : Codec T) (file : Bytes) (log : Log T) : Type 0 where
  pub entries : List (T × Bytes)
  pub tail : Bytes
  pub split : file ≡ frames c entries ++ tail
  pub all_encoded : All (Encoded c) entries
  pub same : log.records ≡ map (λ e. e.0) entries
  pub torn_tail : IsTorn c tail
  pub clean : log.spoiled ≡ false → tail ≡ []

write_extends :
    (write : Write) (framed file : Bytes)
    → (more : Bytes) × ((write_framed write framed file).0 ≡ file ++ more)
write_extends synced framed file = (framed, refl)
write_extends unsynced framed file = (framed, refl)
write_extends (torn k) framed file = (take k framed, refl)

module _ {T : Type 0} (c : Codec T) where
  append_extends :
      (write : Write) (r : T) (file : Bytes)
      → (more : Bytes) × ((append c write r file).0 ≡ file ++ more)
  unfolding append
  append_extends write r file = elim (Option-cases (c.encode r)) [
    | inl e ↦ ([], rw (append, e) (sym (append-nil file)))
    | inr (payload, e) ↦ elim (Bool-cases (ltb (length payload) 4294967296)) [
      | inr big ↦ ([], rw (append, e, big) (sym (append-nil file)))
      | inl small ↦
          let (more, written) = write_extends write (frame c payload) file in
          (more, rw (append, e, small) written)
    ]
  ]

  Represents-frames :
      (es : List (T × Bytes)) (spoiled : Bool)
      → All (Encoded c) es
      → Represents c (frames c es) (record { records = map (λ e. e.0) es; spoiled = spoiled })
  Represents-frames es spoiled h = record {
    entries = es;
    tail = [];
    split = sym (append-nil (frames c es));
    all_encoded = h;
    same = refl;
    torn_tail = nil-IsTorn c;
    clean = λ _. refl;
  }

  Represents-frame :
      (r : T) (payload : Bytes) (es : List (T × Bytes))
      → All (Encoded c) es
      → Encoded c (r, payload)
      → Represents c
          (frames c es ++ frame c payload)
          (record { records = map (λ e. e.0) es ++ r ∷ []; spoiled = false })
  Represents-frame r payload es h new =
      rw (frames-append c es r payload, map-append) at
        (Represents-frames (es ++ (r, payload) ∷ []) false
          (All-append (Encoded c) es ((r, payload) ∷ []) h (new, tt)))

  -- A write behind whole frames, of a record that has a payload.
  write_frames :
      (write : Write) (r : T) (payload : Bytes) (es : List (T × Bytes))
      → All (Encoded c) es
      → Encoded c (r, payload)
      → let log : Log T = record { records = map (λ e. e.0) es; spoiled = false } in
        let written = write_framed write (frame c payload) (frames c es) in
        let logged = Log.append (io_of_write (length (frame c payload)) write) r log in
        Represents c written.0 logged.0 × (result_of written.1 ≡ logged.1)
  unfolding io_of_write frames take
  write_frames synced r payload es h new = (Represents-frame r payload es h new, refl)
  write_frames unsynced r payload es h new = (Represents-frame r payload es h new, refl)
  write_frames (torn k) r payload es h new = elim (torn_cases (length (frame c payload)) k) [
    | inl (zeroth, e) ↦ rw (e, zeroth, append-nil) (Represents-frames es false h, refl)
    | inr (inl (whole, e)) ↦
        rw (e, take_all k (frame c payload) whole) (Represents-frame r payload es h new, refl)
    | inr (inr (part, e)) ↦ rw e (
      record {
        entries = es;
        tail = take k (frame c payload);
        split = refl;
        all_encoded = h;
        same = refl;
        torn_tail = prefix-IsTorn c r payload k new part;
        clean = λ e. absurd (ground (arith, e));
      },
      refl,
    )
  ]

  append-clean :
      (write : Write) (r : T) (es : List (T × Bytes))
      → All (Encoded c) es
      → let log : Log T = record { records = map (λ e. e.0) es; spoiled = false } in
        let written = append c write r (frames c es) in
        let logged = Log.append (io_of c write r) r log in
        Represents c written.0 logged.0 × (result_of written.1 ≡ logged.1)
  unfolding append io_of
  append-clean write r es h = elim (Option-cases (c.encode r)) [
    | inl e ↦ rw (append, io_of, e) (Represents-frames es false h, refl)
    | inr (payload, e) ↦ elim (Bool-cases (ltb (length payload) 4294967296)) [
      | inr big ↦ rw (append, io_of, e, big) (Represents-frames es false h, refl)
      | inl small ↦
          rw (append, io_of, e, small)
            (write_frames write r payload es h (e, ltb→lt (length payload) 4294967296 small))
    ]
  ]

  write_result :
      (n : ℕ) (write : Write) (framed file : Bytes) (r : T) (log : Log T)
      → result_of (write_framed write framed file).1 ≡ (Log.append (io_of_write n write) r log).1
  unfolding io_of_write
  write_result n synced framed file r log = refl
  write_result n unsynced framed file r log = refl
  write_result n (torn k) framed file r log = elim (torn_cases n k) [
    | inl (_, e) ↦ rw e refl
    | inr (inl (_, e)) ↦ rw e refl
    | inr (inr (_, e)) ↦ rw e refl
  ]

  append-result :
      (write : Write) (r : T) (file : Bytes) (log : Log T)
      → result_of (append c write r file).1 ≡ (Log.append (io_of c write r) r log).1
  unfolding append io_of
  append-result write r file log = elim (Option-cases (c.encode r)) [
    | inl e ↦ rw (append, io_of, e) refl
    | inr (payload, e) ↦ elim (Bool-cases (ltb (length payload) 4294967296)) [
      | inr big ↦ rw (append, io_of, e, big) refl
      | inl small ↦
          rw (append, io_of, e, small)
            (write_result (length (frame c payload)) write (frame c payload) file r log)
    ]
  ]

  stays_spoiled :
      (io : AppendIo) (r : T) (log : Log T)
      → log.spoiled ≡ true
      → ((Log.append io r log).0.records ≡ log.records) × ((Log.append io r log).0.spoiled ≡ true)
  stays_spoiled Log.synced r log h = (rw h refl, h)
  stays_spoiled Log.unsynced r log h = (rw h refl, h)
  stays_spoiled Log.torn r log h = (refl, refl)
  stays_spoiled Log.rejected r log h = (refl, h)

  valid-frames :
      (es : List (T × Bytes)) (tail : Bytes)
      → All (Encoded c) es
      → IsTorn c tail
      → valid c (frames c es ++ tail) ≡ length (frames c es)
  unfolding valid
  valid-frames es tail h t = rw (valid, replay-frames c (λ i wanted. 0) es tail h t) refl

  -- Behind a part of a frame nothing is found, whatever is written.
  append-spoiled :
      (write : Write) (r : T) (file : Bytes) (log : Log T)
      → Represents c file log
      → log.spoiled ≡ true
      → IsTorn c (drop (valid c file) (append c write r file).0)
      → Represents c (append c write r file).0 (Log.append (io_of c write r) r log).0
  append-spoiled write r file log represents spoiled torn_on =
      let (more, longer) = append_extends write r file in
      let (records, still) = stays_spoiled (io_of c write r) r log spoiled in
      let start : valid c file ≡ length (frames c entries) =
        rw split (valid-frames entries tail all_encoded torn_tail) in
      let whole : (append c write r file).0 ≡ frames c entries ++ (tail ++ more) =
        longer ∙ ap (λ f. f ++ more) split ∙ append_assoc (frames c entries) tail more in
      record {
        entries = entries;
        tail = drop (valid c file) (append c write r file).0;
        split = rw (start, whole, drop-append) refl;
        all_encoded = all_encoded;
        same = records ∙ same;
        torn_tail = torn_on;
        clean = λ e. absurd (ground (arith, e, still));
      }
    where
      open represents use {entries, tail, split, all_encoded, same, torn_tail}

  append-Represents :
      (write : Write) (r : T) (file : Bytes) (log : Log T)
      → Represents c file log
      → (log.spoiled ≡ false) ⊎ IsTorn c (drop (valid c file) (append c write r file).0)
      → Represents c (append c write r file).0 (Log.append (io_of c write r) r log).0
  append-Represents write r file log represents told = elim (Bool-cases log.spoiled) [
    | inl e ↦ elim told [
      | inl e' ↦ absurd (ground (arith, e, e'))
      | inr t ↦ append-spoiled write r file log represents e t
    ]
    | inr e ↦
        let alone : file ≡ frames c entries =
          split ∙ ap (λ t. frames c entries ++ t) (clean e) ∙ append-nil (frames c entries) in
        let listed : log ≡ record { records = map (λ e. e.0) entries; spoiled = false } =
          λ i. record { records = same i; spoiled = e i } in
        rw (alone, listed) (append-clean write r entries all_encoded).0
  ]
    where
      open represents use {entries, split, all_encoded, same, clean}

  -- Opening the file gives the records of the log.
  open_log-Represents :
      (size : ℕ → ℕ → ℕ) (file : Bytes) (log : Log T)
      → Represents c file log
      → (open_log c (reads size) (some file) ≡ ok (opened c size file, log.records))
        × Represents c (opened c size file) (reopen log)
  unfolding opened
  open_log-Represents size file log represents =
      let found : open_log c (reads size) (some file)
          ≡ ok (frames c entries, map (λ e. e.0) entries) =
        rw split (open_log-frames c size entries tail all_encoded torn_tail) in
      let kept : opened c size file ≡ frames c entries = rw (opened, found) refl in
      (rw (found, kept, same) refl, rw (kept, same) (Represents-frames entries false all_encoded))
    where
      open represents use {entries, tail, split, all_encoded, same, torn_tail}

  run-Represents :
      (ops : List (Op T)) (file : Bytes) (log : Log T)
      → Represents c file log
      → IsDetected c ops file log
      → Represents c (run_file c ops file) (run_log c ops log)
  unfolding run_file run_log IsDetected
  run-Represents [] file log represents told = represents
  run-Represents (adding write r ∷ ops) file log represents told =
      run-Represents ops (append c write r file).0 (Log.append (io_of c write r) r log).0
        (append-Represents write r file log represents told.0) told.1
  run-Represents (reopening size ∷ ops) file log represents told =
      run-Represents ops (opened c size file) (reopen log)
        (open_log-Represents size file log represents).1 told

  -- After any appends, crashes and openings of a new log, however its writes and reads go, `open_log` gives the
  -- records of the log as a list after the same, and a further append gives the same result in both, if the
  -- checksum tells whatever stands behind a part of a frame from a record.
  pub run-refines :
      (ops : List (Op T)) (size : ℕ → ℕ → ℕ) (write : Write) (r : T)
      → IsDetected c ops [] empty
      → let file = run_file c ops [] in
        let log = run_log c ops empty in
        (open_log c (reads size) (some file) ≡ ok (opened c size file, log.records))
        × (result_of (append c write r file).1 ≡ (Log.append (io_of c write r) r log).1)
  run-refines ops size write r told =
      let file = run_file c ops [] in
      let log = run_log c ops empty in
      let represents =
        run-Represents ops [] empty (unfold frames in Represents-frames [] false tt) told in
      ((open_log-Represents size file log represents).0, append-result write r file log)
