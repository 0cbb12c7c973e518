-- ===== src/Wal.antt =====
-- The write-ahead log, crates/qaas-core/src/wal.rs: the file is its list of bytes. JSON encoding and
-- CRC-32 are the parameter `Codec`. `Reads` says how many bytes each read of the file returns, and
-- `Write` how far a write comes before it fails.
pub mod Reading
pub mod Ending
pub mod Refinement
pub mod Framing
pub mod Crash
pub mod Tests
use queue_as_a_service.Base.{
  ℕ, zero, suc, ◌+◌, ◌-◌, ◌*◌, ◌/◌, ◌%◌, ◌<◌, min, ◌≡◌, List, [], ◌∷◌, ◌++◌, Option, none, some,
  ltb, ◌==◌, if◌then◌else◌, length, take, drop,
}

abbrev pub Bytes : Type 0
Bytes = List ℕ

-- `serde_json::to_vec`, `serde_json::from_slice` and `crc32fast::hash`.
pub record Codec (T : Type 0) : Type 0 where
  pub encode : T → Option Bytes
  pub decode : Bytes → Option T
  pub hash : Bytes → ℕ
  pub decode-encode : (t : T) (payload : Bytes) → encode t ≡ some payload → decode payload ≡ some t
  pub hash-lt : (payload : Bytes) → hash payload < 4294967296

pub data IoError : Type 0 where
  failed invalid_data out_of_fuel : IoError

pub data Io {ℓ} (A : Type ℓ) : Type ℓ where
  ok : A → Io A
  err : IoError → Io A

infixl 5 ◌>>=◌
abbrev pub ◌>>=◌ {ℓ κ} : {A : Type ℓ} {B : Type κ} → Io A → (A → Io B) → Io B
ok a >>= f = f a
err e >>= f = err e

abbrev pub length_prefix_bytes : ℕ
length_prefix_bytes = 4

abbrev pub checksum_bytes : ℕ
checksum_bytes = 4

-- `u32::to_le_bytes` and `u32::from_le_bytes`.
unfoldable pub to_le_bytes : ℕ → Bytes
to_le_bytes n = (n % 256) ∷ (n / 256 % 256) ∷ (n / 65536 % 256) ∷ (n / 16777216 % 256) ∷ []

unfoldable pub from_le_bytes : Bytes → ℕ
from_le_bytes [] = 0
from_le_bytes (b ∷ bs) = b + 256 * from_le_bytes bs

pub data ReadOutcome : Type 0 where
  full eof short_read : ReadOutcome

-- The outcome, the filled part of the buffer and the rest of the file.
pub record Read : Type 0 where
  pub outcome : ReadOutcome
  pub buffer : Bytes
  pub rest : Bytes

-- With `w` bytes still wanted a read that finds some returns at most `suc n` of them, at `some n`,
-- and fails at `none`. A read returns 0 bytes at the end of the file only.
abbrev pub Reads : Type 0
Reads = ℕ → Option ℕ

-- How many bytes one read returns.
abbrev pub read_size : ℕ → ℕ → Bytes → ℕ
read_size n wanted rest = min (min (suc n) wanted) (length rest)

-- The loop, with `wanted` for `buf.len() - filled`; each round reads a byte at least, so `wanted`
-- rounds of fuel are enough.
unfoldable pub fill : Reads → ℕ → ℕ → Bytes → Bytes → Io Read
fill reads zero wanted buffer rest =
    if wanted == 0
    then ok (record { outcome = full; buffer = buffer; rest = rest })
    else err out_of_fuel
fill reads (suc fuel) wanted buffer rest = elim (reads wanted) [
  | none ↦
      if wanted == 0
      then ok (record { outcome = full; buffer = buffer; rest = rest })
      else err failed
  | some n ↦
      let read = read_size n wanted rest in
      let next = fill reads fuel (wanted - read) (buffer ++ take read rest) (drop read rest) in
      let ended : Io Read = ok (record {
        outcome = if length buffer == 0 then eof else short_read;
        buffer = buffer;
        rest = rest;
      }) in
      if wanted == 0
      then ok (record { outcome = full; buffer = buffer; rest = rest })
      else if read == 0
      then ended
      else next
]

unfoldable pub read_exact_or_eof : Reads → ℕ → Bytes → Io Read
read_exact_or_eof reads wanted file = fill reads wanted wanted [] file

-- How far `write_all` and `sync_data` come: all written and synced, all written and the sync failed,
-- or a failure after some bytes.
pub data Write : Type 0 where
  synced unsynced : Write
  torn : ℕ → Write

abbrev pub write_framed : Write → Bytes → Bytes → Bytes × Io (Unit {0})
write_framed synced framed file = (file ++ framed, ok tt)
write_framed unsynced framed file = (file ++ framed, err failed)
write_framed (torn n) framed file = (file ++ take n framed, err failed)

module _ {T : Type 0} (c : Codec T) where
  -- The bytes of one record: length, checksum, payload.
  unfoldable pub frame : Bytes → Bytes
  frame payload = to_le_bytes (length payload) ++ to_le_bytes (c.hash payload) ++ payload

  -- The loop of `replay`. Round `i` reads by `reads (2 * i)` and `reads (2 * i + 1)`. A round that
  -- goes on takes 8 bytes at least, so as many rounds as the file has bytes are enough.
  unfoldable pub replay_loop : (ℕ → Reads) → ℕ → ℕ → Bytes → List T → ℕ → Io (List T × ℕ)
  replay_loop reads zero i file records valid_len = err out_of_fuel
  replay_loop reads (suc fuel) i file records valid_len = do
    header ← read_exact_or_eof (reads (2 * i)) (length_prefix_bytes + checksum_bytes) file
    elim header.outcome [
      | full ↦
          let payload_len = from_le_bytes (take length_prefix_bytes header.buffer) in
          let expected = from_le_bytes (drop length_prefix_bytes header.buffer) in
          read_exact_or_eof (reads (2 * i + 1)) payload_len header.rest >>= λ payload.
          elim payload.outcome [
            | full ↦
                let parsed : Io (List T × ℕ) = elim (c.decode payload.buffer) [
                  | none ↦ err invalid_data
                  | some r ↦
                      replay_loop reads fuel (suc i) payload.rest (records ++ r ∷ [])
                        (valid_len + (length header.buffer + length payload.buffer))
                ] in
                if c.hash payload.buffer == expected then parsed else ok (records, valid_len)
            | eof ↦ ok (records, valid_len)
            | short_read ↦ ok (records, valid_len)
          ]
      | eof ↦ ok (records, valid_len)
      | short_read ↦ ok (records, valid_len)
    ]

  -- A file that does not exist, `none`, has no records.
  unfoldable pub replay : (ℕ → Reads) → Option Bytes → Io (List T × ℕ)
  replay reads none = ok ([], 0)
  replay reads (some file) = replay_loop reads (suc (length file)) 0 file [] 0

  -- Opens the log: what follows the last good record is cut off, and a missing file is created.
  unfoldable pub open_log : (ℕ → Reads) → Option Bytes → Io (Bytes × List T)
  open_log reads file = replay reads file >>= λ (records, valid_len).
      ok (elim file [ none ↦ [] | some bytes ↦ take valid_len bytes ], records)

  -- The file after the call, and its result.
  unfoldable pub append : Write → T → Bytes → Bytes × Io (Unit {0})
  append write r file = elim (c.encode r) [
    | none ↦ (file, err invalid_data)
    | some payload ↦
        if ltb (length payload) 4294967296
        then write_framed write (frame payload) file
        else (file, err invalid_data)
  ]
