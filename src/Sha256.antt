-- ===== src/Sha256.antt =====
-- src/SHA256.cxx and include/wrutil/SHA256.h, wr::SHA256, on a little-endian machine with a 64-bit
-- size_t. The state keeps the first 64 bytes of W_: the other words of W_ are scratch space that
-- `computeBlock` writes before it reads them.
pub mod Block
pub mod Append
pub mod Padding
pub mod Pieces
pub mod Digest
pub mod Standard
pub mod Hex
mod Runs
use wrutil.Common.{
  ℕ, zero, suc, ◌+◌, ◌-◌, ◌*◌, ◌/◌, ◌%◌, ◌^◌, ◌<◌, ltb, leb, ◌==◌, if◌then◌else◌, ◌&&◌, bit_or,
  Bool, true, false, Option, none, some, ◌>>=◌, List, [], ◌∷◌, ◌++◌, length, take, drop, replicate,
  set, min, get_or,
}
use wrutil.Sha256.Block.{Registers, compress, swap_bytes}

pub record Sha256 : Type 0 where
  pub hash_words : Registers
  pub buffer : List ℕ
  pub total_length : ℕ

-- memcpy or memset into the buffer, from byte `pos` on.
abbrev pub write_at : ℕ → List ℕ → List ℕ → List ℕ
write_at pos bytes buffer = take pos buffer ++ (bytes ++ drop (pos + length bytes) buffer)

abbrev pub initial_hash : Registers
initial_hash = record {
  a = 0x6a09e667;
  b = 0xbb67ae85;
  c = 0x3c6ef372;
  d = 0xa54ff53a;
  e = 0x510e527f;
  f = 0x9b05688c;
  g = 0x1f83d9ab;
  h = 0x5be0cd19;
}

-- `reset` leaves W_ alone, and so does the constructor, which calls it.
unfoldable pub reset : Sha256 → Sha256
reset s = record s { hash_words = initial_hash; total_length = 0 }

-- `computeBlock(H_, W_)`
abbrev pub process : Sha256 → Sha256
process s = record s { hash_words = compress s.hash_words s.buffer; buffer = swap_bytes s.buffer }

abbrev pub position : Sha256 → ℕ
position s = s.total_length % 64

-- One pass of the loop of `append` that copies `count` bytes from `data`.
abbrev pub copy_in : ℕ → List ℕ → Sha256 → Sha256
copy_in count bytes s = record s {
  buffer = write_at (position s) (take count bytes) s.buffer;
  total_length = (s.total_length + count) % 2 ^ 64;
}

abbrev fill_block : ℕ → List ℕ → Sha256 → Sha256
fill_block count bytes s =
    let t = record s { buffer = write_at (position s) (take count bytes) s.buffer } in
    record (process t) { total_length = (s.total_length + count) % 2 ^ 64 }

-- The loop `while (size)`; `data` stays the same in all passes. `none`: the fuel ran out.
append_loop : ℕ → List ℕ → ℕ → Sha256 → Option Sha256
append_loop fuel bytes zero s = some s
append_loop zero bytes (suc size) s = none
append_loop (suc fuel) bytes (suc size) s =
    let room = 64 - position s in
    let rest = append_loop fuel bytes (suc size - room) (fill_block room bytes s) in
    if ltb (suc size) room then some (copy_in (suc size) bytes s) else rest

-- Each pass takes a byte at least, so the size is fuel enough.
unfoldable pub append : List ℕ → Sha256 → Option Sha256
unfolding append_loop
append bytes s = append_loop (length bytes) bytes (length bytes) s

-- The eight bytes of a uint64_t, the highest first: what the writes to w[14] and w[15] leave.
abbrev pub big_endian : ℕ → ℕ → List ℕ
big_endian zero n = []
big_endian (suc k) n = n / 256 ^ k % 256 ∷ big_endian k n

-- The first part of the static `hash`: the mark behind the message and the zeros; where fewer than
-- eight bytes are left for the size, the block is compressed and the zeros go on in the next.
unfoldable pub mark_and_pad : Sha256 → Sha256
mark_and_pad s =
    let pos = s.total_length % 64 in
    let left = 64 - pos - 1 in
    let marked = write_at pos (0x80 ∷ []) s.buffer in
    if ltb 8 left
    then record s { buffer = write_at (pos + 1) (replicate (left - 8) 0) marked }
    else if ltb left 8
    then (let full = process (record s { buffer = write_at (pos + 1) (replicate left 0) marked }) in
        record full { buffer = write_at 0 (replicate 56 0) full.buffer })
    else record s { buffer = marked }

-- All of it: the size in bits goes into the last eight bytes; `none` is overflow_error.
unfoldable pub finish : Sha256 → Option Sha256
unfolding mark_and_pad
finish s =
    let padded = mark_and_pad s in
    let bits = s.total_length * 8 % 2 ^ 64 in
    if ltb bits s.total_length
    then none
    else some (process (record padded { buffer = write_at 56 (big_endian 8 bits) padded.buffer }))

-- `hash()` changes the state and returns H_; `chash()` works on copies.
unfoldable pub hash : Sha256 → Option (Registers × Sha256)
hash s = finish s >>= λ t. some (t.hash_words, t)

unfoldable pub chash : Sha256 → Option (Registers × Sha256)
chash s = finish s >>= λ t. some (t.hash_words, s)

-- `toHash` over the characters; the first argument counts the characters behind the current word
-- begun, `element` is the word that is being read and `done` holds the words before it. Characters
-- are ASCII; `tolower` and `isdigit` are those of the C locale.
abbrev pub is_digit : ℕ → Bool
is_digit c = leb b'0' c && leb c b'9'

abbrev to_lower : ℕ → ℕ
to_lower c = if leb b'A' c && leb c b'Z' then c + 32 else c

abbrev pub digit_bits : ℕ → ℕ
digit_bits c =
    if is_digit c
    then c - b'0'
    else if leb b'a' (to_lower c) && leb (to_lower c) b'f'
    then to_lower c - b'a'
    else 0

-- `h` begins with unspecified words: `toHash` does not set what the text is too short for.
to_hash_loop : List ℕ → ℕ → List ℕ → List ℕ
to_hash_loop [] i h = h
to_hash_loop (c ∷ str) i h =
    let word = i / 8 in
    let shifted = if i % 8 == 0 then 0 else get_or h word 0 * 16 % 2 ^ 32 in
    to_hash_loop str (i + 1) (set h word (bit_or shifted (digit_bits c)))

unfoldable pub to_hash : List ℕ → List ℕ → List ℕ
unfolding to_hash_loop
to_hash str h = to_hash_loop (take (min (length str) 64) str) 0 h
