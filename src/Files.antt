-- ===== src/Files.antt =====
-- core/file.c: hashes of files and of their parts, and the metadata file. OpenSSL's SHA1 and the
-- file system are arguments.
pub mod Hex
pub mod Parts
use tapi2p.Base.{
  ℕ, zero, suc, ◌+◌, ◌-◌, ◌*◌, ◌/◌, ◌%◌, ◌^◌, Option, none, some, List, [], ◌∷◌, ◌++◌, Bool, ltb,
  leb, if◌then◌else◌, take, drop, length,
}

-- SHA_DIGEST_LENGTH
abbrev pub sha_digest_length : ℕ
sha_digest_length = 20

-- FILE_PART_BYTES
abbrev pub file_part_bytes : ℕ
file_part_bytes = 524288

-- A digit as printf "%x" writes it.
abbrev pub hex_digit : ℕ → ℕ
hex_digit n = if ltb n 10 then b'0' + n else b'a' + (n - 10)

-- The loop of sha_to_str: "%02x" of each byte.
unfoldable pub hex_bytes : List ℕ → List ℕ
hex_bytes [] = []
hex_bytes (b ∷ bs) = hex_digit (b / 16) ∷ hex_digit (b % 16) ∷ hex_bytes bs

-- The string that sha_to_str writes.
unfoldable pub sha_to_str : List ℕ → List ℕ
unfolding hex_bytes
sha_to_str sha = hex_bytes (take sha_digest_length sha)

-- part*FILE_PART_BYTES in the 32 bits of `unsigned`.
abbrev pub part_offset : ℕ → ℕ
part_offset part = part * file_part_bytes % 2 ^ 32

-- `bytes` of SHA1_for_part; `datasize` and the difference from it are size_t.
unfoldable pub part_size : ℕ → ℕ → ℕ
part_size part datasize =
    if ltb datasize ((part * file_part_bytes + file_part_bytes) % 2 ^ 32)
    then (2 ^ 64 + datasize - part_offset part) % 2 ^ 64
    else file_part_bytes

-- SHA1 of `size` bytes from an offset; `none` is a read outside the buffer.
unfoldable pub hash_at : (List ℕ → List ℕ) → ℕ → ℕ → List ℕ → Option (List ℕ)
hash_at sha1 offset size bytes =
    if leb (offset + size) (length bytes) then some (sha1 (take size (drop offset bytes))) else none

-- SHA1_for_part of the whole buffer `bytes`.
unfoldable pub sha1_for_part : (List ℕ → List ℕ) → ℕ → List ℕ → Option (List ℕ)
unfolding part_size hash_at
sha1_for_part sha1 part bytes =
    hash_at sha1 (part_offset part) (part_size part (length bytes)) bytes

-- The loop over the parts, from part `i` on, `n` of them.
unfoldable pub part_hashes : (List ℕ → List ℕ) → ℕ → ℕ → List ℕ → Option (List ℕ)
unfolding sha1_for_part
part_hashes sha1 i zero bytes = some []
part_hashes sha1 i (suc n) bytes = elim (sha1_for_part sha1 i bytes) [
  | none ↦ none
  | some sha ↦ elim (part_hashes sha1 (i + 1) n bytes) [
    | none ↦ none
    | some rest ↦ some (take sha_digest_length sha ++ rest)
  ]
]

-- part_count
abbrev pub part_count : List ℕ → ℕ
part_count bytes = length bytes / file_part_bytes + 1

-- What create_metadata_file writes: the name with its NUL, the hash of the file, those of the parts.
unfoldable pub metadata_contents : (List ℕ → List ℕ) → List ℕ → List ℕ → Option (List ℕ)
unfolding part_hashes
metadata_contents sha1 from bytes = elim (part_hashes sha1 0 (part_count bytes) bytes) [
  | none ↦ none
  | some hashes ↦ some (from ++ (0 ∷ (take sha_digest_length (sha1 bytes) ++ hashes)))
]

-- create_metadata_file of an open file with these bytes: the hash string, and what is written at
-- the path of the metadata file, if getpath gives one (`pathed` says so).
unfoldable pub create_metadata_file :
    (List ℕ → List ℕ) → Bool → List ℕ → List ℕ → Option (List ℕ × Option (List ℕ))
unfolding sha_to_str metadata_contents
create_metadata_file sha1 pathed from bytes =
    if pathed
    then elim (metadata_contents sha1 from bytes) [
      | none ↦ none
      | some contents ↦ some (sha_to_str (sha1 bytes), some contents)
    ]
    else some (sha_to_str (sha1 bytes), none)

-- check_or_create_metadata: what is written, if stat does not find the file and fopen opens it.
unfoldable pub check_or_create_metadata : Bool → Bool → List ℕ → ℕ → List ℕ → ℕ → Option (List ℕ)
check_or_create_metadata found opens sha_data sha_size filename filename_len =
    if found
    then none
    else if opens
    then some (take filename_len filename ++ take sha_size sha_data)
    else none
