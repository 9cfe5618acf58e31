-- ===== src/Files/Parts.antt =====
-- The parts that are hashed are the file, cut into pieces.

use tapi2p.Base.{
  ℕ, zero, suc, ◌+◌, ◌-◌, ◌*◌, ◌/◌, ◌^◌, ◌<◌, ◌≤◌, ◌≡◌, refl, sym, ap, ap₂, ◌∙◌, inl, inr, some,
  List, [], ◌∷◌, ◌++◌, leb, take, drop, length, length-drop, take-append-drop, Bool-cases, arith,
  min, take_all, take_ge, drop_all, drop-drop,
}
use tapi2p.Files.{
  file_part_bytes, sha_digest_length, part_offset, part_size, hash_at, sha1_for_part, part_hashes,
  part_count, metadata_contents,
}

-- Part `i` of a file, in pieces of `size` bytes.
abbrev pub piece : ℕ → ℕ → List ℕ → List ℕ
piece size i bytes = take size (drop (i * size) bytes)

abbrev pub pieces : ℕ → ℕ → ℕ → List ℕ → List ℕ
pieces size i zero bytes = []
pieces size i (suc n) bytes = piece size i bytes ++ pieces size (i + 1) n bytes

-- Pieces that reach the end of the file make up what lies behind the first.
pub pieces-drop :
    (size i n : ℕ) (bytes : List ℕ)
    → length bytes ≤ (i + n) * size
    → pieces size i n bytes ≡ drop (i * size) bytes
pieces-drop size i zero bytes h = sym (drop_all (i * size) bytes (omega arith))
pieces-drop size i (suc n) bytes h =
    ap (◌++◌ (piece size i bytes)) (pieces-drop size (i + 1) n bytes (omega arith))
    ∙ ap (◌++◌ (piece size i bytes)) next
    ∙ take-append-drop size (drop (i * size) bytes)
  where
    index : (i + 1) * size ≡ i * size + size
    index = omega arith

    next : drop ((i + 1) * size) bytes ≡ drop size (drop (i * size) bytes)
    next = ap (λ (k : ℕ). drop k bytes) index ∙ sym (drop-drop (i * size) size bytes)

take-min {ℓ} : {A : Type ℓ} (n : ℕ) (xs : List A) → take (min n (length xs)) xs ≡ take n xs
take-min n xs = elim (Bool-cases (leb n (length xs))) [
  | inl y ↦ let e : min n (length xs) ≡ n = ground arith in ap (λ (k : ℕ). take k xs) e
  | inr z ↦
      let e : min n (length xs) ≡ length xs = ground arith in
      ap (λ (k : ℕ). take k xs) e ∙ take_all xs (length xs) refl ∙ sym (take_ge n xs (ground arith))
]

part_size-min :
    (part n : ℕ)
    → n + file_part_bytes < 2 ^ 32
    → part < n / file_part_bytes + 1
    → part_size part n ≡ min file_part_bytes (n - part * file_part_bytes)
unfolding part_size
part_size-min part n small inside = ground arith

hash_at-lem :
    (sha1 : List ℕ → List ℕ) (offset size : ℕ) (bytes : List ℕ)
    → offset + size ≤ length bytes
    → hash_at sha1 offset size bytes ≡ some (sha1 (take size (drop offset bytes)))
unfolding hash_at
hash_at-lem sha1 offset size bytes h = ground arith

-- For a file of less than 2^32 - FILE_PART_BYTES bytes and one of its parts, SHA1_for_part reads
-- inside the buffer and hashes just that part, the last one at its own length.
pub sha1_for_part-piece :
    (sha1 : List ℕ → List ℕ) (part : ℕ) (bytes : List ℕ)
    → length bytes + file_part_bytes < 2 ^ 32
    → part < part_count bytes
    → sha1_for_part sha1 part bytes ≡ some (sha1 (piece file_part_bytes part bytes))
unfolding sha1_for_part
sha1_for_part-piece sha1 part bytes small inside =
    ap₂ (λ (o s : ℕ). hash_at sha1 o s bytes) offset size
    ∙ hash_at-lem sha1 (part * file_part_bytes)
        (min file_part_bytes (length bytes - part * file_part_bytes)) bytes (omega arith)
    ∙ ap (λ (t : List ℕ). some (sha1 t)) whole
  where
    offset : part_offset part ≡ part * file_part_bytes
    offset = omega arith

    size :
        part_size part (length bytes) ≡ min file_part_bytes (length bytes - part * file_part_bytes)
    size = part_size-min part (length bytes) small inside

    whole :
        take
          (min file_part_bytes (length bytes - part * file_part_bytes))
          (drop (part * file_part_bytes) bytes)
        ≡ piece file_part_bytes part bytes
    whole =
        ap (λ (k : ℕ). take (min file_part_bytes k) (drop (part * file_part_bytes) bytes))
          (sym (length-drop (part * file_part_bytes) bytes))
        ∙ take-min file_part_bytes (drop (part * file_part_bytes) bytes)

-- The hashes that the metadata file lists.
abbrev pub piece_hashes : (List ℕ → List ℕ) → ℕ → ℕ → List ℕ → List ℕ
piece_hashes sha1 i zero bytes = []
piece_hashes sha1 i (suc n) bytes =
    take sha_digest_length (sha1 (piece file_part_bytes i bytes))
    ++ piece_hashes sha1 (i + 1) n bytes

part_hashes-lem :
    (sha1 : List ℕ → List ℕ) (i n : ℕ) (bytes : List ℕ)
    → length bytes + file_part_bytes < 2 ^ 32
    → i + n ≤ part_count bytes
    → part_hashes sha1 i n bytes ≡ some (piece_hashes sha1 i n bytes)
unfolding part_hashes
part_hashes-lem sha1 i zero bytes small h = refl
part_hashes-lem sha1 i (suc n) bytes small h = rw (
  part_hashes,
  sha1_for_part-piece sha1 i bytes small (omega arith),
  part_hashes-lem sha1 (i + 1) n bytes small (omega arith),
)

-- Of a file of less than 2^32 - FILE_PART_BYTES bytes the metadata file has the name, the hash of
-- the file and the hash of each part; and the parts that are hashed make up the file.
pub metadata_contents-pieces :
    (sha1 : List ℕ → List ℕ) (from bytes : List ℕ)
    → length bytes + file_part_bytes < 2 ^ 32
    → (metadata_contents sha1 from bytes
        ≡ some (
            from
            ++ (0
                ∷ (take sha_digest_length (sha1 bytes)
                    ++ piece_hashes sha1 0 (part_count bytes) bytes))))
      × (pieces file_part_bytes 0 (part_count bytes) bytes ≡ bytes)
unfolding metadata_contents
metadata_contents-pieces sha1 from bytes small = (
  rw (part_hashes-lem sha1 0 (part_count bytes) bytes small (omega arith), metadata_contents),
  pieces-drop file_part_bytes 0 (part_count bytes) bytes (omega arith),
)
