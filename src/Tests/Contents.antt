-- ===== src/Tests/Contents.antt =====
-- Files, ciphers and paths at concrete inputs.
use tapi2p.Base.{
  ℕ, ◌≡◌, refl, none, some, List, [], ◌∷◌, ◌++◌, arith, codes, length, take, replicate,
}
use tapi2p.Files.{metadata_contents, file_part_bytes}
use tapi2p.Files.Parts.{pieces, metadata_contents-pieces}
use tapi2p.Crypto.{Openssl, Enc, aes_encrypt_with_pass, aes_decrypt_with_key}
use tapi2p.Crypto.RoundTrip.{aes_decrypt_with_key-aes_encrypt_with_pass}
use tapi2p.Paths.{Env}

abbrev digest : List ℕ
digest = replicate 20 200

-- A hash for the tests: the length and the first bytes.
abbrev sha1 : List ℕ → List ℕ
sha1 xs = take 20 (length xs ∷ xs)

abbrev small_file : List ℕ
small_file = 1 ∷ 2 ∷ 3 ∷ []

metadata_contents-pieces_example :
    (metadata_contents sha1 (codes "f") small_file
      ≡ some (codes "f" ++ (0 ∷ 3 ∷ 1 ∷ 2 ∷ 3 ∷ 3 ∷ 1 ∷ 2 ∷ 3 ∷ [])))
    × (pieces file_part_bytes 0 1 small_file ≡ small_file)
metadata_contents-pieces_example =
    metadata_contents-pieces sha1 (codes "f") small_file (omega arith)

-- A cipher that changes nothing, with one key.
abbrev plain : Openssl
plain = record {
  PublicKey = Unit {0};
  PrivateKey = Unit {0};
  public_encrypt = λ k xs. some xs;
  private_decrypt = λ k xs. some xs;
  pbkdf2 = λ pw salt. some (pw ++ salt);
  aes_256_cbc_encrypt = λ k iv xs. xs;
  aes_256_cbc_decrypt = λ k iv xs. xs;
}

aes_decrypt_with_key-aes_encrypt_with_pass_example :
    (enc : Enc) × (aes_encrypt_with_pass plain (replicate 8 1) (5 ∷ 6 ∷ []) (7 ∷ 8 ∷ []) tt
      ≡ some enc)
    × (aes_decrypt_with_key plain enc tt ≡ some (5 ∷ 6 ∷ []))
aes_decrypt_with_key-aes_encrypt_with_pass_example =
    aes_decrypt_with_key-aes_encrypt_with_pass plain (replicate 8 1) (5 ∷ 6 ∷ []) (7 ∷ 8 ∷ [])
      (7 ∷ 8 ∷ replicate 8 1) (7 ∷ 8 ∷ []) tt tt refl refl refl refl (omega arith) (omega arith)
      (omega arith)

abbrev home_env : Env
home_env = record { root = none; home = some (codes "/h") }

abbrev below : List ℕ
below = codes "/h/.config/tapi2p/"
