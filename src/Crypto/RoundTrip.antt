-- ===== src/Crypto/RoundTrip.antt =====
-- What is encrypted for a peer, the peer decrypts.
use mathlib.Core.List.{append_assoc}
use tapi2p.Base.{
  ℕ, ◌%◌, ◌^◌, ◌<◌, ◌≡◌, sym, ap, ◌∙◌, ◌+◌, refl, true, lt→ltb, some, List, ◌++◌, take, drop,
  length, take_all, take-append_of_length, drop-append_of_length, arith,
}
use tapi2p.Crypto.{
  Openssl, Enc, pkcs5_salt_len, cipher_key, cipher_iv, sealed, fits_int, aes_encrypt_with_pass,
  m_decryptinit, aes_decrypt_with_key,
}

module _ (o : Openssl) where
  open o use {
    PublicKey, PrivateKey, public_encrypt, private_decrypt, pbkdf2, aes_256_cbc_encrypt,
    aes_256_cbc_decrypt,
  }

  pub aes_encrypt_with_pass-sealed :
      (salt bytes pw buf encpass : List ℕ) (pubkey : PublicKey)
      → pbkdf2 pw (take pkcs5_salt_len salt) ≡ some buf
      → public_encrypt pubkey pw ≡ some encpass
      → length bytes + 16 < 2 ^ 31
      → aes_encrypt_with_pass o salt bytes pw pubkey
        ≡ some (sealed o salt encpass (aes_256_cbc_encrypt (cipher_key buf) (cipher_iv buf) bytes))
  unfolding aes_encrypt_with_pass
  aes_encrypt_with_pass-sealed salt bytes pw buf encpass pubkey derived encrypted fits =
      rw (aes_encrypt_with_pass, derived)
        (rw (encrypted, lt→ltb (length bytes + 16) (2 ^ 31) fits) refl)

  -- The lengths that fit their fields, and the payload that they cut up again.
  module _ (salt encpass c : List ℕ) (short : length encpass < 2 ^ 16)
      (fits : length c + 16 < 2 ^ 31) where
    pass_len-sealed : length encpass % 2 ^ 16 ≡ length encpass
    pass_len-sealed = omega arith

    pub payload-sealed : (sealed o salt encpass c).payload ≡ encpass ++ c
    payload-sealed =
        ap (λ (t : List ℕ). t ++ c)
          (take_all encpass (length encpass % 2 ^ 16) (sym pass_len-sealed))

    pass-sealed :
        take (sealed o salt encpass c).pass_len (sealed o salt encpass c).payload ≡ encpass
    pass-sealed =
        ap (take (length encpass % 2 ^ 16)) payload-sealed
        ∙ take-append_of_length (length encpass % 2 ^ 16) encpass c (sym pass_len-sealed)

    cipher-sealed :
        take
          (sealed o salt encpass c).data_len
          (drop (sealed o salt encpass c).pass_len (sealed o salt encpass c).payload)
        ≡ c
    cipher-sealed =
        ap (λ (t : List ℕ). take (length c % 2 ^ 32) (drop (length encpass % 2 ^ 16) t))
          payload-sealed
        ∙ ap (take (length c % 2 ^ 32))
            (drop-append_of_length (length encpass % 2 ^ 16) encpass c (sym pass_len-sealed))
        ∙ take_all c (length c % 2 ^ 32) (omega arith)

    -- Memory behind the payload does not matter.
    pass-padded :
        (rest : List ℕ)
        → take (length encpass % 2 ^ 16) ((sealed o salt encpass c).payload ++ rest) ≡ encpass
    pass-padded rest =
        ap (λ (t : List ℕ). take (length encpass % 2 ^ 16) (t ++ rest)) payload-sealed
        ∙ ap (take (length encpass % 2 ^ 16)) (append_assoc encpass c rest)
        ∙ take-append_of_length (length encpass % 2 ^ 16) encpass (c ++ rest) (sym pass_len-sealed)

    cipher-padded :
        (rest : List ℕ)
        → take
            (length c % 2 ^ 32)
            (drop (length encpass % 2 ^ 16) ((sealed o salt encpass c).payload ++ rest))
          ≡ c
    cipher-padded rest =
        ap (λ (t : List ℕ). take (length c % 2 ^ 32) (drop (length encpass % 2 ^ 16) (t ++ rest)))
          payload-sealed
        ∙ ap (λ (t : List ℕ). take (length c % 2 ^ 32) (drop (length encpass % 2 ^ 16) t))
            (append_assoc encpass c rest)
        ∙ ap (take (length c % 2 ^ 32)) (
            drop-append_of_length (length encpass % 2 ^ 16) encpass (c ++ rest)
              (sym pass_len-sealed))
        ∙ take-append_of_length (length c % 2 ^ 32) c rest (omega arith)

  -- The length of the cipher as the struct has it.
  fits_int-sealed :
      (salt encpass c : List ℕ)
      → length c + 16 < 2 ^ 31
      → fits_int (sealed o salt encpass c).data_len ≡ true
  fits_int-sealed salt encpass c fits = lt→ltb (length c % 2 ^ 32 + 16) (2 ^ 31) (omega arith)

  -- aes_decrypt_with_key undoes aes_encrypt_with_pass, where the private key decrypts what the
  -- public key encrypted, AES decryption undoes AES encryption under the derived key, the encrypted
  -- password has less than 2^16 bytes, and the data, as well as the encrypted data, with a block more
  -- less than 2^31, which an int holds.
  pub aes_decrypt_with_key-aes_encrypt_with_pass :
      (salt bytes pw buf encpass : List ℕ) (pubkey : PublicKey) (privkey : PrivateKey)
      → pbkdf2 pw (take pkcs5_salt_len salt) ≡ some buf
      → public_encrypt pubkey pw ≡ some encpass
      → private_decrypt privkey encpass ≡ some pw
      → aes_256_cbc_decrypt
          (cipher_key buf)
          (cipher_iv buf)
          (aes_256_cbc_encrypt (cipher_key buf) (cipher_iv buf) bytes)
        ≡ bytes
      → length encpass < 2 ^ 16
      → length bytes + 16 < 2 ^ 31
      → length (aes_256_cbc_encrypt (cipher_key buf) (cipher_iv buf) bytes) + 16 < 2 ^ 31
      → (enc : Enc) × (aes_encrypt_with_pass o salt bytes pw pubkey ≡ some enc)
        × (aes_decrypt_with_key o enc privkey ≡ some bytes)
  unfolding aes_decrypt_with_key m_decryptinit
  aes_decrypt_with_key-aes_encrypt_with_pass salt bytes pw buf encpass pubkey privkey derived
        encrypted decrypted plain short small fits =
      (
        sealed o salt encpass c,
        aes_encrypt_with_pass-sealed salt bytes pw buf encpass pubkey derived encrypted small,
        rw (fits_int-sealed salt encpass c fits, pass-sealed salt encpass c short fits, decrypted)
            (rw derived (
              ap some (
                ap (aes_256_cbc_decrypt (cipher_key buf) (cipher_iv buf))
                  (cipher-sealed salt encpass c short fits)
                ∙ plain))),
      )
    where
      c : List ℕ
      c = aes_256_cbc_encrypt (cipher_key buf) (cipher_iv buf) bytes

  -- The same for the sealed struct, with any memory behind its payload.
  pub aes_decrypt_with_key-padded :
      (salt bytes pw buf encpass rest : List ℕ) (privkey : PrivateKey)
      → pbkdf2 pw (take pkcs5_salt_len salt) ≡ some buf
      → private_decrypt privkey encpass ≡ some pw
      → aes_256_cbc_decrypt
          (cipher_key buf)
          (cipher_iv buf)
          (aes_256_cbc_encrypt (cipher_key buf) (cipher_iv buf) bytes)
        ≡ bytes
      → length encpass < 2 ^ 16
      → length (aes_256_cbc_encrypt (cipher_key buf) (cipher_iv buf) bytes) + 16 < 2 ^ 31
      → let enc =
          sealed o salt encpass (aes_256_cbc_encrypt (cipher_key buf) (cipher_iv buf) bytes) in
        aes_decrypt_with_key o (record enc { payload = enc.payload ++ rest }) privkey ≡ some bytes
  unfolding aes_decrypt_with_key m_decryptinit
  aes_decrypt_with_key-padded salt bytes pw buf encpass rest privkey derived decrypted plain short
        fits =
      rw
        (fits_int-sealed salt encpass c fits, pass-padded salt encpass c short fits rest, decrypted)
        (rw derived (
          ap some (
            ap (aes_256_cbc_decrypt (cipher_key buf) (cipher_iv buf))
              (cipher-padded salt encpass c short fits rest)
            ∙ plain)))
    where
      c : List ℕ
      c = aes_256_cbc_encrypt (cipher_key buf) (cipher_iv buf) bytes
