-- ===== src/Crypto.antt =====
-- crypto/aes.c: an event on its way to a peer, under a one-time AES key that goes along under the
-- peer's RSA key. OpenSSL is the argument `Openssl`; crypto/publickey.c and crypto/privatekey.c only
-- pass on to it. Random bytes are arguments.
pub mod Layout
pub mod RoundTrip
use tapi2p.Base.{
  ℕ, ◌+◌, ◌%◌, ◌^◌, Option, none, some, List, ◌++◌, Bool, ◌==◌, if◌then◌else◌, ltb, take, drop,
  length,
}

-- `none` is OpenSSL's refusal.
pub record Openssl : Type 1 where
  pub PublicKey : Type 0
  pub PrivateKey : Type 0
  pub public_encrypt : PublicKey → List ℕ → Option (List ℕ)
  pub private_decrypt : PrivateKey → List ℕ → Option (List ℕ)
  pub pbkdf2 : List ℕ → List ℕ → Option (List ℕ)
  pub aes_256_cbc_encrypt : List ℕ → List ℕ → List ℕ → List ℕ
  pub aes_256_cbc_decrypt : List ℕ → List ℕ → List ℕ → List ℕ

-- m_Magic
abbrev pub magic : ℕ
magic = 0x0074B12B

-- PKCS5_SALT_LEN
abbrev pub pkcs5_salt_len : ℕ
pkcs5_salt_len = 8

-- enc_t, with the memory that m_Data points to.
pub record Enc : Type 0 where
  pub magic : ℕ
  pub salt : List ℕ
  pub pass_len : ℕ
  pub data_len : ℕ
  pub payload : List ℕ

-- Whether a length and the block behind it fit an int, as both functions compute them. Where they do not,
-- the arrays on the stack have no size.
abbrev pub fits_int : ℕ → Bool
fits_int n = ltb (n + 16) (2 ^ 31)

-- The key and the initialisation vector in the derived bytes.
abbrev pub cipher_key : List ℕ → List ℕ
cipher_key buf = take 32 buf

abbrev pub cipher_iv : List ℕ → List ℕ
cipher_iv buf = take 16 (drop 32 buf)

module _ (o : Openssl) where
  open o use {
    PublicKey, PrivateKey, public_encrypt, private_decrypt, pbkdf2, aes_256_cbc_encrypt,
    aes_256_cbc_decrypt,
  }

  -- The struct that aes_encrypt_with_pass builds. m_PassLen has 16 bits, m_DataLen 32, and only
  -- m_PassLen bytes of the password are copied.
  abbrev pub sealed : List ℕ → List ℕ → List ℕ → Enc
  sealed salt encpass c = record {
    magic = magic;
    salt = take pkcs5_salt_len salt;
    pass_len = length encpass % 2 ^ 16;
    data_len = length c % 2 ^ 32;
    payload = take (length encpass % 2 ^ 16) encpass ++ c;
  }

  -- aes_encrypt_with_pass, called by aes_encrypt_random_pass with a random password; `none` where a
  -- refusal of OpenSSL leaves a pointer or a key unset, or `len` and a block do not fit an int.
  unfoldable pub aes_encrypt_with_pass : List ℕ → List ℕ → List ℕ → PublicKey → Option Enc
  aes_encrypt_with_pass salt bytes pw pubkey =
      let made : Option Enc = elim (pbkdf2 pw (take pkcs5_salt_len salt)) [
        | none ↦ none
        | some buf ↦ elim (public_encrypt pubkey pw) [
          | none ↦ none
          | some encpass ↦
              some
                (sealed salt encpass (aes_256_cbc_encrypt (cipher_key buf) (cipher_iv buf) bytes))
        ]
      ] in
      if fits_int (length bytes) then made else none

  -- m_decryptinit: the derived bytes. A wrong magic number, like a refusal of OpenSSL, leaves the
  -- cipher unset, and the caller goes on with it.
  unfoldable pub m_decryptinit : Enc → PrivateKey → Option (List ℕ)
  m_decryptinit enc privkey =
      let derived : Option (List ℕ) =
        elim (private_decrypt privkey (take enc.pass_len enc.payload)) [
          | none ↦ none
          | some plainpass ↦ pbkdf2 plainpass enc.salt
        ] in
      if enc.magic == magic then derived else none

  -- aes_decrypt_with_key: the bytes that m_decdata then holds, `none` where they are not
  -- determined, as after a refusal in m_decryptinit, or where m_DataLen and a block do not fit an
  -- int.
  unfoldable pub aes_decrypt_with_key : Enc → PrivateKey → Option (List ℕ)
  unfolding m_decryptinit
  aes_decrypt_with_key enc privkey =
      let plain : Option (List ℕ) = elim (m_decryptinit enc privkey) [
        | none ↦ none
        | some buf ↦ some (
            aes_256_cbc_decrypt (cipher_key buf) (cipher_iv buf)
              (take enc.data_len (drop enc.pass_len enc.payload)))
      ] in
      if fits_int enc.data_len then plain else none
