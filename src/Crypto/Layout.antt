-- ===== src/Crypto/Layout.antt =====
-- enc_t of crypto/aes.h as it goes over a connection: 32 bytes with the gaps that align m_DataLen
-- and m_Data, and the payload behind them.
use tapi2p.Base.{
  ℕ, ◌^◌, ◌<◌, ◌≡◌, List, ◌++◌, take, drop, length, length-append, to_le, of_le, of_le-to_le,
  take-append_of_length, drop-append_of_length, arith,
}
use tapi2p.Crypto.{Enc, pkcs5_salt_len}

-- sizeof(enc_t)
abbrev pub enc_size : ℕ
enc_size = 32

-- The struct; `gap` and `gap'` are what malloc left in its gaps, `ptr` is m_Data.
abbrev pub enc_header : ℕ → ℕ → ℕ → Enc → List ℕ
enc_header gap gap' ptr e =
    to_le 4 e.magic
    ++ (e.salt
        ++ (to_le 2 e.pass_len
            ++ (to_le 2 gap ++ (to_le 4 e.data_len ++ (to_le 4 gap' ++ to_le 8 ptr)))))

-- The bytes that aes_encrypt_with_pass returns.
abbrev pub enc_bytes : ℕ → ℕ → ℕ → Enc → List ℕ
enc_bytes gap gap' ptr e = enc_header gap gap' ptr e ++ e.payload

-- The struct read out of its bytes, with m_Data pointing to `payload`.
unfoldable pub read_enc : List ℕ → List ℕ → Enc
read_enc h0 payload =
    let h1 = drop 4 h0 in
    let h2 = drop pkcs5_salt_len h1 in
    let h3 = drop 4 h2 in
    record {
      magic = of_le (take 4 h0);
      salt = take pkcs5_salt_len h1;
      pass_len = of_le (take 2 h2);
      data_len = of_le (take 4 h3);
      payload = payload;
    }

pub record FitsEnc (e : Enc) : Type 0 where
  pub magic_fits : e.magic < 256 ^ 4
  pub salt_full : length e.salt ≡ pkcs5_salt_len
  pub pass_len_fits : e.pass_len < 256 ^ 2
  pub data_len_fits : e.data_len < 256 ^ 4

module _ (gap gap' ptr : ℕ) (e : Enc) (f : FitsEnc e) where
  pub length-enc_header : length (enc_header gap gap' ptr e) ≡ enc_size
  length-enc_header = omega (
    arith,
    f.salt_full,
    length-append e.salt (
        to_le 2 e.pass_len
        ++ (to_le 2 gap ++ (to_le 4 e.data_len ++ (to_le 4 gap' ++ to_le 8 ptr)))),
  )

  pub read_enc-enc_header :
      (payload : List ℕ)
      → read_enc (enc_header gap gap' ptr e) payload ≡ record e { payload = payload }
  unfolding read_enc
  read_enc-enc_header payload =
      rw
        (
          take-append_of_length pkcs5_salt_len e.salt _ f.salt_full,
          drop-append_of_length pkcs5_salt_len e.salt _ f.salt_full,
        )
        λ i. record {
          magic = of_le-to_le 4 e.magic f.magic_fits i;
          salt = e.salt;
          pass_len = of_le-to_le 2 e.pass_len f.pass_len_fits i;
          data_len = of_le-to_le 4 e.data_len f.data_len_fits i;
          payload = payload;
        }
