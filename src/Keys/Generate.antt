-- ===== src/Keys/Generate.antt =====
-- crypto/keygen.c: a new pair of keys, written to two files. What OpenSSL returns is an argument.
pub mod Written
use tapi2p.Base.{
  ℕ, ◌+◌, ◌/◌, ◌%◌, ℤ, pos, negsuc, Option, none, some, List, [], ◌∷◌, ◌++◌, Bool, true, false, not,
  ◌&&◌, ◌==◌, if◌then◌else◌, take, codes,
}
use tapi2p.Paths.{path_max}
use tapi2p.Keys.{Object, bio, handle, Effect, ◌>>=◌, ◌>>◌, give, alloc, release, use_bio}

-- The static pointers.
pub record Statics : Type 0 where
  pub evpkey : Option ℕ
  pub rsa : Option ℕ
  pub bignumber : Option ℕ
  pub file : Option ℕ
  pub p8info : Option ℕ

-- As the program starts, and as keygen_free leaves them.
abbrev pub no_objects : Statics
no_objects = record { evpkey = none; rsa = none; bignumber = none; file = none; p8info = none }

-- Which calls succeed: BN_new, RSA_new, BN_set_word with RSA_generate_key_ex, EVP_PKEY_set1_RSA,
-- EVP_PKEY2PKCS8, BIO_new, BIO_write_filename of a path, and the two that write PEM.
pub record Results : Type 0 where
  pub bn_new : Bool
  pub rsa_new : Bool
  pub generated : Bool
  pub converted : Bool
  pub pkcs8 : Bool
  pub bio_new : Bool
  pub opens : List ℕ → Bool
  pub writes_public : Bool
  pub writes_private : Bool

-- What happens to the files: one is created, or truncated, or gets a part of the key.
pub data FileAct : Type 0 where
  opened : List ℕ → FileAct
  wrote_public : List ℕ → FileAct
  wrote_private : List ℕ → FileAct

abbrev pub alloc_if : Bool → Object → Effect (Option ℕ)
alloc_if true x = do p ← alloc x; give (some p)
alloc_if false x = give none

unfoldable pub keygen_free : Statics → Effect Statics
keygen_free s = do
  release s.p8info
  release s.evpkey
  release s.bignumber
  release s.rsa
  release s.file
  give no_objects

abbrev pub Step : Type 0
Step = ℤ × List FileAct × Statics

abbrev pub written : Bool → FileAct → List FileAct → Statics → Step
written true act acts s = (pos 0, acts ++ (act ∷ []), s)
written false act acts s = (negsuc 0, acts, s)

abbrev pub after_open : Bool → FileAct → List ℕ → List FileAct → Bool × Statics → Effect Step
after_open writes act path acts (false, s) = give (negsuc 0, acts, s)
after_open writes act path acts (true, s) = give (written writes act (acts ++ (opened path ∷ [])) s)

-- An early return leaves the objects.
abbrev pub and_then : Step → (List FileAct → Statics → Effect Step) → Effect Step
and_then (pos n, acts, s) next = next acts s
and_then (negsuc n, acts, s) next = give (negsuc n, acts, s)

abbrev pub end_generate : List FileAct → Statics → Effect Step
end_generate acts s = do s' ← keygen_free s; give (pos 0, acts, s')

-- The bits of `keys`
abbrev pub wants_public : ℕ → Bool
wants_public keys = keys / 2 % 2 == 1

abbrev pub wants_private : ℕ → Bool
wants_private keys = keys % 2 == 1

abbrev pub is_set : Option ℕ → Bool
is_set none = false
is_set (some p) = true

-- path2
abbrev pub public_path : List ℕ → List ℕ
public_path path = take path_max path ++ codes ".pub"

module _ (r : Results) where
  -- keygen_init. Its steps, each after the one before has succeeded.
  abbrev pub init_p8 : Statics → Effect (ℤ × Statics)
  init_p8 s = do
    p ← alloc_if r.pkcs8 handle
    give (if r.pkcs8 then pos 0 else negsuc 0, record s { p8info = p })

  abbrev pub init_evp : Statics → Effect (ℤ × Statics)
  init_evp s = do
    p ← alloc handle
    (if r.converted
        then init_p8 (record s { evpkey = some p })
        else give (negsuc 0, record s { evpkey = some p }))

  abbrev pub init_rsa : Statics → Effect (ℤ × Statics)
  init_rsa s = do
    p ← alloc_if r.rsa_new handle
    (if r.rsa_new && r.generated
        then init_evp (record s { rsa = p })
        else give (negsuc 0, record s { rsa = p }))

  unfoldable pub keygen_init : Statics → Effect (ℤ × Statics)
  keygen_init s = do
    p ← alloc_if r.bn_new handle
    (if r.bn_new
        then init_rsa (record s { bignumber = p })
        else give (negsuc 0, record s { bignumber = p }))

  abbrev pub file_or_new : Option ℕ → Effect (Option ℕ)
  file_or_new none = alloc_if r.bio_new bio
  file_or_new (some p) = give (some p)

  abbrev pub open_path : List ℕ → Statics → Option ℕ → Effect (Bool × Statics)
  open_path path s none = give (false, record s { file = none })
  open_path path s (some p) = do use_bio (some p); give (r.opens path, record s { file = some p })

  -- keygen_bio_init; the result is whether it returns 0.
  unfoldable pub keygen_bio_init : List ℕ → Statics → Effect (Bool × Statics)
  keygen_bio_init path s = do p ← file_or_new s.file; open_path path s p

  -- One file, if it is asked for: keygen_bio_init, then generate_pubkey or generate_privkey.
  abbrev pub write_part : Bool → Bool → FileAct → List ℕ → List FileAct → Statics → Effect Step
  write_part false writes act path acts s = give (pos 0, acts, s)
  write_part true writes act path acts s = do
    o ← keygen_bio_init path s
    after_open writes act path acts o

  -- generate; what keygen_init returns is not looked at. OpenSSL's functions that write PEM refuse the
  -- NULL pointers that it may leave.
  unfoldable pub generate : List ℕ → ℕ → Statics → Effect Step
  unfolding keygen_init keygen_bio_init keygen_free
  generate path keys s = do
    (ready, s1) ← keygen_init s
    first ←
        write_part (wants_public keys) (r.writes_public && is_set s1.rsa)
          (wrote_public (public_path path)) (public_path path) [] s1
    and_then first λ acts s2. do
      second ←
          write_part (wants_private keys) (r.writes_private && is_set s2.p8info)
            (wrote_private path) path acts s2
      and_then second end_generate
