-- ===== src/Keys.antt =====
-- crypto/key.c, crypto/publickey.c and crypto/privatekey.c: an RSA key and the objects that it owns.
-- What OpenSSL computes is an argument, and so is whether it starts an operation.
pub mod Laws
pub mod Generate
use tapi2p.Base.{
  ℕ, suc, ◌+◌, ℤ, pos, negsuc, Option, none, some, List, [], ◌∷◌, Bool, true, false, ◌==◌,
  if◌then◌else◌,
}

-- A key is the bytes of its file: whether PEM_read_bio_PUBKEY or PEM_read_bio_PrivateKey takes them,
-- EVP_PKEY_size, and EVP_PKEY_encrypt and EVP_PKEY_decrypt under them.
pub record Evp : Type 0 where
  pub is_public : List ℕ → Bool
  pub is_private : List ℕ → Bool
  pub size_of : List ℕ → ℕ
  pub encrypt : List ℕ → List ℕ → Option (List ℕ)
  pub decrypt : List ℕ → List ℕ → Option (List ℕ)

-- What an address leads to: an EVP_PKEY_CTX of a key, a BIO, bytes, or another object of OpenSSL.
pub data Object : Type 0 where
  context : List ℕ → Object
  bio : Object
  handle : Object
  memory : List ℕ → Object

-- The objects by their addresses, the latest first, and the next address.
pub record Heap : Type 0 where
  pub objects : List (ℕ × Object)
  pub fresh : ℕ

-- What a call gives and the heap it leaves, unless it uses an object that has been freed, or that
-- never was.
abbrev pub Outcome : Type 0 → Type 0
Outcome A = Option (A × Heap)

abbrev pub Effect : Type 0 → Type 0
Effect A = Heap → Outcome A

abbrev pub give : {A : Type 0} → A → Effect A
give result h = some (result, h)

abbrev pub go_on : {A B : Type 0} → (A → Effect B) → Outcome A → Outcome B
go_on next none = none
go_on next (some (result, h)) = next result h

infixl 5 ◌>>=◌
abbrev pub ◌>>=◌ : {A B : Type 0} → Effect A → (A → Effect B) → Effect B
◌>>=◌ first next h = go_on next (first h)

-- A call for its effect alone.
infixl 5 ◌>>◌
abbrev pub ◌>>◌ : {B : Type 0} → Effect (Unit {0}) → Effect B → Effect B
◌>>◌ first next h = go_on (λ done. next) (first h)

-- An allocation does not fail.
abbrev pub alloc : Object → Effect ℕ
alloc x h = some (h.fresh, record h { objects = (h.fresh, x) ∷ h.objects; fresh = suc h.fresh })

abbrev pub find : ℕ → List (ℕ × Object) → Option Object
find p [] = none
find p ((q, x) ∷ xs) = let rest = find p xs in if p == q then some x else rest

-- The objects without the one at `p`, if it is there.
abbrev pub kept : ℕ × Object → Option (List (ℕ × Object)) → Option (List (ℕ × Object))
kept x none = none
kept x (some xs) = some (x ∷ xs)

abbrev pub without : ℕ → List (ℕ × Object) → Option (List (ℕ × Object))
without p [] = none
without p ((q, x) ∷ xs) = let rest = kept (q, x) (without p xs) in if p == q then some xs else rest

abbrev pub as_context : Heap → Option Object → Option (List ℕ × Heap)
as_context h (some (context key)) = some (key, h)
as_context h x = none

abbrev pub context_at : ℕ → Effect (List ℕ)
context_at p h = as_context h (find p h.objects)

abbrev pub as_bio : Heap → Option Object → Option (Unit {0} × Heap)
as_bio h (some bio) = some (tt, h)
as_bio h x = none

abbrev pub use_bio : Option ℕ → Effect (Unit {0})
use_bio none h = none
use_bio (some p) h = as_bio h (find p h.objects)

-- The functions of OpenSSL that free, and free, leave NULL alone.
abbrev pub released : Heap → Option (List (ℕ × Object)) → Option (Unit {0} × Heap)
released h none = none
released h (some xs) = some (tt, record h { objects = xs })

abbrev pub release : Option ℕ → Effect (Unit {0})
release none h = some (tt, h)
release (some p) h = released h (without p h.objects)

-- struct key with the flag of struct pubkey or struct privkey, and keyastext, which a private key
-- does not have. m_pad is constant.
pub record Key : Type 0 where
  pub started : Bool
  pub ctx : Option ℕ
  pub file : Option ℕ
  pub errors : Option ℕ
  pub size : ℕ
  pub text : Option ℕ

-- Memory of zeros, as calloc gives it and key_free leaves it.
abbrev pub zeroed : Key
zeroed = record { started = false; ctx = none; file = none; errors = none; size = 0; text = none }

-- key_init; m_ctx and m_size stay.
unfoldable pub key_init : Key → Effect Key
key_init k = do
  file ← alloc bio
  errors ← alloc bio
  give (record k { file = some file; errors = some errors })

unfoldable pub key_free : Key → Effect Key
key_free k = do
  release k.file
  release k.errors
  release k.ctx
  give (record k { ctx = none; file = none; errors = none; size = 0 })

unfoldable pub pubkey_init : Key → Effect Key
unfolding key_init
pubkey_init k = key_init (record k { started = false; text = none })

unfoldable pub pubkey_free : Key → Effect Key
unfolding key_free
pubkey_free k = do
  k' ← key_free (record k { started = false })
  release k'.text
  give (record k' { text = none })

unfoldable pub privkey_init : Key → Effect Key
unfolding key_init
privkey_init k = key_init (record k { started = false })

unfoldable pub privkey_free : Key → Effect Key
unfolding key_free
privkey_free k = key_free (record k { started = false })

abbrev pub unless_set : Option ℕ → Effect Key → Key → Effect Key
unless_set none init k = init
unless_set (some p) init k = give k

-- The end of both functions that load: the key read through its BIO, and a context for it.
abbrev pub with_context : Bool → (List ℕ → ℕ) → List ℕ → Key → Effect (ℤ × Key)
with_context false size_of key k = give (negsuc 0, k)
with_context true size_of key k = do
  ctx ← alloc (context key)
  give (pos 0, record k { ctx = some ctx; size = size_of key })

module _ (v : Evp) where
  abbrev pub load_text : Option (List ℕ) → Key → Effect (ℤ × Key)
  load_text none k = give (negsuc 0, k)
  load_text (some bytes) k = do
    text ← alloc (memory bytes)
    use_bio k.file
    with_context (v.is_public bytes) v.size_of bytes (record k { text = some text })

  -- pubkey_load of a file, `none` where it does not open; what the key had before is not freed.
  unfoldable pub pubkey_load : Key → Option (List ℕ) → Effect (ℤ × Key)
  unfolding pubkey_init
  pubkey_load k content = do k' ← unless_set k.ctx (pubkey_init k) k; load_text content k'

  abbrev pub load_private : Option (List ℕ) → Key → Effect (ℤ × Key)
  load_private none k = give (negsuc 0, k)
  load_private (some bytes) k = with_context (v.is_private bytes) v.size_of bytes k

  unfoldable pub privkey_load : Key → Option (List ℕ) → Effect (ℤ × Key)
  unfolding privkey_init
  privkey_load k content = do
    k' ← unless_set k.ctx (privkey_init k) k
    use_bio k'.file
    load_private content k'

  -- m_encryptinit and m_privkey_decryptinit: `starts` is what OpenSSL's init returns. Where it fails
  -- the context is freed, and m_ctx stays.
  abbrev pub start : Bool → ℕ → Key → Effect Key
  start starts p k = do
    key ← context_at p
    (if starts then give (record k { started = true }) else (release (some p) >> give k))

  abbrev pub produced : Option (List ℕ) → Key → Effect (ℤ × Option ℕ × Key)
  produced none k = give (negsuc 0, none, k)
  produced (some bytes) k = do out ← alloc (memory bytes); give (pos 0, some out, k)

  -- The two calls of EVP_PKEY_encrypt or EVP_PKEY_decrypt, the first one for the length.
  abbrev pub run_with :
      (List ℕ → List ℕ → Option (List ℕ)) → Bool → ℕ → Key → List ℕ → Effect (ℤ × Option ℕ × Key)
  run_with f starts p k input = do
    k' ← (if k.started then give k else start starts p k)
    key ← context_at p
    produced (f key input) k'

  abbrev pub run_if_set :
      (List ℕ → List ℕ → Option (List ℕ))
      → Bool
      → Option ℕ
      → Key
      → List ℕ
      → Effect (ℤ × Option ℕ × Key)
  run_if_set f starts none k input = give (negsuc 0, none, k)
  run_if_set f starts (some p) k input = run_with f starts p k input

  -- The result, *out, and the key. OpenSSL refuses a NULL context.
  unfoldable pub pubkey_encrypt : Bool → Key → List ℕ → Effect (ℤ × Option ℕ × Key)
  pubkey_encrypt starts k input = run_if_set v.encrypt starts k.ctx k input

  unfoldable pub privkey_decrypt : Bool → Key → List ℕ → Effect (ℤ × Option ℕ × Key)
  privkey_decrypt starts k input = run_if_set v.decrypt starts k.ctx k input
