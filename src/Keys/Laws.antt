-- ===== src/Keys/Laws.antt =====
-- crypto/publickey.c and crypto/privatekey.c: a key from its loading to its freeing.
use tapi2p.Base.{
  ℕ, ◌+◌, ◌<◌, ◌≤◌, ◌≡◌, refl, ap, ap₂, ◌∙◌, ℤ, pos, Option, none, some, List, [], ◌∷◌, Bool, true,
  false, arith,
}
use tapi2p.Keys.{
  Evp, Object, memory, Heap, Effect, go_on, ◌>>=◌, give, find, Key, zeroed, pubkey_load,
  pubkey_encrypt, pubkey_free, privkey_load, privkey_decrypt, privkey_free,
}

-- A key is loaded, used for one encryption, and freed.
abbrev pub session : Evp → Bool → Key → List ℕ → List ℕ → Effect (ℤ × Option ℕ × Key)
session v starts k key input = do
  (loaded, k1) ← pubkey_load v k (some key)
  (r, out, k2) ← pubkey_encrypt v starts k1 input
  k3 ← pubkey_free k2
  give (r, out, k3)

module _ (v : Evp) (k : Key) (key input output : List ℕ) (h : Heap) (unset : k.ctx ≡ none)
    (good : v.is_public key ≡ true) where
  session-freed :
      v.encrypt key input ≡ some output
      → session v true k key input h
        ≡ some (
          (pos 0, some (h.fresh + 4), zeroed),
          record h { objects = (h.fresh + 4, memory output) ∷ h.objects; fresh = h.fresh + 5 },
        )
  unfolding pubkey_load pubkey_encrypt pubkey_free
  session-freed made = ground arith

-- The same for a private key.
abbrev pub private_session : Evp → Bool → Key → List ℕ → List ℕ → Effect (ℤ × Option ℕ × Key)
private_session v starts k key input = do
  (loaded, k1) ← privkey_load v k (some key)
  (r, out, k2) ← privkey_decrypt v starts k1 input
  k3 ← privkey_free k2
  give (r, out, k3)

private_session-freed :
    (v : Evp) (key input output : List ℕ) (h : Heap)
    → v.is_private key ≡ true
    → v.decrypt key input ≡ some output
    → private_session v true zeroed key input h
      ≡ some (
        (pos 0, some (h.fresh + 3), zeroed),
        record h { objects = (h.fresh + 3, memory output) ∷ h.objects; fresh = h.fresh + 4 },
      )
unfolding privkey_load privkey_decrypt privkey_free
private_session-freed v key input output h good made = ground arith

-- A text is encrypted for a peer, and the peer decrypts it.
abbrev pub exchange : Evp → Key → List ℕ → List ℕ → List ℕ → List ℕ → Effect (Option ℕ × Option ℕ)
exchange v k public private input cipher = do
  (r, out, k1) ← session v true k public input
  (r', out', k2) ← private_session v true zeroed private cipher
  give (out, out')

-- pubkey_load, pubkey_encrypt and pubkey_free on a key without a context, then privkey_load,
-- privkey_decrypt and privkey_free on zeroed memory, with the two files of a pair of keys that
-- OpenSSL reads and starts: both results are returned, the cipher and the text that went in, and
-- of all objects that the functions took they alone are left; what was there before is untouched.
pub exchange-freed :
    (v : Evp) (k : Key) (public private input cipher : List ℕ) (h : Heap)
    → k.ctx ≡ none
    → v.is_public public ≡ true
    → v.is_private private ≡ true
    → v.encrypt public input ≡ some cipher
    → v.decrypt private cipher ≡ some input
    → exchange v k public private input cipher h
      ≡ some (
        (some (h.fresh + 4), some (h.fresh + 8)),
        record h {
          objects = (h.fresh + 8, memory input) ∷ (h.fresh + 4, memory cipher) ∷ h.objects;
          fresh = h.fresh + 9;
        },
      )
exchange-freed v k public private input cipher h unset good good' made made' =
    ap (go_on (λ (code, out, k1). second out))
      (session-freed v k public input cipher h unset good made)
    ∙ ap (go_on (λ (code, out', k2). give (some (h.fresh + 4), out')))
        (private_session-freed v private cipher input after_session good' made')
    ∙ ap₂
        (λ (n m : ℕ). some (
          (some (h.fresh + 4), some n),
          record h {
            objects = (n, memory input) ∷ (h.fresh + 4, memory cipher) ∷ h.objects;
            fresh = m;
          },
        ))
        (omega arith) (omega arith)
  where
    after_session : Heap
    after_session = record h {
      objects = (h.fresh + 4, memory cipher) ∷ h.objects;
      fresh = h.fresh + 5;
    }

    second : Option ℕ → Effect (Option ℕ × Option ℕ)
    second out = private_session v true zeroed private cipher >>= λ (r', out', k2). give (out, out')

-- Every address has been given out.
abbrev pub HandedOut : ℕ → List (ℕ × Object) → Type 0
HandedOut n [] = Unit
HandedOut n ((p, x) ∷ xs) = (p < n) × HandedOut n xs

find-HandedOut : (n p : ℕ) (xs : List (ℕ × Object)) → HandedOut n xs → n ≤ p → find p xs ≡ none
find-HandedOut n p [] g h = refl
find-HandedOut n p ((q, x) ∷ xs) g h =
    let rest = find-HandedOut n p xs g.1 h in let below = g.0 in ground arith

-- pubkey_load, and pubkey_encrypt with the key that it leaves; `starts` is what
-- EVP_PKEY_encrypt_init returns.
abbrev pub load_and_encrypt : Evp → Bool → Key → List ℕ → List ℕ → Effect (ℤ × Option ℕ × Key)
load_and_encrypt v starts k key input = do
  (r, k1) ← pubkey_load v k (some key)
  pubkey_encrypt v starts k1 input

-- Where EVP_PKEY_encrypt_init refuses a key that pubkey_load has just loaded into an empty struct key,
-- pubkey_encrypt itself uses an object that is no longer there: it does not return, before any
-- pubkey_free. The heap has only addresses below its next one.
pub session_refused :
    (v : Evp) (k : Key) (key input : List ℕ) (h : Heap)
    → k.ctx ≡ none
    → v.is_public key ≡ true
    → HandedOut h.fresh h.objects
    → load_and_encrypt v false k key input h ≡ none
unfolding pubkey_load pubkey_encrypt
session_refused v k key input h unset good g =
    let gone = find-HandedOut h.fresh (h.fresh + 3) h.objects g (omega arith) in ground arith
