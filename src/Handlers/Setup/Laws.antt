-- ===== src/Handlers/Setup/Laws.antt =====
-- Which ports setup takes, and when the core leaves its setup phase.
use native.Mathlib.Nat.{pow-suc}
use tapi2p.Base.{
  ℕ, zero, suc, ◌+◌, ◌/◌, ◌%◌, ◌^◌, ◌<◌, ◌≤◌, ◌≡◌, ◌⊎◌, inl, inr, refl, ℤ, pos, negsuc, Option,
  none, some, List, [], ◌∷◌, Bool, true, false, length, length-append, decimal, arith, not_less,
  lt→ltb, dec_lt, leb_ℤ, ltb_ℤ, ◌||◌,
}
use tapi2p.Handlers.World.{Configs, Jansson}
use tapi2p.Handlers.Setup.{Core, with_account, store_account, setup}

length-decimal_0 : (n : ℕ) → length (decimal 0 n) ≡ 0
unfolding decimal
length-decimal_0 n = refl

-- The number of digits.
length-decimal_1 : (f n : ℕ) → n < 10 → length (decimal (suc f) n) ≡ 1
unfolding decimal
length-decimal_1 f n h = rw (lt→ltb n 10 h)

length-decimal_more :
    (f n : ℕ) → 10 ≤ n → length (decimal (suc f) n) ≡ suc (length (decimal f (n / 10)))
unfolding decimal
length-decimal_more f n h =
    rw (not_less n 10 h) (omega (arith, length-append (decimal f (n / 10)) ((b'0' + n % 10) ∷ [])))

length-decimal_last : (n : ℕ) → length (decimal 1 n) ≡ 1
unfolding decimal
length-decimal_last n = ground arith

-- A number below 10 ^ (k + 1) has at most k + 1 digits.
length-decimal-pow : (f k n : ℕ) → n < 10 ^ suc k → length (decimal f n) ≤ suc k
length-decimal-pow zero k n h = omega (arith, length-decimal_0 n)
length-decimal-pow (suc f) zero n h = omega (arith, length-decimal_1 f n (omega arith))
length-decimal-pow (suc f) (suc k) n h = elim (dec_lt n 10) [
  | yes p ↦ omega (arith, length-decimal_1 f n p)
  | no p ↦
      let smaller : n / 10 < 10 ^ suc k = omega (arith, pow-suc 10 (suc k)) in
      omega (arith, length-decimal_more f n (omega arith), length-decimal-pow f k (n / 10) smaller)
]

five_digits : (n : ℕ) → 10000 ≤ n → length (decimal 5 n) ≡ 5
five_digits n h = omega (
  arith,
  length-decimal_more 4 n,
  length-decimal_more 3 (n / 10),
  length-decimal_more 2 (n / 10 / 10),
  length-decimal_more 1 (n / 10 / 10 / 10),
  length-decimal_last (n / 10 / 10 / 10 / 10),
)

pub few_digits : (n : ℕ) → n < 10000 → length (decimal 5 n) ≤ 4
few_digits n h = length-decimal-pow 5 3 n (omega arith)

module _ (c : Configs) (j : Jansson) where
  open c use {Config}
  open j use {Json}

  setup-cases :
      (opens : Bool) (s : Core c j) (nick : List ℕ) (port : ℕ)
      → (setup c j opens s nick (negsuc port) ≡ some (false, s))
        × (setup c j opens s nick (pos 0) ≡ some (false, s))
        × (65535 < port → setup c j opens s nick (pos port) ≡ some (false, s))
        × (0 < port
            → port < 10000
            → setup c j opens s nick (pos port) ≡ some (store_account c j opens s nick port))
        × (10000 ≤ port → port ≤ 65535 → setup c j opens s nick (pos port) ≡ none)
  unfolding setup
  setup-cases opens s nick port = (
    refl,
    refl,
    λ h. ground arith,
    λ p h. ground (arith, few_digits port h),
    λ h p. ground (arith, five_digits port h),
  )

  -- What setup returns for a port.
  abbrev pub SetupOutcome : Bool → Core c j → List ℕ → ℤ → Option (Bool × Core c j) → Type 0
  SetupOutcome opens s nick port r =
      (((leb_ℤ port (pos 0) || ltb_ℤ (pos 65535) port) ≡ true) × (r ≡ some (false, s)))
      ⊎ (((n : ℕ) × (port ≡ pos n)
            × (0 < n)
            × (n < 10000)
            × (r ≡ some (store_account c j opens s nick n)))
          ⊎ ((n : ℕ) × (port ≡ pos n) × (10000 ≤ n) × (n ≤ 65535) × (r ≡ none)))

  -- setup refuses a port outside 1..65535 and changes nothing; it stores a port of at most four
  -- digits; with five digits sprintf writes past the end of portstr.
  pub setup-SetupOutcome :
      (opens : Bool) (s : Core c j) (nick : List ℕ) (port : ℤ)
      → SetupOutcome opens s nick port (setup c j opens s nick port)
  unfolding setup
  setup-SetupOutcome opens s nick (negsuc n) = inl (refl, refl)
  setup-SetupOutcome opens s nick (pos zero) = inl (refl, refl)
  setup-SetupOutcome opens s nick (pos (suc n)) =
      let (_, _, big, few, many) = setup-cases opens s nick (suc n) in
      elim (dec_lt (suc n) 10000) [
        | yes p ↦ inr (inl (suc n, refl, omega arith, p, few (omega arith) p))
        | no p ↦ elim (dec_lt 65535 (suc n)) [
          | yes q ↦ inl (ground arith, big q)
          | no q ↦
              inr (inr (suc n, refl, omega arith, omega arith, many (omega arith) (omega arith)))
        ]
      ]

  -- What a handled setup event may have done: nothing to run_threads, or a port of one to four digits
  -- is stored, flushed to the open file, and run_threads is 2.
  abbrev pub SetUp : Bool → Core c j → Core c j → Type 0
  SetUp opens s s' =
      (s'.run_threads ≡ s.run_threads)
      ⊎ ((nick : List ℕ) × (port : ℕ) × (0 < port)
          × (port < 10000)
          × (opens ≡ true)
          × (s' ≡ record s {
            config = with_account c j s.config nick port;
            flushed = with_account c j s.config nick port ∷ s.flushed;
            run_threads = 2;
          }))
