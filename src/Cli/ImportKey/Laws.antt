-- ===== src/Cli/ImportKey/Laws.antt =====
-- The loop over fgets in main of ui/cli/cli.c, which reads a key.
use mathlib.Core.List.{append_assoc}
use tapi2p.Base.{
  ℕ, zero, suc, ◌+◌, ◌-◌, ◌<◌, ◌≤◌, ◌≡◌, refl, sym, ap, ap₂, ◌∙◌, inl, inr, List, [], ◌∷◌, ◌++◌,
  Bool, true, false, ltb, ◌==◌, if◌then◌else◌, take, drop, length, length-append, length-drop,
  c_string, overwrite, overwrite-front, Bool-cases, subst, not_less, arith, replicate,
  length-replicate, drop_all, drop-append_add, take-append_add, dec_lt,
}
use tapi2p.Cli.ImportKey.{
  line_of, pubkey_size, Reading, complete, too_short, overrun, read_key, Keys, keybuf,
}

-- A text without a NUL.
abbrev pub NoNul : List ℕ → Type 0
NoNul [] = Unit
NoNul (x ∷ xs) = (0 < x) × NoNul xs

c_string-NoNul : (xs : List ℕ) → NoNul xs → c_string xs ≡ xs
c_string-NoNul [] h = refl
c_string-NoNul (x ∷ xs) h = let e = c_string-NoNul xs h.1 in let p = h.0 in ground arith

pub NoNul-append : (xs ys : List ℕ) → NoNul (xs ++ ys) → NoNul xs × NoNul ys
NoNul-append [] ys h = (tt, h)
NoNul-append (x ∷ xs) ys h = let (a, b) = NoNul-append xs ys h.1 in ((h.0, a), b)

-- A line and the rest make up the input; the line is not empty and has at most `n` bytes.
line_of-append : (n : ℕ) (input : List ℕ) → (line_of n input).0 ++ (line_of n input).1 ≡ input
unfolding line_of
line_of-append zero input = refl
line_of-append (suc n) [] = refl
line_of-append (suc n) (c ∷ cs) = elim (Bool-cases (c == 10)) [
  | inl e ↦ rw e
  | inr e ↦ rw e (ap (◌∷◌ c) (line_of-append n cs))
]

length-line_of : (n : ℕ) (input : List ℕ) → length (line_of n input).0 ≤ n
unfolding line_of
length-line_of zero input = omega arith
length-line_of (suc n) [] = omega arith
length-line_of (suc n) (c ∷ cs) = elim (Bool-cases (c == 10)) [
  | inl e ↦ rw e (omega arith)
  | inr e ↦ rw e (omega (arith, length-line_of n cs))
]

line_of_pos : (n : ℕ) (input : List ℕ) → 0 < n → 0 < length input → 0 < length (line_of n input).0
unfolding line_of
line_of_pos zero input h k = absurd (omega arith)
line_of_pos (suc n) [] h k = absurd (omega arith)
line_of_pos (suc n) (c ∷ cs) h k = elim (Bool-cases (c == 10)) [
  | inl e ↦ rw e (omega arith)
  | inr e ↦ rw e (omega arith)
]

module _ (front tail input : List ℕ) where
  abbrev line : List ℕ
  line = (line_of (pubkey_size - length front) input).0

  abbrev rest : List ℕ
  rest = (line_of (pubkey_size - length front) input).1

  line-rest : line ++ rest ≡ input
  line-rest = line_of-append (pubkey_size - length front) input

  -- The NUL that fgets writes stands behind the line.
  written :
      overwrite (length front) (line ++ (0 ∷ [])) (front ++ tail)
      ≡ (front ++ line) ++ (0 ∷ drop (length line + 1) tail)
  written =
      overwrite-front front (line ++ (0 ∷ [])) tail
      ∙ ap₂ (λ (a : List ℕ) (n : ℕ). a ++ drop n tail) (sym (append_assoc front line (0 ∷ [])))
          (length-append line (0 ∷ []))
      ∙ append_assoc (front ++ line) (0 ∷ []) (drop (length line + 1) tail)

  -- One round, while the key is not complete and there is input.
  read_key-round :
      (fuel : ℕ)
      → length front < pubkey_size
      → length front + length tail ≡ pubkey_size + 1
      → 0 < length input
      → NoNul input
      → read_key (suc fuel) (length front) (front ++ tail) input
        ≡ read_key fuel
            (length (front ++ line))
            ((front ++ line) ++ (0 ∷ drop (length line + 1) tail))
            rest
  unfolding read_key
  read_key-round fuel less size some_input clean =
      let fits = length-line_of (pubkey_size - length front) input in
      let e1 : (length front == pubkey_size) ≡ false = ground arith in
      let e2 : (length input == 0) ≡ false = ground arith in
      let e3 : ltb (length (front ++ tail)) (length front + length line + 1) ≡ false =
        not_less _ _ (omega (arith, length-append front tail)) in
      let clean_line = (NoNul-append line rest (subst NoNul (sym line-rest) clean)).0 in
      ap
        (λ (b : Bool).
          if b
          then complete (front ++ tail) input
          else if length input == 0
          then too_short
          else if ltb (length (front ++ tail)) (length front + length line + 1)
          then overrun
          else read_key fuel (length front + length (c_string line))
              (overwrite (length front) (line ++ (0 ∷ [])) (front ++ tail)) rest)
        e1
      ∙ ap₂
          (λ (b b' : Bool).
            if b
            then too_short
            else if b'
            then overrun
            else read_key fuel (length front + length (c_string line))
                (overwrite (length front) (line ++ (0 ∷ [])) (front ++ tail)) rest)
          e2 e3
      ∙ ap₂ (λ (n : ℕ) (b : List ℕ). read_key fuel n b rest)
          (ap (λ (l : List ℕ). length front + length l) (c_string-NoNul line clean_line)
            ∙ sym (length-append front line))
          written

-- The buffer and stdin when the loop ends, from `front` in the buffer and `input` on stdin.
abbrev pub taken : List ℕ → List ℕ → Reading
taken front input =
    complete (front ++ (take (pubkey_size - length front) input ++ (0 ∷ [])))
      (drop (pubkey_size - length front) input)

-- What the line takes and what the later lines take is what the whole takes.
taken-line :
    (front xs ys : List ℕ)
    → length front + length xs ≤ pubkey_size
    → taken (front ++ xs) ys ≡ taken front (xs ++ ys)
taken-line front xs ys h =
    let left : ℕ = pubkey_size - length (front ++ xs) in
    let split : pubkey_size - length front ≡ length xs + left =
      omega (arith, length-append front xs) in
    ap₂ complete
      (append_assoc front xs (take left ys ++ (0 ∷ []))
        ∙ ap (λ (t : List ℕ). front ++ t)
            (sym (append_assoc xs (take left ys) (0 ∷ []))
              ∙ ap (λ (t : List ℕ). t ++ (0 ∷ []))
                  (sym (take-append_add xs ys left)
                    ∙ ap (λ (n : ℕ). take n (xs ++ ys)) (sym split))))
      (sym (drop-append_add xs ys left) ∙ ap (λ (n : ℕ). drop n (xs ++ ys)) (sym split))

read_key-full :
    (fuel : ℕ) (front ys : List ℕ)
    → 0 < fuel
    → length front ≡ pubkey_size
    → read_key fuel (length front) (front ++ (0 ∷ [])) ys ≡ taken front ys
unfolding read_key
read_key-full zero front ys f full = absurd (omega arith)
read_key-full (suc fuel) front ys f full =
    ap
      (λ (b : Bool).
        if b
        then complete (front ++ (0 ∷ [])) ys
        else if length ys == 0
        then too_short
        else if ltb (length (front ++ (0 ∷ [])))
            (length front + length (line_of (pubkey_size - length front) ys).0 + 1)
        then overrun
        else read_key fuel
            (length front + length (c_string (line_of (pubkey_size - length front) ys).0))
            (overwrite (length front) ((line_of (pubkey_size - length front) ys).0 ++ (0 ∷ []))
              (front ++ (0 ∷ [])))
            (line_of (pubkey_size - length front) ys).1)
      complete_now
    ∙ ap (λ (n : ℕ). complete (front ++ (take n ys ++ (0 ∷ []))) (drop n ys)) none_left
  where
    complete_now : (length front == pubkey_size) ≡ true
    complete_now = ground arith

    none_left : 0 ≡ pubkey_size - length front
    none_left = omega arith

module _ (front tail input : List ℕ) (less : length front < pubkey_size)
    (size : length front + length tail ≡ pubkey_size + 1)
    (enough : pubkey_size - length front ≤ length input) (clean : NoNul input) where
  abbrev longer : List ℕ
  longer = front ++ line front tail input

  abbrev tail_after : List ℕ
  tail_after = drop (length (line front tail input) + 1) tail

  length-input : length input ≡ length (line front tail input) + length (rest front tail input)
  length-input =
      ap length (sym (line-rest front tail input))
      ∙ length-append (line front tail input) (rest front tail input)

  line_fits : length front + length (line front tail input) ≤ pubkey_size
  line_fits = omega (arith, length-line_of (pubkey_size - length front) input)

  length-longer : length longer ≡ length front + length (line front tail input)
  length-longer = length-append front (line front tail input)

  line_pos : 0 < length (line front tail input)
  line_pos = line_of_pos (pubkey_size - length front) input (omega arith) (omega arith)

  length-tail_after : length tail_after ≡ length tail - (length (line front tail input) + 1)
  length-tail_after = length-drop (length (line front tail input) + 1) tail

  clean_rest : NoNul (rest front tail input)
  clean_rest =
      (NoNul-append (line front tail input) (rest front tail input)
        (subst NoNul (sym (line-rest front tail input)) clean)).1

  -- The rounds after the one for the line, where the key is complete.
  read_key-last :
      (fuel : ℕ)
      → 0 < fuel
      → ¬ (length longer < pubkey_size)
      → read_key fuel (length longer) (longer ++ (0 ∷ tail_after)) (rest front tail input)
        ≡ taken longer (rest front tail input)
  read_key-last fuel f full =
      ap (λ (t : List ℕ). read_key fuel (length longer) (longer ++ (0 ∷ t)) (rest front tail input))
        (drop_all (length (line front tail input) + 1) tail
          (omega (arith, length-longer, line_fits)))
      ∙ read_key-full fuel longer (rest front tail input) f
          (omega (arith, length-longer, line_fits))

  taken-input : taken longer (rest front tail input) ≡ taken front input
  taken-input =
      taken-line front (line front tail input) (rest front tail input) line_fits
      ∙ ap (taken front) (line-rest front tail input)

read_key-taken :
    (fuel : ℕ) (front tail input : List ℕ)
    → length input < fuel
    → length front < pubkey_size
    → length front + length tail ≡ pubkey_size + 1
    → pubkey_size - length front ≤ length input
    → NoNul input
    → read_key fuel (length front) (front ++ tail) input ≡ taken front input
read_key-taken zero front tail input f less size enough clean = absurd (omega arith)
read_key-taken (suc fuel) front tail input f less size enough clean =
    let shorter = length-input front tail input less size enough clean in
    let some_line = line_pos front tail input less size enough clean in
    let long = length-longer front tail input less size enough clean in
    let short = length-tail_after front tail input less size enough clean in
    read_key-round front tail input fuel less size (omega arith) clean
    ∙ (elim (dec_lt (length (longer front tail input less size enough clean)) pubkey_size) [
      | yes more ↦
          read_key-taken fuel (longer front tail input less size enough clean)
            (0 ∷ tail_after front tail input less size enough clean) (rest front tail input)
            (omega arith) more (omega arith) (omega arith)
            (clean_rest front tail input less size enough clean)
      | no full ↦ read_key-last front tail input less size enough clean fuel (omega arith) full
    ])
    ∙ taken-input front tail input less size enough clean

-- From the cleared buffer: stdin with 800 bytes and no NUL among them gives its first 800, with a
-- NUL behind, whatever its lines are, and leaves the others unread.
pub read_key-first :
    (k : Keys) (input : List ℕ)
    → pubkey_size ≤ length input
    → NoNul input
    → read_key (length input + 1) 0 (keybuf k) input
      ≡ complete (take pubkey_size input ++ (0 ∷ [])) (drop pubkey_size input)
read_key-first k input enough clean =
    read_key-taken (length input + 1) [] (keybuf k) input (omega arith) (omega arith)
      (omega (
        arith,
        length-append (replicate pubkey_size 0) (k.stack ∷ []),
        length-replicate {A = ℕ} pubkey_size 0,
      ))
      enough clean
