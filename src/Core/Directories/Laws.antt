-- ===== src/Core/Directories/Laws.antt =====
-- Which paths are there after mkdirp.
use mathlib.Core.List.{append-nil}
use tapi2p.Base.{
  ℕ, ◌≡◌, refl, sym, ap, subst, ◌∙◌, ℤ, pos, negsuc, some, List, [], ◌∷◌, ◌++◌, Bool, true, false,
  not, ◌&&◌, ◌==◌, if◌then◌else◌, arith,
}
use tapi2p.Core.Directories.{
  Mkdir, made, exists, failed, is_failed, is_empty, unless_failed, make_parents, mkdirp,
}

append_snoc {ℓ} :
    {A : Type ℓ} (xs : List A) (c : A) (ys : List A) → (xs ++ (c ∷ [])) ++ ys ≡ xs ++ (c ∷ ys)
append_snoc [] c ys = refl
append_snoc (x ∷ xs) c ys = ap (◌∷◌ x) (append_snoc xs c ys)

-- `there` says that something, a directory or not, has a path on a disk: after a mkdir that made a directory
-- or reported EEXIST something has its path, and no mkdir takes anything away.
module _ (Disk : Type 0) (mkdir : Disk → List ℕ → Disk × Mkdir) (there : Disk → List ℕ → Bool)
    (makes : (d : Disk) (p : List ℕ)
      → is_failed (mkdir d p).1 ≡ false
      → there (mkdir d p).0 p ≡ true)
    (keeps : (d : Disk) (p q : List ℕ) → there d q ≡ true → there (mkdir d p).0 q ≡ true) where
  -- What a run that returned 0 leaves, from the disk `d` on.
  abbrev Made : Disk → List ℕ → List ℕ → ℤ × Disk → Type 0
  Made d done rest (negsuc n, d') = Unit {0}
  Made d done rest (pos n, d') =
      (there d' (done ++ rest) ≡ true)
      × ((q : List ℕ) → there d q ≡ true → there d' q ≡ true)
      × ((pre post : List ℕ)
          → rest ≡ pre ++ (b'/' ∷ post)
          → is_empty (done ++ pre) ≡ false
          → there d' (done ++ pre) ≡ true)

  -- One character further; `first` is for the directory that ends before it.
  extend :
      (d d1 : Disk) (done : List ℕ) (c : ℕ) (rest : List ℕ)
      → ((q : List ℕ) → there d q ≡ true → there d1 q ≡ true)
      → (c ≡ b'/' → is_empty done ≡ false → there d1 done ≡ true)
      → (r : ℤ × Disk) → Made d1 (done ++ (c ∷ [])) rest r
      → Made d done (c ∷ rest) r
  extend d d1 done c rest sub first (negsuc n, d') h = tt
  extend d d1 done c rest sub first (pos n, d') (whole, kept, slashes) = (
    subst (λ p. there d' p ≡ true) (append_snoc done c rest) whole,
    λ q h. kept q (sub q h),
    by_pre,
  )
    where
      by_pre :
          (pre post : List ℕ)
          → c ∷ rest ≡ pre ++ (b'/' ∷ post)
          → is_empty (done ++ pre) ≡ false
          → there d' (done ++ pre) ≡ true
      by_pre [] post e ne =
          let ec : c ≡ b'/' = cc in
          let nil : done ++ [] ≡ done = append-nil done in
          subst (λ p. there d' p ≡ true) (sym nil)
            (kept done (first ec (subst (λ p. is_empty p ≡ false) nil ne)))
      by_pre (x ∷ pre) post e ne =
          let same : c ≡ x = cc in
          let tail : rest ≡ pre ++ (b'/' ∷ post) = cc in
          let path : (done ++ (c ∷ [])) ++ pre ≡ done ++ (x ∷ pre) =
            append_snoc done c pre ∙ ap (λ y. done ++ (y ∷ pre)) same in
          subst (λ p. there d' p ≡ true) path
            (slashes pre post tail (subst (λ p. is_empty p ≡ false) (sym path) ne))

  -- After a mkdir that did not fail.
  here :
      (d : Disk) (p : List ℕ) (m : Disk × Mkdir)
      → mkdir d p ≡ m
      → is_failed m.1 ≡ false
      → (there m.0 p ≡ true) × ((q : List ℕ) → there d q ≡ true → there m.0 q ≡ true)
  here d p m e ok = (
    subst (λ (x : Disk × Mkdir). there x.0 p ≡ true) e
        (makes d p (subst (λ (x : Disk × Mkdir). is_failed x.1 ≡ false) (sym e) ok)),
    λ q h. subst (λ (x : Disk × Mkdir). there x.0 q ≡ true) e (keeps d p q h),
  )

  last_mkdir :
      (d d1 : Disk) (done : List ℕ)
      → (there d1 done ≡ true) × ((q : List ℕ) → there d q ≡ true → there d1 q ≡ true)
      → Made d done [] (pos 0, d1)
  last_mkdir d d1 done (h, sub) = (
    subst (λ p. there d1 p ≡ true) (sym (append-nil done)) h,
    sub,
    λ pre post e ne. absurd (no_slash pre post e),
  )
    where
      no_slash : (pre post : List ℕ) → [] ≡ pre ++ (b'/' ∷ post) → ⊥
      no_slash [] post e = cc
      no_slash (x ∷ pre) post e = cc

  last-Made :
      (d : Disk) (done : List ℕ) (m : Disk × Mkdir)
      → mkdir d done ≡ m
      → Made d done [] (unless_failed Disk mkdir m (λ x. (pos 0, x)))
  last-Made d done (d1, failed) e = tt
  last-Made d done (d1, made) e = last_mkdir d d1 done (here d done (d1, made) e refl)
  last-Made d done (d1, exists) e = last_mkdir d d1 done (here d done (d1, exists) e refl)

  module _ (d : Disk) (done : List ℕ) (c : ℕ) (rest : List ℕ) (next : Disk → ℤ × Disk)
      (ih : (d1 : Disk) → Made d1 (done ++ (c ∷ [])) rest (next d1)) where
    step-Made :
        (m : Disk × Mkdir)
        → mkdir d done ≡ m
        → Made d done (c ∷ rest) (unless_failed Disk mkdir m next)
    step-Made (d1, failed) e = tt
    step-Made (d1, made) e =
        let (h, sub) = here d done (d1, made) e refl in
        extend d d1 done c rest sub (λ ec ne. h) (next d1) (ih d1)
    step-Made (d1, exists) e =
        let (h, sub) = here d done (d1, exists) e refl in
        extend d d1 done c rest sub (λ ec ne. h) (next d1) (ih d1)

    test-Made :
        (b : Bool)
        → (c == b'/' && not (is_empty done)) ≡ b
        → Made d done
            (c ∷ rest)
            (if b then unless_failed Disk mkdir (mkdir d done) next else next d)
    test-Made true e = step-Made (mkdir d done) refl
    test-Made false e =
        extend d d done c rest (λ q h. h) (λ ec ne. absurd (ground arith)) (next d) (ih d)

  make_parents-Made :
      (rest : List ℕ) (d : Disk) (done : List ℕ)
      → Made d done rest (make_parents Disk mkdir d done rest)
  unfolding make_parents
  make_parents-Made [] d done = last-Made d done (mkdir d done) refl
  make_parents-Made (c ∷ rest) d done =
      test-Made d done c rest (λ d1. make_parents Disk mkdir d1 (done ++ (c ∷ [])) rest)
        (λ d1. make_parents-Made rest d1 (done ++ (c ∷ []))) _ refl

  -- When mkdirp returns 0, something, which need not be a directory, has its path, and something has
  -- every prefix that a slash ends, but the empty one; what was there before still is. This asks of
  -- mkdir that there is something at the path where it makes a directory or reports EEXIST, and that
  -- it takes nothing away.
  pub mkdirp-there :
      (d d' : Disk) (path pre post q : List ℕ)
      → mkdirp Disk mkdir d path ≡ some (pos 0, d')
      → path ≡ pre ++ (b'/' ∷ post)
      → is_empty pre ≡ false
      → there d q ≡ true
      → (there d' path ≡ true) × (there d' pre ≡ true) × (there d' q ≡ true)
  unfolding mkdirp
  mkdirp-there d d' path pre post q e slash ne h =
      let made_it : make_parents Disk mkdir d [] path ≡ (pos 0, d') = ground arith in
      let (whole, kept, slashes) = subst (Made d [] path) made_it (make_parents-Made path d []) in
      (whole, slashes pre post slash ne, kept q h)
