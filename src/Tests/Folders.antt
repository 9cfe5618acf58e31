-- ===== src/Tests/Folders.antt =====
-- mkdirp on a disk that is the list of its directories.
use tapi2p.Base.{
  ℕ, ◌≡◌, refl, List, [], ◌∷◌, Bool, true, false, ◌||◌, if◌then◌else◌, arith, codes, bytes_eq,
  bytes_eq_refl,
}
use tapi2p.Core.Directories.{Mkdir, made, exists, is_failed, mkdirp}
use tapi2p.Core.Directories.Laws.{mkdirp-there}

abbrev Disk : Type 0
Disk = List (List ℕ)

abbrev there : Disk → List ℕ → Bool
there [] q = false
there (p ∷ d) q = bytes_eq p q || there d q

abbrev mkdir : Disk → List ℕ → Disk × Mkdir
mkdir d p = if there d p then (d, exists) else (p ∷ d, made)

makes : (d : Disk) (p : List ℕ) → is_failed (mkdir d p).1 ≡ false → there (mkdir d p).0 p ≡ true
makes d p e = ground (arith, bytes_eq_refl p)

keeps : (d : Disk) (p q : List ℕ) → there d q ≡ true → there (mkdir d p).0 q ≡ true
keeps d p q e = ground arith

abbrev home : Disk
home = codes "/h" ∷ []

abbrev made_all : Disk
made_all = codes "/h/a/b" ∷ codes "/h/a" ∷ home

mkdirp-there_example :
    (there made_all (codes "/h/a/b") ≡ true)
    × (there made_all (codes "/h/a") ≡ true)
    × (there made_all (codes "/h") ≡ true)
unfolding mkdirp
mkdirp-there_example =
    mkdirp-there Disk mkdir there makes keeps home made_all (codes "/h/a/b") (codes "/h/a")
      (codes "b") (codes "/h") refl refl refl refl
