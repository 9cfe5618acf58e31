-- ===== src/Core/Directories.antt =====
-- mkdirp of core/core.c. The file system is an argument, and paths are their bytes.
pub mod Laws
use tapi2p.Base.{
  ℕ, ◌+◌, ℤ, pos, negsuc, Option, none, some, List, [], ◌∷◌, ◌++◌, Bool, true, false, not, ◌&&◌,
  leb, ◌==◌, if◌then◌else◌, length,
}

-- What mkdir reports: it made the directory, EEXIST, or another error.
pub data Mkdir : Type 0 where
  made : Mkdir
  exists : Mkdir
  failed : Mkdir

abbrev pub is_failed : Mkdir → Bool
is_failed failed = true
is_failed r = false

abbrev pub is_empty : List ℕ → Bool
is_empty [] = true
is_empty (x ∷ xs) = false

module _ (Disk : Type 0) (mkdir : Disk → List ℕ → Disk × Mkdir) where
  -- -1 for an error, else what follows.
  abbrev pub unless_failed : Disk × Mkdir → (Disk → ℤ × Disk) → ℤ × Disk
  unless_failed (disk, failed) next = (negsuc 0, disk)
  unless_failed (disk, made) next = next disk
  unless_failed (disk, exists) next = next disk

  -- The loop with `done` behind it and `rest` ahead, and the mkdir of the whole path. The slash that
  -- the loop overwrites is there again when it goes on.
  unfoldable pub make_parents : Disk → List ℕ → List ℕ → ℤ × Disk
  make_parents disk done [] = unless_failed (mkdir disk done) (λ d. (pos 0, d))
  make_parents disk done (c ∷ rest) =
      let plain = make_parents disk (done ++ (c ∷ [])) rest in
      let slash = unless_failed (mkdir disk done) (λ d. make_parents d (done ++ (c ∷ [])) rest) in
      if c == b'/' && not (is_empty done) then slash else plain

  -- mkdirp; `none` where strcpy writes past the 255 bytes of its copy.
  unfoldable pub mkdirp : Disk → List ℕ → Option (ℤ × Disk)
  unfolding make_parents
  mkdirp disk path = if leb 255 (length path) then none else some (make_parents disk [] path)
