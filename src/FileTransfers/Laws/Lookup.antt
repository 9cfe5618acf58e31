-- ===== src/FileTransfers/Laws/Lookup.antt =====
-- Looking a transfer up by its hash.
use tapi2p.Base.{
  ℕ, zero, suc, ◌≡◌, refl, sym, ap, ◌∙◌, ◌⊎◌, inl, inr, ℤ, none, some, List, [], ◌∷◌, Bool, true,
  false, if◌then◌else◌, take, strncmp_eq, Bool-cases, bytes_eq_refl,
}
use tapi2p.FileTransfers.{
  sha_digest_str_max_length, FtStatus, FtHelper, Transfers, started, filetransfer_add, Helper,
  found, missing, null_string, later, status_of, ready_at, gethelper, filetransfer_part_ready,
  filetransfer_get_status,
}
use tapi2p.FileTransfers.Laws.{IsPacked, add-free, add-used, gethelper-free, gethelper-used}

-- No used slot has the hash.
abbrev pub Unknown : List ℕ → Transfers → Type 0
Unknown sha [] = Unit {0}
Unknown sha (h ∷ hs) =
    ((s : List ℕ) → h.sha_str ≡ some s → strncmp_eq sha_digest_str_max_length s sha ≡ false)
    × Unknown sha hs

-- Some slot is free.
abbrev pub HasFree : Transfers → Type 0
HasFree [] = ⊥
HasFree (h ∷ hs) = (h.sha_str ≡ none) ⊎ HasFree hs

take-take {ℓ} : {A : Type ℓ} (n : ℕ) (xs : List A) → take n (take n xs) ≡ take n xs
take-take zero xs = refl
take-take (suc n) [] = refl
take-take (suc n) (x ∷ xs) = ap (◌∷◌ x) (take-take n xs)

strncmp_eq-take : (n : ℕ) (xs : List ℕ) → strncmp_eq n (take n xs) xs ≡ true
strncmp_eq-take n xs = rw (take-take n xs) (bytes_eq_refl (take n xs))

-- gethelper on a table with a free slot crashes for a hash that no slot has.
pub gethelper-Unknown :
    (ts : Transfers) (sha : List ℕ)
    → IsPacked ts
    → HasFree ts
    → Unknown sha ts
    → gethelper ts sha ≡ null_string
gethelper-Unknown [] sha p f u = absurd f
gethelper-Unknown (h ∷ hs) sha (inr (e, g)) f u = gethelper-free h hs sha e
gethelper-Unknown (h ∷ hs) sha (inl ((s, e), p)) (inl e') u = cc
gethelper-Unknown (h ∷ hs) sha (inl ((s, e), p)) (inr f) u =
    gethelper-used h hs sha s e
    ∙ ap (λ b. if b then found 0 else later (gethelper hs sha)) (u.0 s e)
    ∙ ap later (gethelper-Unknown hs sha p f u.1)

-- filetransfer_part_ready and filetransfer_get_status read a NULL string when they are asked for a
-- hash that no slot has while some slot is free.
pub Unknown-hash_faults :
    (ts : Transfers) (sha : List ℕ) (partnum : ℕ)
    → IsPacked ts
    → HasFree ts
    → Unknown sha ts
    → (filetransfer_part_ready ts sha partnum ≡ none) × (filetransfer_get_status ts sha ≡ none)
unfolding filetransfer_part_ready filetransfer_get_status
Unknown-hash_faults ts sha partnum p f u = (
  ap (ready_at partnum ts) (gethelper-Unknown ts sha p f u),
  ap (status_of ts) (gethelper-Unknown ts sha p f u),
)

status_of-later :
    (h : FtHelper) (hs : Transfers) (x : Helper) → status_of (h ∷ hs) (later x) ≡ status_of hs x
status_of-later h hs (found i) = refl
status_of-later h hs missing = refl
status_of-later h hs null_string = refl

module _ (h : FtHelper) (hs : Transfers) (sha : List ℕ) (s : List ℕ) (e : h.sha_str ≡ some s) where
  pub status-hit :
      strncmp_eq sha_digest_str_max_length s sha ≡ true
      → filetransfer_get_status (h ∷ hs) sha ≡ some h.status
  unfolding filetransfer_get_status
  status-hit hit = ap (status_of (h ∷ hs)) (
      gethelper-used h hs sha s e
      ∙ ap (λ (b : Bool). if b then found 0 else later (gethelper hs sha)) hit)

  pub status-miss :
      strncmp_eq sha_digest_str_max_length s sha ≡ false
      → filetransfer_get_status (h ∷ hs) sha ≡ filetransfer_get_status hs sha
  unfolding filetransfer_get_status
  status-miss miss =
      ap (status_of (h ∷ hs)) (
        gethelper-used h hs sha s e
        ∙ ap (λ (b : Bool). if b then found 0 else later (gethelper hs sha)) miss)
      ∙ status_of-later h hs (gethelper hs sha)

-- A transfer added under a hash that no slot has is found again, with no part ready and the part
-- count of its metadata.
pub filetransfer_get_status-filetransfer_add :
    (ts : Transfers) (sha : List ℕ) (n : ℕ)
    → IsPacked ts
    → HasFree ts
    → Unknown sha ts
    → (st : FtStatus) × (filetransfer_get_status (filetransfer_add ts sha n).1 sha ≡ some st)
      × (st.parts_ready ≡ 0)
      × (st.part_count ≡ n)
filetransfer_get_status-filetransfer_add [] sha n p f u = absurd f
filetransfer_get_status-filetransfer_add (h ∷ hs) sha n (inr (e, g)) f u = (
  (started h sha n).status,
  ap (λ (out : ℤ × Transfers). filetransfer_get_status out.1 sha) (add-free h hs sha n e)
      ∙ status-hit (started h sha n) hs sha (take sha_digest_str_max_length sha) refl
          (strncmp_eq-take sha_digest_str_max_length sha),
  refl,
  refl,
)
filetransfer_get_status-filetransfer_add (h ∷ hs) sha n (inl ((s, e), p)) (inl e') u = cc
filetransfer_get_status-filetransfer_add (h ∷ hs) sha n (inl ((s, e), p)) (inr f) u =
    extend (filetransfer_get_status-filetransfer_add hs sha n p f u.1)
  where
    extend :
        ((st : FtStatus) × (filetransfer_get_status (filetransfer_add hs sha n).1 sha ≡ some st)
          × (st.parts_ready ≡ 0)
          × (st.part_count ≡ n))
        → (st : FtStatus) × (filetransfer_get_status (filetransfer_add (h ∷ hs) sha n).1 sha
            ≡ some st)
          × (st.parts_ready ≡ 0)
          × (st.part_count ≡ n)
    extend (st, g, a, b) = (
      st,
      ap (λ (out : ℤ × Transfers). filetransfer_get_status out.1 sha) (add-used h hs sha n s e)
          ∙ status-miss h (filetransfer_add hs sha n).1 sha s e (u.0 s e)
          ∙ g,
      a,
      b,
    )

status-free :
    (h : FtHelper) (hs : Transfers) (sha : List ℕ)
    → h.sha_str ≡ none
    → filetransfer_get_status (h ∷ hs) sha ≡ none
unfolding filetransfer_get_status
status-free h hs sha e = ap (status_of (h ∷ hs)) (gethelper-free h hs sha e)

-- The status of a transfer that is already there survives the addition of another.
pub filetransfer_add_keeps_status :
    (ts : Transfers) (sha other : List ℕ) (n : ℕ) (st : FtStatus)
    → IsPacked ts
    → filetransfer_get_status ts other ≡ some st
    → filetransfer_get_status (filetransfer_add ts sha n).1 other ≡ some st
unfolding filetransfer_add
filetransfer_add_keeps_status [] sha other n st p g = g
filetransfer_add_keeps_status (h ∷ hs) sha other n st (inr (e, f)) g = cc (status-free h hs other e)
filetransfer_add_keeps_status (h ∷ hs) sha other n st (inl ((s, e), p)) g =
    ap (λ (out : ℤ × Transfers). filetransfer_get_status out.1 other) (add-used h hs sha n s e)
    ∙ elim (Bool-cases (strncmp_eq sha_digest_str_max_length s other)) [
      | inl hit ↦
          status-hit h (filetransfer_add hs sha n).1 other s e hit
          ∙ sym (status-hit h hs other s e hit)
          ∙ g
      | inr miss ↦
          status-miss h (filetransfer_add hs sha n).1 other s e miss
          ∙ filetransfer_add_keeps_status hs sha other n st p
              (sym (status-miss h hs other s e miss) ∙ g)
    ]
