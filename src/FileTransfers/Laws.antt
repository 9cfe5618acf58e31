-- ===== src/FileTransfers/Laws.antt =====
-- The table of file transfers fills from the front.
pub mod Statuses
pub mod Lookup
pub mod Ready
use tapi2p.Base.{
  ℕ, zero, suc, ◌+◌, ◌<◌, ◌≤◌, ◌≡◌, ◌≢◌, ◌⊎◌, inl, inr, refl, sym, ap, subst, ◌∙◌, ℤ, pos, negsuc,
  Option, none, some, List, [], ◌∷◌, ◌++◌, map, Bool, true, false, ltb, lt→ltb, if◌then◌else◌,
  get_elem?, set, length, length-append, take, replicate, strncmp_eq, Bool-cases, Option-cases,
  arith, bytes_eq_refl, bytes_eq,
}
use tapi2p.FileTransfers.{
  sha_digest_str_max_length, FtStatus, FtHelper, Transfers, started, filetransfer_add, Helper,
  found, missing, null_string, later, gethelper, mark_part, update_at, filetransfer_part_ready,
  filetransfer_get_status, count_used, copy_statuses, filetransfer_get_statuses,
}

abbrev pub IsUsed : FtHelper → Type 0
IsUsed h = (s : List ℕ) × (h.sha_str ≡ some s)

abbrev pub AllFree : Transfers → Type 0
AllFree [] = Unit {0}
AllFree (h ∷ hs) = (h.sha_str ≡ none) × AllFree hs

-- The used slots come first.
abbrev pub IsPacked : Transfers → Type 0
IsPacked [] = Unit {0}
IsPacked (h ∷ hs) = (IsUsed h × IsPacked hs) ⊎ ((h.sha_str ≡ none) × AllFree hs)

abbrev pub AllUsed : Transfers → Type 0
AllUsed [] = Unit {0}
AllUsed (h ∷ hs) = IsUsed h × AllUsed hs

-- The statuses of the slots in use, in order.
abbrev pub used_statuses : Transfers → List (Option FtStatus)
used_statuses [] = []
used_statuses (h ∷ hs) = elim h.sha_str [
  | none ↦ used_statuses hs
  | some s ↦ some h.status ∷ used_statuses hs
]

-- What filetransfer_add can do: fill the first free slot and return 0, or return -1 at a full
-- table that it leaves alone.
abbrev pub AddOutcome : Transfers → List ℕ → ℕ → ℤ × Transfers → Type 0
AddOutcome ts sha n (r, ts') =
    ((r ≡ pos 0)
      × ((pre : Transfers) × (h : FtHelper) × (post : Transfers) × AllUsed pre
          × (h.sha_str ≡ none)
          × (ts ≡ pre ++ (h ∷ post))
          × (ts' ≡ pre ++ (started h sha n ∷ post))))
    ⊎ ((r ≡ negsuc 0) × AllUsed ts × (ts' ≡ ts))

add_later :
    (h : FtHelper) (s : List ℕ) (ts : Transfers) (sha : List ℕ) (n : ℕ) (out : ℤ × Transfers)
    → h.sha_str ≡ some s
    → AddOutcome ts sha n out
    → AddOutcome (h ∷ ts) sha n (out.0, h ∷ out.1)
add_later h s ts sha n out e (inl (r, (pre, g, post, u, f, p, q))) =
    inl (r, (h ∷ pre, g, post, ((s, e), u), f, ap (◌∷◌ h) p, ap (◌∷◌ h) q))
add_later h s ts sha n out e (inr (r, u, q)) = inr (r, ((s, e), u), ap (◌∷◌ h) q)

module _ (h : FtHelper) (hs : Transfers) (sha : List ℕ) where
  pub add-free :
      (n : ℕ) → h.sha_str ≡ none → filetransfer_add (h ∷ hs) sha n ≡ (pos 0, started h sha n ∷ hs)
  unfolding filetransfer_add
  add-free n e = ground arith

  pub add-used :
      (n : ℕ) (s : List ℕ)
      → h.sha_str ≡ some s
      → filetransfer_add (h ∷ hs) sha n
        ≡ ((filetransfer_add hs sha n).0, h ∷ (filetransfer_add hs sha n).1)
  unfolding filetransfer_add
  add-used n s e = ground arith

  pub gethelper-free : h.sha_str ≡ none → gethelper (h ∷ hs) sha ≡ null_string
  unfolding gethelper
  gethelper-free e = ground arith

  pub gethelper-used :
      (s : List ℕ)
      → h.sha_str ≡ some s
      → gethelper (h ∷ hs) sha
        ≡ (if strncmp_eq sha_digest_str_max_length s sha then found 0 else later (gethelper hs sha))
  unfolding gethelper
  gethelper-used s e = rw (gethelper, e)

-- filetransfer_add fills the first free slot and returns 0; at a full table it returns -1 and
-- changes nothing.
pub filetransfer_add-AddOutcome :
    (ts : Transfers) (sha : List ℕ) (n : ℕ) → AddOutcome ts sha n (filetransfer_add ts sha n)
unfolding filetransfer_add
filetransfer_add-AddOutcome [] sha n = inr (refl, tt, refl)
filetransfer_add-AddOutcome (h ∷ hs) sha n = elim (Option-cases h.sha_str) [
  | inl e ↦
      subst (AddOutcome (h ∷ hs) sha n) (sym (add-free h hs sha n e))
        (inl (refl, ([], h, hs, tt, e, refl, refl)))
  | inr (s, e) ↦
      subst (AddOutcome (h ∷ hs) sha n) (sym (add-used h hs sha n s e))
        (add_later h s hs sha n _ e (filetransfer_add-AddOutcome hs sha n))
]

AllUsed-IsPacked :
    (pre : Transfers) (rest : Transfers) → AllUsed pre → IsPacked rest → IsPacked (pre ++ rest)
AllUsed-IsPacked [] rest u p = p
AllUsed-IsPacked (h ∷ pre) rest u p = inl (u.0, AllUsed-IsPacked pre rest u.1 p)

AllFree-IsPacked : (ts : Transfers) → AllFree ts → IsPacked ts
AllFree-IsPacked [] f = tt
AllFree-IsPacked (h ∷ hs) f = inr f

-- Adding a transfer keeps the used slots in front.
pub filetransfer_add-IsPacked :
    (ts : Transfers) (sha : List ℕ) (n : ℕ) → IsPacked ts → IsPacked (filetransfer_add ts sha n).1
unfolding filetransfer_add
filetransfer_add-IsPacked [] sha n p = tt
filetransfer_add-IsPacked (h ∷ hs) sha n (inl ((s, e), p)) =
    subst (λ out. IsPacked out.1) (sym (add-used h hs sha n s e))
      (inl ((s, e), filetransfer_add-IsPacked hs sha n p))
filetransfer_add-IsPacked (h ∷ hs) sha n (inr (e, f)) =
    subst (λ out. IsPacked out.1) (sym (add-free h hs sha n e))
      (inl ((take sha_digest_str_max_length sha, refl), AllFree-IsPacked hs f))
