-- ===== src/FileTransfers/Laws/Statuses.antt =====
-- filetransfer_get_statuses writes inside its array and returns the status of every used slot.
use mathlib.Core.List.{append_assoc}
use tapi2p.Base.{
  ℕ, suc, ◌+◌, ◌≡◌, refl, ap, ap₂, sym, ◌∙◌, inl, inr, Option, none, some, List, [], ◌∷◌, ◌++◌,
  true, ltb, lt→ltb, set, length, length-append, replicate, arith,
}
use tapi2p.FileTransfers.{
  FtStatus, FtHelper, Transfers, count_used, copy_statuses, filetransfer_get_statuses,
}
use tapi2p.FileTransfers.Laws.{AllFree, IsPacked, used_statuses}

set-append-length {ℓ} :
    {A : Type ℓ} (pre xs : List A) (a v : A)
    → set (pre ++ (a ∷ xs)) (length pre) v ≡ pre ++ (v ∷ xs)
set-append-length [] xs a v = refl
set-append-length (x ∷ pre) xs a v = ap (◌∷◌ x) (set-append-length pre xs a v)

count_used-AllFree : (ts : Transfers) → AllFree ts → count_used ts ≡ 0
unfolding count_used
count_used-AllFree [] f = refl
count_used-AllFree (h ∷ hs) f = ground (arith, count_used-AllFree hs f.1)

used_statuses-AllFree : (ts : Transfers) → AllFree ts → used_statuses ts ≡ []
used_statuses-AllFree [] f = refl
used_statuses-AllFree (h ∷ hs) f = ground (arith, used_statuses-AllFree hs f.1)

copy_statuses-AllFree :
    (ts : Transfers) (i : ℕ) (ret : List (Option FtStatus))
    → AllFree ts
    → copy_statuses ts i ret ≡ some ret
unfolding copy_statuses
copy_statuses-AllFree [] i ret f = refl
copy_statuses-AllFree (h ∷ hs) i ret f = ground (arith, copy_statuses-AllFree hs (i + 1) ret f.1)

module _ (h : FtHelper) (hs : Transfers) (s : List ℕ) (e : h.sha_str ≡ some s) where
  count_used-used : count_used (h ∷ hs) ≡ suc (count_used hs)
  unfolding count_used
  count_used-used = ground arith

  used_statuses-used : used_statuses (h ∷ hs) ≡ some h.status ∷ used_statuses hs
  used_statuses-used = ground arith

  copy_statuses-used :
      (i : ℕ) (ret : List (Option FtStatus))
      → ltb i (length ret) ≡ true
      → copy_statuses (h ∷ hs) i ret ≡ copy_statuses hs (i + 1) (set ret i (some h.status))
  unfolding copy_statuses
  copy_statuses-used i ret l = rw (copy_statuses, e) (rw l)

copy_statuses-IsPacked :
    (ts : Transfers) (pre : List (Option FtStatus))
    → IsPacked ts
    → copy_statuses ts (length pre) (pre ++ replicate (count_used ts) none)
      ≡ some (pre ++ used_statuses ts)
unfolding count_used copy_statuses
copy_statuses-IsPacked [] pre p = refl
copy_statuses-IsPacked (h ∷ hs) pre (inr f) =
    copy_statuses-AllFree (h ∷ hs) (length pre) _ f
    ∙ ap some (
        ap (λ (t : List (Option FtStatus)). pre ++ t)
          (ap (λ (n : ℕ). replicate n none) (count_used-AllFree (h ∷ hs) f)
            ∙ sym (used_statuses-AllFree (h ∷ hs) f)))
copy_statuses-IsPacked (h ∷ hs) pre (inl ((s, e), p)) =
    ap (λ n. copy_statuses (h ∷ hs) (length pre) (pre ++ replicate n none))
      (count_used-used h hs s e)
    ∙ copy_statuses-used h hs s e (length pre) _
        (lt→ltb _ _ (omega (arith, length-append pre (none ∷ replicate (count_used hs) none))))
    ∙ ap₂ (copy_statuses hs) index array
    ∙ copy_statuses-IsPacked hs (pre ++ (some h.status ∷ [])) p
    ∙ ap some (
        append_assoc pre (some h.status ∷ []) (used_statuses hs)
        ∙ ap (◌++◌ pre) (sym (used_statuses-used h hs s e)))
  where
    index : length pre + 1 ≡ length (pre ++ (some h.status ∷ []))
    index = omega (arith, length-append pre (some h.status ∷ []))

    array :
        set (pre ++ (none ∷ replicate (count_used hs) none)) (length pre) (some h.status)
        ≡ (pre ++ (some h.status ∷ [])) ++ replicate (count_used hs) none
    array =
        set-append-length pre (replicate (count_used hs) none) none (some h.status)
        ∙ sym (append_assoc pre (some h.status ∷ []) (replicate (count_used hs) none))

length-used_statuses : (ts : Transfers) → length (used_statuses ts) ≡ count_used ts
unfolding count_used
length-used_statuses [] = refl
length-used_statuses (h ∷ hs) = ground (arith, length-used_statuses hs)

-- With the used slots in front, filetransfer_get_statuses writes inside its array, leaves no cell
-- unwritten, and returns exactly the statuses of the used slots in order, with their number.
pub filetransfer_get_statuses-IsPacked :
    (ts : Transfers)
    → IsPacked ts
    → filetransfer_get_statuses ts ≡ (length (used_statuses ts), some (used_statuses ts))
unfolding filetransfer_get_statuses
filetransfer_get_statuses-IsPacked ts p =
    ap₂ (λ n r. (n, r)) (sym (length-used_statuses ts)) (copy_statuses-IsPacked ts [] p)
