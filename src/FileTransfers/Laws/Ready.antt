-- ===== src/FileTransfers/Laws/Ready.antt =====
-- Counting the parts of a transfer that have come.
use tapi2p.Base.{
  ℕ, ◌+◌, ◌%◌, ◌^◌, ◌<◌, ◌≡◌, refl, sym, ap, subst, ◌∙◌, ◌⊎◌, inl, inr, Option, none, some, List,
  [], ◌∷◌, Bool, true, false, lt→ltb, ◌≢◌, bytes_eq→eq, if◌then◌else◌, length, take, strncmp_eq,
  Bool-cases, bytes_eq,
}
use tapi2p.FileTransfers.{
  sha_digest_str_max_length, marked, FtStatus, FtHelper, Transfers, Helper, found, missing,
  null_string, later, status_of, ready_at, gethelper, mark_part, update_at, filetransfer_part_ready,
  filetransfer_get_status,
}
use tapi2p.FileTransfers.Laws.{gethelper-used}
use tapi2p.FileTransfers.Laws.Lookup.{status-hit, status-miss}

ready_at-later :
    (partnum : ℕ) (h : FtHelper) (hs : Transfers) (x : Helper)
    → x ≢ missing
    → ready_at partnum (h ∷ hs) (later x)
      ≡ elim (ready_at partnum hs x) [ none ↦ none | some hs' ↦ some (h ∷ hs') ]
unfolding update_at
ready_at-later partnum h hs (found i) ne = refl
ready_at-later partnum h hs missing ne = absurd (ne refl)
ready_at-later partnum h hs null_string ne = refl

status_of-some :
    (hs : Transfers) (x : Helper) (st : FtStatus) → status_of hs x ≡ some st → x ≢ missing
status_of-some hs (found i) st g = λ m. cc
status_of-some hs missing st g = λ m. cc
status_of-some hs null_string st g = λ m. cc

module _ (h : FtHelper) (hs : Transfers) (sha : List ℕ) (s : List ℕ) (e : h.sha_str ≡ some s) where
  ready-hit :
      (partnum : ℕ)
      → strncmp_eq sha_digest_str_max_length s sha ≡ true
      → filetransfer_part_ready (h ∷ hs) sha partnum
        ≡ elim (mark_part h partnum) [ none ↦ none | some h' ↦ some (h' ∷ hs) ]
  unfolding filetransfer_part_ready
  ready-hit partnum hit = ap (ready_at partnum (h ∷ hs)) (
      gethelper-used h hs sha s e
      ∙ ap (λ (b : Bool). if b then found 0 else later (gethelper hs sha)) hit)

  ready-miss :
      (partnum : ℕ) (st : FtStatus)
      → filetransfer_get_status hs sha ≡ some st
      → strncmp_eq sha_digest_str_max_length s sha ≡ false
      → filetransfer_part_ready (h ∷ hs) sha partnum
        ≡ elim (filetransfer_part_ready hs sha partnum) [ none ↦ none | some hs' ↦ some (h ∷ hs') ]
  unfolding filetransfer_part_ready filetransfer_get_status
  ready-miss partnum st g miss =
      ap (ready_at partnum (h ∷ hs)) (
        gethelper-used h hs sha s e
        ∙ ap (λ (b : Bool). if b then found 0 else later (gethelper hs sha)) miss)
      ∙ ready_at-later partnum h hs (gethelper hs sha) (status_of-some hs (gethelper hs sha) st g)

strncmp_eq_trans :
    (n : ℕ) (s sha other : List ℕ)
    → strncmp_eq n s sha ≡ true
    → strncmp_eq n sha other ≡ false
    → strncmp_eq n s other ≡ false
strncmp_eq_trans n s sha other p q =
    ap (λ (t : List ℕ). bytes_eq t (take n other)) (bytes_eq→eq (take n s) (take n sha) p) ∙ q

-- `h` is the first slot with the hash, and the slots before it are used.
abbrev pub Holds : List ℕ → FtHelper → Transfers → Type 0
Holds sha h [] = ⊥
Holds sha h (g ∷ gs) =
    (s : List ℕ) × (g.sha_str ≡ some s)
    × (((strncmp_eq sha_digest_str_max_length s sha ≡ true) × (g ≡ h))
        ⊎ ((strncmp_eq sha_digest_str_max_length s sha ≡ false) × Holds sha h gs))

-- The slot's status is what filetransfer_get_status returns.
pub filetransfer_get_status-Holds :
    (ts : Transfers) (sha : List ℕ) (h : FtHelper)
    → Holds sha h ts
    → filetransfer_get_status ts sha ≡ some h.status
filetransfer_get_status-Holds [] sha h k = absurd k
filetransfer_get_status-Holds (g ∷ gs) sha h (s, e, inl (hit, q)) =
    status-hit g gs sha s e hit ∙ ap (λ (x : FtHelper). some x.status) q
filetransfer_get_status-Holds (g ∷ gs) sha h (s, e, inr (miss, k)) =
    status-miss g gs sha s e miss ∙ filetransfer_get_status-Holds gs sha h k

-- The call succeeds, the hash has the status of the marked slot, and the other hashes keep theirs.
abbrev pub PartReady : Transfers → List ℕ → FtHelper → ℕ → Option Transfers → Type 0
PartReady ts sha h partnum none = ⊥
PartReady ts sha h partnum (some ts') =
    (filetransfer_get_status ts' sha ≡ some (marked h partnum).status)
    × ((other : List ℕ)
        → strncmp_eq sha_digest_str_max_length sha other ≡ false
        → filetransfer_get_status ts' other ≡ filetransfer_get_status ts other)

PartReady-hit :
    (g h : FtHelper) (gs : Transfers) (sha s : List ℕ) (partnum : ℕ)
    → g.sha_str ≡ some s
    → strncmp_eq sha_digest_str_max_length s sha ≡ true
    → g ≡ h
    → PartReady (g ∷ gs) sha h partnum (some (marked g partnum ∷ gs))
PartReady-hit g h gs sha s partnum e hit q = (
  status-hit (marked g partnum) gs sha s e hit
      ∙ ap (λ (x : FtHelper). some (marked x partnum).status) q,
  λ other ne.
      let no = strncmp_eq_trans sha_digest_str_max_length s sha other hit ne in
      status-miss (marked g partnum) gs other s e no ∙ sym (status-miss g gs other s e no),
)

PartReady-miss :
    (g h : FtHelper) (gs : Transfers) (sha s : List ℕ) (partnum : ℕ) (r : Option Transfers)
    → g.sha_str ≡ some s
    → strncmp_eq sha_digest_str_max_length s sha ≡ false
    → PartReady gs sha h partnum r
    → PartReady (g ∷ gs) sha h partnum (elim r [ none ↦ none | some gs' ↦ some (g ∷ gs') ])
PartReady-miss g h gs sha s partnum none e miss p = p
PartReady-miss g h gs sha s partnum (some gs') e miss (p, rest) = (
  status-miss g gs' sha s e miss ∙ p,
  λ other ne. elim (Bool-cases (strncmp_eq sha_digest_str_max_length s other)) [
    | inl y ↦ status-hit g gs' other s e y ∙ sym (status-hit g gs other s e y)
    | inr n ↦ status-miss g gs' other s e n ∙ rest other ne ∙ sym (status-miss g gs other s e n)
  ],
)

filetransfer_part_ready-PartReady :
    (ts : Transfers) (sha : List ℕ) (h : FtHelper) (partnum : ℕ)
    → Holds sha h ts
    → partnum < length h.parts
    → PartReady ts sha h partnum (filetransfer_part_ready ts sha partnum)
unfolding mark_part
filetransfer_part_ready-PartReady [] sha h partnum k l = absurd k
filetransfer_part_ready-PartReady (g ∷ gs) sha h partnum (s, e, inl (hit, q)) l =
    subst (PartReady (g ∷ gs) sha h partnum)
      (sym (
        ready-hit g gs sha s e partnum hit
        ∙ ap
            (λ (b : Bool). elim (if b then some (marked g partnum) else none) [
              | none ↦ none
              | some h' ↦ some (h' ∷ gs)
            ])
            (lt→ltb partnum (length g.parts)
              (subst (λ (x : FtHelper). partnum < length x.parts) (sym q) l))))
      (PartReady-hit g h gs sha s partnum e hit q)
filetransfer_part_ready-PartReady (g ∷ gs) sha h partnum (s, e, inr (miss, k)) l =
    subst (PartReady (g ∷ gs) sha h partnum)
      (sym
        (ready-miss g gs sha s e partnum h.status (filetransfer_get_status-Holds gs sha h k) miss))
      (PartReady-miss g h gs sha s partnum (filetransfer_part_ready gs sha partnum) e miss
        (filetransfer_part_ready-PartReady gs sha h partnum k l))

-- For a part number inside the array of parts, filetransfer_part_ready succeeds and the status of
-- the hash counts one part more in its 32 bits, whichever parts were written before; a hash that differs from
-- it in its first 41 bytes keeps its status.
pub filetransfer_part_ready-statuses :
    (ts : Transfers) (sha other : List ℕ) (h : FtHelper) (partnum : ℕ)
    → Holds sha h ts
    → partnum < length h.parts
    → strncmp_eq sha_digest_str_max_length sha other ≡ false
    → (ts' : Transfers) × (filetransfer_part_ready ts sha partnum ≡ some ts')
      × (filetransfer_get_status ts' sha ≡ some (marked h partnum).status)
      × ((marked h partnum).status.parts_ready ≡ (h.status.parts_ready + 1) % 2 ^ 32)
      × (filetransfer_get_status ts' other ≡ filetransfer_get_status ts other)
filetransfer_part_ready-statuses ts sha other h partnum k l ne =
    found (filetransfer_part_ready ts sha partnum) refl
      (filetransfer_part_ready-PartReady ts sha h partnum k l)
  where
    found :
        (o : Option Transfers)
        → filetransfer_part_ready ts sha partnum ≡ o
        → PartReady ts sha h partnum o
        → (ts' : Transfers) × (filetransfer_part_ready ts sha partnum ≡ some ts')
          × (filetransfer_get_status ts' sha ≡ some (marked h partnum).status)
          × ((marked h partnum).status.parts_ready ≡ (h.status.parts_ready + 1) % 2 ^ 32)
          × (filetransfer_get_status ts' other ≡ filetransfer_get_status ts other)
    found none e r = absurd r
    found (some ts') e (a, b) = (ts', e, a, refl, b other ne)
