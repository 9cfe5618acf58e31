-- ===== src/FileTransfers.antt =====
-- core/filetransfermanager.c: the global table of file transfers, MAX_TRANSFERS slots.
-- `none` is a fault of the process: a NULL string given to strncmp, a write outside an array, or a
-- failed assert.
pub mod Laws
use tapi2p.Base.{
  ℕ, zero, suc, ◌+◌, ◌≡◌, ℤ, pos, negsuc, Option, none, some, List, [], ◌∷◌, ◌++◌, Bool, true,
  false, ltb, ◌==◌, if◌then◌else◌, get_elem?, set, length, ◌%◌, ◌*◌, ◌^◌, take, replicate,
  strncmp_eq,
}

-- MAX_TRANSFERS of core/peer.h
abbrev pub max_transfers : ℕ
max_transfers = 64

-- SHA_DIGEST_STR_MAX_LENGTH of core/file.h, with SHA_DIGEST_LENGTH 20
abbrev pub sha_digest_str_max_length : ℕ
sha_digest_str_max_length = 20 * 2 + 1

-- struct filetransferstatus
pub record FtStatus : Type 0 where
  pub sha_str : Option (List ℕ)
  pub parts_ready : ℕ
  pub part_count : ℕ
  pub file_size : ℕ

-- struct filetransferhelper; `none` is NULL. `parts` is the calloc'd array, a byte for each part.
pub record FtHelper : Type 0 where
  pub sha_str : Option (List ℕ)
  pub parts : List ℕ
  pub status : FtStatus

abbrev pub unused : FtHelper
unused = record {
  sha_str = none;
  parts = [];
  status = record { sha_str = none; parts_ready = 0; part_count = 0; file_size = 0 };
}

abbrev pub Transfers : Type 0
Transfers = List FtHelper

abbrev pub filetransfermanager_init : Transfers
filetransfermanager_init = replicate max_transfers unused

unfoldable pub filetransfermanager_free : Transfers → Transfers
filetransfermanager_free [] = []
filetransfermanager_free (h ∷ hs) =
    elim h.sha_str [ none ↦ h | some s ↦ unused ] ∷ filetransfermanager_free hs

-- What a free slot becomes. `status.file_size` keeps what it was.
abbrev pub started : FtHelper → List ℕ → ℕ → FtHelper
started h sha part_count = record {
  sha_str = some (take sha_digest_str_max_length sha);
  parts = replicate part_count 0;
  status = record {
    sha_str = some (take sha_digest_str_max_length sha);
    parts_ready = 0;
    part_count = part_count;
    file_size = h.status.file_size;
  };
}

-- The loop over the slots; of the metadata it reads `part_count` only.
unfoldable pub filetransfer_add : Transfers → List ℕ → ℕ → ℤ × Transfers
filetransfer_add [] sha part_count = (negsuc 0, [])
filetransfer_add (h ∷ hs) sha part_count = elim h.sha_str [
  | none ↦ (pos 0, started h sha part_count ∷ hs)
  | some s ↦ let (r, hs') = filetransfer_add hs sha part_count in (r, h ∷ hs')
]

-- gethelper: the index of the slot, NULL, or the fault of strncmp on a NULL string.
pub data Helper : Type 0 where
  found : ℕ → Helper
  missing : Helper
  null_string : Helper

abbrev pub later : Helper → Helper
later (found i) = found (suc i)
later missing = missing
later null_string = null_string

unfoldable pub gethelper : Transfers → List ℕ → Helper
gethelper [] sha = missing
gethelper (h ∷ hs) sha =
    let rest = later (gethelper hs sha) in
    elim h.sha_str [
      | none ↦ null_string
      | some s ↦ if strncmp_eq sha_digest_str_max_length s sha then found 0 else rest
    ]

abbrev pub marked : FtHelper → ℕ → FtHelper
marked h partnum = record h {
  parts = set h.parts partnum 1;
  status = record (h.status) { parts_ready = (h.status.parts_ready + 1) % 2 ^ 32 };
}

-- parts[partnum]=1 and parts_ready++; a partnum outside the array is a fault.
unfoldable pub mark_part : FtHelper → ℕ → Option FtHelper
mark_part h partnum = if ltb partnum (length h.parts) then some (marked h partnum) else none

unfoldable pub update_at : Transfers → ℕ → (FtHelper → Option FtHelper) → Option Transfers
update_at [] i f = none
update_at (h ∷ hs) zero f = elim (f h) [ none ↦ none | some h' ↦ some (h' ∷ hs) ]
update_at (h ∷ hs) (suc i) f = elim (update_at hs i f) [ none ↦ none | some hs' ↦ some (h ∷ hs') ]

abbrev pub ready_at : ℕ → Transfers → Helper → Option Transfers
ready_at partnum ts (found i) = update_at ts i (λ h. mark_part h partnum)
ready_at partnum ts missing = some ts
ready_at partnum ts null_string = none

unfoldable pub filetransfer_part_ready : Transfers → List ℕ → ℕ → Option Transfers
unfolding gethelper mark_part update_at
filetransfer_part_ready ts sha partnum = ready_at partnum ts (gethelper ts sha)

abbrev pub status_of : Transfers → Helper → Option FtStatus
status_of ts (found i) = elim (get_elem? ts i) [ none ↦ none | some h ↦ some h.status ]
status_of ts missing = none
status_of ts null_string = none

-- Without a slot the assert fails.
unfoldable pub filetransfer_get_status : Transfers → List ℕ → Option FtStatus
unfolding gethelper
filetransfer_get_status ts sha = status_of ts (gethelper ts sha)

-- The first loop of filetransfer_get_statuses.
unfoldable pub count_used : Transfers → ℕ
count_used [] = 0
count_used (h ∷ hs) = elim h.sha_str [ none ↦ count_used hs | some s ↦ count_used hs + 1 ]

-- The second loop: the status of slot i goes to ret[i], and `ret` has room for `count` of them. A
-- cell that was not written is `none`.
unfoldable pub copy_statuses :
    Transfers → ℕ → List (Option FtStatus) → Option (List (Option FtStatus))
copy_statuses [] i ret = some ret
copy_statuses (h ∷ hs) i ret =
    let skipped = copy_statuses hs (i + 1) ret in
    let copied = copy_statuses hs (i + 1) (set ret i (some h.status)) in
    elim h.sha_str [ none ↦ skipped | some s ↦ if ltb i (length ret) then copied else none ]

unfoldable pub filetransfer_get_statuses : Transfers → ℕ × Option (List (Option FtStatus))
unfolding count_used copy_statuses
filetransfer_get_statuses ts =
    let count = count_used ts in (count, copy_statuses ts 0 (replicate count none))
