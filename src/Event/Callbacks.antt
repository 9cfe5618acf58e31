-- ===== src/Event/Callbacks.antt =====
-- The callback tables of core/event.c: `callbacks` and `callbackdatas`, CBMAX slots for each type.
-- A function pointer and a data pointer are numbers, NULL is 0. Callbacks are taken not to change
-- the table while they run.
pub mod Laws
use tapi2p.Base.{
  ℕ, suc, Option, none, some, List, [], ◌∷◌, map, Bool, true, false, ◌==◌, if◌then◌else◌, get_elem?,
  set, replicate,
}
use tapi2p.Event.Types.{EventType, event_code, event_count}

abbrev pub cb_max : ℕ
cb_max = 32

-- callbacks[t][j] and callbackdatas[t][j]
pub record Slot : Type 0 where
  pub cb : ℕ
  pub cb_data : ℕ

-- One event type: `allocated` says whether callbacks[t] is not NULL.
pub record Row : Type 0 where
  pub allocated : Bool
  pub slots : List Slot

abbrev pub Registry : Type 0
Registry = List Row

abbrev pub no_slot : Slot
no_slot = record { cb = 0; cb_data = 0 }

-- The static zero initialisation.
abbrev pub initial : Registry
initial = replicate event_count (record { allocated = false; slots = replicate cb_max no_slot })

-- The loop over j: what is called, in order.
unfoldable pub run_slots : List Slot → List Slot
run_slots [] = []
run_slots (s ∷ ss) = let rest = run_slots ss in if s.cb == 0 then rest else s ∷ rest

unfoldable pub run_row : Row → List Slot
unfolding run_slots
run_row r = if r.allocated then run_slots r.slots else []

-- event_run_callbacks; `none` is a read outside `callbacks`.
unfoldable pub event_run_callbacks : Registry → ℕ → Option (List Slot)
unfolding run_row
event_run_callbacks reg t = elim (get_elem? reg t) [ none ↦ none | some r ↦ some (run_row r) ]

abbrev pub clear_cb : Slot → Slot
clear_cb s = record s { cb = 0 }

-- malloc and memset of the row of function pointers; callbackdatas is not touched.
unfoldable pub alloc_row : Row → Row
alloc_row r = if r.allocated then r else record { allocated = true; slots = map clear_cb r.slots }

-- The first free slot takes the callback; with none free nothing changes.
unfoldable pub add_slot : ℕ → ℕ → List Slot → List Slot
add_slot cb d [] = []
add_slot cb d (s ∷ ss) =
    if s.cb == 0 then record { cb = cb; cb_data = d } ∷ ss else s ∷ add_slot cb d ss

unfoldable pub event_addlistener : Registry → EventType → ℕ → ℕ → Registry
unfolding alloc_row add_slot
event_addlistener reg t cb d = elim (get_elem? reg (event_code t)) [
  | none ↦ reg
  | some r ↦
      let r' = alloc_row r in set reg (event_code t) (record r' { slots = add_slot cb d r'.slots })
]

-- The first slot that holds the callback is cleared.
unfoldable pub remove_slot : ℕ → List Slot → List Slot
remove_slot cb [] = []
remove_slot cb (s ∷ ss) = if s.cb == cb then no_slot ∷ ss else s ∷ remove_slot cb ss

unfoldable pub event_removelistener : Registry → EventType → ℕ → Registry
unfolding remove_slot
event_removelistener reg t cb = elim (get_elem? reg (event_code t)) [
  | none ↦ reg
  | some r ↦
      if r.allocated
      then set reg (event_code t) (record r { slots = remove_slot cb r.slots })
      else reg
]
