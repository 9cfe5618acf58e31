-- ===== src/Event/Callbacks/Laws.antt =====
-- What the callback tables promise: who is called after a listener is added or removed.
use tapi2p.Base.{
  ℕ, zero, suc, sym, ◌∙◌, ℕ_discrete, get_elem?-lt, ◌≡◌, ◌≢◌, refl, ap, ◌⊎◌, inl, inr, some, List,
  [], ◌∷◌, ◌++◌, map, true, false, ◌==◌, get_elem?, set, get_elem?-set_self, get_elem?-set_ne,
  Bool-cases, arith,
}
use tapi2p.Event.Types.{EventType, event_code}
use tapi2p.Event.Callbacks.{
  Slot, Row, Registry, clear_cb, run_slots, run_row, event_run_callbacks, alloc_row, add_slot,
  event_addlistener, remove_slot, event_removelistener,
}

-- Some slot is free.
abbrev pub HasRoom : List Slot → Type 0
HasRoom [] = ⊥
HasRoom (s ∷ ss) = (s.cb ≡ 0) ⊎ HasRoom ss

-- No slot holds the callback.
abbrev pub Absent : ℕ → List Slot → Type 0
Absent cb [] = Unit {0}
Absent cb (s ∷ ss) = (s.cb ≢ cb) × Absent cb ss

-- A slot without a callback has no data either.
abbrev pub IsClean : List Slot → Type 0
IsClean [] = Unit {0}
IsClean (s ∷ ss) = (s.cb ≡ 0 → s.cb_data ≡ 0) × IsClean ss

-- `after` is `before` with the one call put in.
abbrev pub Inserted : Slot → List Slot → List Slot → Type 0
Inserted s before after =
    (pre : List Slot) × (post : List Slot) × (before ≡ pre ++ post) × (after ≡ pre ++ (s ∷ post))

pub add_slot-Inserted :
    (cb d : ℕ) (ss : List Slot)
    → cb ≢ 0
    → HasRoom ss
    → Inserted (record { cb = cb; cb_data = d }) (run_slots ss) (run_slots (add_slot cb d ss))
unfolding run_slots add_slot
add_slot-Inserted cb d [] h room = absurd room
add_slot-Inserted cb d (s ∷ ss) h room = elim (Bool-cases (s.cb == 0)) [
  | inl e ↦ ([], run_slots ss, ground arith, ground arith)
  | inr e ↦ more e (add_slot-Inserted cb d ss h (ground arith))
]
  where
    more :
        (s.cb == 0) ≡ false
        → Inserted (record { cb = cb; cb_data = d }) (run_slots ss) (run_slots (add_slot cb d ss))
        → Inserted
            (record { cb = cb; cb_data = d })
            (run_slots (s ∷ ss))
            (run_slots (add_slot cb d (s ∷ ss)))
    more e (pre, post, p, q) = (s ∷ pre, post, ground arith, ground arith)

pub remove_slot-add_slot :
    (cb d : ℕ) (ss : List Slot)
    → cb ≢ 0
    → Absent cb ss
    → IsClean ss
    → remove_slot cb (add_slot cb d ss) ≡ ss
unfolding remove_slot add_slot
remove_slot-add_slot cb d [] h a c = refl
remove_slot-add_slot cb d (s ∷ ss) h a c = ground (arith, remove_slot-add_slot cb d ss h a.1 c.1)

pub run_slots-clear : (ss : List Slot) → run_slots (map clear_cb ss) ≡ []
unfolding run_slots
run_slots-clear [] = refl
run_slots-clear (s ∷ ss) = run_slots-clear ss

-- What `run_row` calls, read off the row that a listener is added to.
run_row-alloc_row : (r : Row) → run_row r ≡ run_slots (alloc_row r).slots
unfolding run_row alloc_row
run_row-alloc_row r = elim (Bool-cases r.allocated) [
  | inl e ↦ ground arith
  | inr e ↦ ground (arith, run_slots-clear r.slots)
]

alloc_row-allocated : (r : Row) → (alloc_row r).allocated ≡ true
unfolding alloc_row
alloc_row-allocated r = ground arith

run_row-true :
    (ss : List Slot) (r : Row)
    → r.allocated ≡ true
    → run_row (record r { slots = ss }) ≡ run_slots ss
unfolding run_row
run_row-true ss r e = rw e

event_run_callbacks-get :
    (reg : Registry) (u : ℕ) (r : Row)
    → get_elem? reg u ≡ some r
    → event_run_callbacks reg u ≡ some (run_row r)
unfolding event_run_callbacks
event_run_callbacks-get reg u r e = rw (e, event_run_callbacks)

event_run_callbacks-set_self :
    (reg : Registry) (u : ℕ) (r r' : Row)
    → get_elem? reg u ≡ some r
    → event_run_callbacks (set reg u r') u ≡ some (run_row r')
event_run_callbacks-set_self reg u r r' e =
    event_run_callbacks-get (set reg u r') u r' (get_elem?-set_self reg u r' (get_elem?-lt reg u e))

event_run_callbacks-set_ne :
    (reg : Registry) (u v : ℕ) (r' : Row)
    → u ≢ v
    → event_run_callbacks (set reg u r') v ≡ event_run_callbacks reg v
unfolding event_run_callbacks
event_run_callbacks-set_ne reg u v r' h =
    rw (get_elem?-set_ne reg {i = u} {j = v} r' h, event_run_callbacks)

added_row : Row → ℕ → ℕ → Row
added_row r cb d = let r' = alloc_row r in record r' { slots = add_slot cb d r'.slots }

event_addlistener-get :
    (reg : Registry) (t : EventType) (cb d : ℕ) (r : Row)
    → get_elem? reg (event_code t) ≡ some r
    → event_addlistener reg t cb d ≡ set reg (event_code t) (added_row r cb d)
unfolding event_addlistener added_row
event_addlistener-get reg t cb d r e = rw (e, event_addlistener)

run_row-added_row :
    (r : Row) (cb d : ℕ)
    → run_row (added_row r cb d) ≡ run_slots (add_slot cb d (alloc_row r).slots)
unfolding added_row
run_row-added_row r cb d = run_row-true _ (alloc_row r) (alloc_row-allocated r)

-- A listener added to a row with room is called once more than before, at one place in the order
-- of the slots, and an event of another type `u` is not affected.
pub event_addlistener-Inserted :
    (reg : Registry) (t : EventType) (cb d u : ℕ) (r : Row)
    → get_elem? reg (event_code t) ≡ some r
    → cb ≢ 0
    → event_code t ≢ u
    → HasRoom (alloc_row r).slots
    → (before : List Slot) × (after : List Slot) × (event_run_callbacks reg (event_code t)
        ≡ some before)
      × (event_run_callbacks (event_addlistener reg t cb d) (event_code t) ≡ some after)
      × Inserted (record { cb = cb; cb_data = d }) before after
      × (event_run_callbacks (event_addlistener reg t cb d) u ≡ event_run_callbacks reg u)
event_addlistener-Inserted reg t cb d u r e h ne room = (
  run_slots (alloc_row r).slots,
  run_slots (add_slot cb d (alloc_row r).slots),
  event_run_callbacks-get reg (event_code t) r e ∙ ap some (run_row-alloc_row r),
  rw (event_addlistener-get reg t cb d r e)
      (event_run_callbacks-set_self reg (event_code t) r _ e ∙ ap some (run_row-added_row r cb d)),
  add_slot-Inserted cb d (alloc_row r).slots h room,
  rw (event_addlistener-get reg t cb d r e) (event_run_callbacks-set_ne reg (event_code t) u _ ne),
)

event_removelistener-get :
    (reg : Registry) (t : EventType) (cb : ℕ) (r : Row)
    → get_elem? reg (event_code t) ≡ some r
    → r.allocated ≡ true
    → event_removelistener reg t cb
      ≡ set reg (event_code t) (record r { slots = remove_slot cb r.slots })
unfolding event_removelistener
event_removelistener-get reg t cb r e a = rw (e, event_removelistener) (rw a)

removed_row :
    (r : Row) (cb d : ℕ)
    → cb ≢ 0
    → Absent cb (alloc_row r).slots
    → IsClean (alloc_row r).slots
    → run_row (record (added_row r cb d) { slots = remove_slot cb (added_row r cb d).slots })
      ≡ run_row r
unfolding added_row
removed_row r cb d h a c =
    run_row-true _ (alloc_row r) (alloc_row-allocated r)
    ∙ ap run_slots (remove_slot-add_slot cb d (alloc_row r).slots h a c)
    ∙ sym (run_row-alloc_row r)

set-set {ℓ} : {A : Type ℓ} (xs : List A) (i : ℕ) (a b : A) → set (set xs i a) i b ≡ set xs i b
set-set [] i a b = refl
set-set (x ∷ xs) zero a b = refl
set-set (x ∷ xs) (suc i) a b = ap (◌∷◌ x) (set-set xs i a b)

-- Adding a callback that no slot of its type holds and removing it again changes for no event type
-- what is called, also where the table was full and the callback was never added.
pub event_removelistener-event_addlistener :
    (reg : Registry) (t : EventType) (cb d u : ℕ) (r : Row)
    → get_elem? reg (event_code t) ≡ some r
    → cb ≢ 0
    → Absent cb (alloc_row r).slots
    → IsClean (alloc_row r).slots
    → event_run_callbacks (event_removelistener (event_addlistener reg t cb d) t cb) u
      ≡ event_run_callbacks reg u
unfolding added_row
event_removelistener-event_addlistener reg t cb d u r e h a c =
    rw
      (
        event_addlistener-get reg t cb d r e,
        event_removelistener-get _ t cb (added_row r cb d)
            (get_elem?-set_self reg (event_code t) _ (get_elem?-lt reg (event_code t) e))
            (alloc_row-allocated r),
        set-set reg (event_code t) (added_row r cb d) _,
      )
      (elim (ℕ_discrete (event_code t) u) [
        | yes p ↦ rw (← p) (
            event_run_callbacks-set_self reg (event_code t) r _ e
            ∙ ap some (removed_row r cb d h a c)
            ∙ sym (event_run_callbacks-get reg (event_code t) r e))
        | no ne ↦ event_run_callbacks-set_ne reg (event_code t) u _ ne
      ])
