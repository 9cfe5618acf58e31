-- ===== src/Tests/Events.antt =====
-- The events, their callbacks and the core's switch at concrete inputs.
use tapi2p.Base.{ℕ, zero, suc, ◌≡◌, refl, inl, some, List, [], ◌∷◌, false, arith, replicate, ◌+◌}
use tapi2p.Event.Types.{Evt, Alloc, message}
use tapi2p.Event.Callbacks.{
  Slot, Row, initial, no_slot, cb_max, event_run_callbacks, event_addlistener, event_removelistener,
  alloc_row,
}
use tapi2p.Event.Callbacks.Laws.{
  Inserted, Absent, IsClean, event_addlistener-Inserted, event_removelistener-event_addlistener,
}
use tapi2p.Event.Wire.{received}
use tapi2p.Core.Routing.{Dispatched, Handler, dispatch}
use tapi2p.Core.Routing.Laws.{dispatch_in_bounds}
use tapi2p.Core.Receive.{receive_loop, Progress, closed, waiting}
use tapi2p.Core.Receive.Laws.{receive_loop-closed}

abbrev hello : Evt
hello = record {
  type = 8;
  fd_from = 0;
  addr = replicate 16 0;
  port = 5000;
  data_len = 2;
  data_ptr = 12345;
  body = 104 ∷ 105 ∷ [];
}

abbrev memory : Alloc
memory = record { address = 77; leftover = 0; garbage = 9 ∷ 9 ∷ [] }

abbrev row : Row
row = record { allocated = false; slots = replicate cb_max no_slot }

event_addlistener-Inserted_example :
    (before : List Slot) × (after : List Slot) × (event_run_callbacks initial 8 ≡ some before)
    × (event_run_callbacks (event_addlistener initial message 5 6) 8 ≡ some after)
    × Inserted (record { cb = 5; cb_data = 6 }) before after
    × (event_run_callbacks (event_addlistener initial message 5 6) 1
        ≡ event_run_callbacks initial 1)
unfolding alloc_row
event_addlistener-Inserted_example =
    event_addlistener-Inserted initial message 5 6 1 row refl (λ (e : 5 ≡ 0). omega arith)
      (λ (e : 8 ≡ 1). omega arith) (inl refl)

Absent-replicate : (n : ℕ) → Absent 5 (replicate n no_slot)
Absent-replicate zero = tt
Absent-replicate (suc n) = ((λ (e : 0 ≡ 5). omega arith), Absent-replicate n)

IsClean-replicate : (n : ℕ) → IsClean (replicate n no_slot)
IsClean-replicate zero = tt
IsClean-replicate (suc n) = ((λ e. refl), IsClean-replicate n)

event_removelistener-event_addlistener_example :
    event_run_callbacks (event_removelistener (event_addlistener initial message 5 6) message 5) 8
    ≡ event_run_callbacks initial 8
unfolding alloc_row
event_removelistener-event_addlistener_example =
    event_removelistener-event_addlistener initial message 5 6 8 row refl
      (λ (e : 5 ≡ 0). omega arith) (Absent-replicate cb_max) (IsClean-replicate cb_max)

abbrev addresses : Handler → ℕ
addresses h = 40

dispatch_in_bounds_example : (d : Dispatched) × (dispatch initial 200 ≡ some d)
dispatch_in_bounds_example = dispatch_in_bounds initial 200 refl

abbrev halfway : Progress
halfway = record { buf = 1 ∷ 2 ∷ 0 ∷ 0 ∷ []; received = 2; removals = 0 }

receive_loop-closed_example :
    (q : Progress) × (receive_loop 4 halfway (replicate 3 closed) ≡ waiting q)
    × (q.received ≡ 2)
    × (q.removals ≡ 0 + 3)
receive_loop-closed_example = receive_loop-closed 4 3 halfway (omega arith) (omega arith)

abbrev fragments : List (List ℕ)
fragments = (1 ∷ 2 ∷ []) ∷ (3 ∷ []) ∷ []
