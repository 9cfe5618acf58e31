-- ===== src/Core/Routing/Laws.antt =====
-- What an event from a peer makes the core do.
use tapi2p.Base.{
  ℕ, suc, ◌<◌, ◌≡◌, inl, inr, if◌then◌else◌, subst, zero, refl, sym, ap, Option, none, some, List,
  [], ◌∷◌, Bool, true, false, ◌==◌, length, arith, Bool-cases,
}
use tapi2p.Event.Types.{
  EventType, event_code, event_count, add_file, add_peer, file_list, file_part, file_part_list,
  file_transfer_status, get_public_key, list_peers, message, metadata, peer_connected,
  peer_disconnected, request_file_list, request_file_list_local, request_file_part,
  request_file_part_list, request_file_transfer, request_file_transfer_local, setup, status,
}
use tapi2p.Event.Callbacks.{Slot, Registry, initial, event_run_callbacks}
use tapi2p.Core.Routing.{
  labelled, Dispatched, dispatched, dispatch, run_and_forward, run_only, forward_only, Handler,
  core_listeners, handlefiletransferstatus, handlefiletransfer, handlefiletransferlocal,
  handlefilepartrequest, handlemetadata, handlefilepart, handlerequestfilelist,
  handlerequestfilelistlocal, handleaddpeer, handlegetpublickey,
}

-- A handler for the peers' events of a type.
abbrev pub peer_handler : EventType → Option Handler
peer_handler add_peer = some handleaddpeer
peer_handler file_part = some handlefilepart
peer_handler file_transfer_status = some handlefiletransferstatus
peer_handler get_public_key = some handlegetpublickey
peer_handler metadata = some handlemetadata
peer_handler request_file_list = some handlerequestfilelist
peer_handler request_file_list_local = some handlerequestfilelistlocal
peer_handler request_file_part = some handlefilepartrequest
peer_handler request_file_transfer = some handlefiletransfer
peer_handler request_file_transfer_local = some handlefiletransferlocal
peer_handler _ = none

-- The types whose events the pipe listeners see.
abbrev pub is_forwarded : EventType → Bool
is_forwarded request_file_part = true
is_forwarded request_file_transfer = true
is_forwarded request_file_transfer_local = true
is_forwarded request_file_list = true
is_forwarded request_file_list_local = true
is_forwarded file_transfer_status = true
is_forwarded message = true
is_forwarded list_peers = true
is_forwarded peer_connected = true
is_forwarded file_list = true
is_forwarded _ = false

abbrev pub handler_slots : (Handler → ℕ) → Option Handler → List Slot
handler_slots before none = []
handler_slots before (some h) = record { cb = suc (before h); cb_data = 0 } ∷ []

suc-eq-zero : (n : ℕ) → (suc n == 0) ≡ false
suc-eq-zero n = ground arith

ran :
    (n : ℕ) (b : Bool)
    → let only : List Slot = record { cb = suc n; cb_data = 0 } ∷ [] in
      Path
        (Option Dispatched)
        (some (record { called = if suc n == 0 then [] else only; forwarded = b }))
        (some (record { called = only; forwarded = b }))
ran n b =
    ap
      (λ z. some (record {
        called = if z then [] else (record { cb = suc n; cb_data = 0 } ∷ []);
        forwarded = b;
      }))
      (suc-eq-zero n)

-- Once core_start has registered its listeners, an event of a peer runs the one handler that
-- `peer_handler` names for its type, with NULL for its data, or none where it names none, and goes
-- to the pipe listeners exactly if its type is one of those of `is_forwarded`.
pub dispatch-core_listeners :
    (before : Handler → ℕ) (config_ptr setupstatus_ptr : ℕ) (t : EventType)
    → dispatch (core_listeners before config_ptr setupstatus_ptr initial) (event_code t)
      ≡ some (record { called = handler_slots before (peer_handler t); forwarded = is_forwarded t })
unfolding dispatch core_listeners
dispatch-core_listeners before c s add_file = refl
dispatch-core_listeners before c s add_peer = ran _ false
dispatch-core_listeners before c s file_list = refl
dispatch-core_listeners before c s file_part = ran _ false
dispatch-core_listeners before c s file_part_list = refl
dispatch-core_listeners before c s file_transfer_status = ran _ true
dispatch-core_listeners before c s get_public_key = ran _ false
dispatch-core_listeners before c s list_peers = refl
dispatch-core_listeners before c s message = refl
dispatch-core_listeners before c s metadata = ran _ false
dispatch-core_listeners before c s peer_connected = refl
dispatch-core_listeners before c s peer_disconnected = refl
dispatch-core_listeners before c s request_file_list = ran _ true
dispatch-core_listeners before c s request_file_list_local = ran _ true
dispatch-core_listeners before c s request_file_part = ran _ true
dispatch-core_listeners before c s request_file_part_list = refl
dispatch-core_listeners before c s request_file_transfer = ran _ true
dispatch-core_listeners before c s request_file_transfer_local = ran _ true
dispatch-core_listeners before c s setup = refl
dispatch-core_listeners before c s status = refl

event_code-< : (x : EventType) → event_code x < event_count
event_code-< add_file = omega arith
event_code-< add_peer = omega arith
event_code-< file_list = omega arith
event_code-< file_part = omega arith
event_code-< file_part_list = omega arith
event_code-< file_transfer_status = omega arith
event_code-< get_public_key = omega arith
event_code-< list_peers = omega arith
event_code-< message = omega arith
event_code-< metadata = omega arith
event_code-< peer_connected = omega arith
event_code-< peer_disconnected = omega arith
event_code-< request_file_list = omega arith
event_code-< request_file_list_local = omega arith
event_code-< request_file_part = omega arith
event_code-< request_file_part_list = omega arith
event_code-< request_file_transfer = omega arith
event_code-< request_file_transfer_local = omega arith
event_code-< setup = omega arith
event_code-< status = omega arith

-- A label bounds the type by the count of the event types.
labelled-< : (t : ℕ) (xs : List EventType) → labelled t xs ≡ true → t < event_count
unfolding labelled
labelled-< t [] h = cc
labelled-< t (x ∷ xs) h = elim (Bool-cases (t == event_code x)) [
  | inl e ↦ let lt = event_code-< x in let q : t ≡ event_code x = ground arith in omega arith
  | inr e ↦ labelled-< t xs (cc)
]

run_in_bounds :
    (reg : Registry) (t : ℕ)
    → t < length reg
    → (ss : List Slot) × (event_run_callbacks reg t ≡ some ss)
unfolding event_run_callbacks
run_in_bounds [] t h = elim h [ ]
run_in_bounds (r ∷ reg) zero h = (_, refl)
run_in_bounds (r ∷ reg) (suc t) h = run_in_bounds reg t (omega arith)

dispatched_in_bounds :
    (b : Bool) (o : Option (List Slot))
    → (ss : List Slot) × (o ≡ some ss)
    → (d : Dispatched) × (dispatched b o ≡ some d)
dispatched_in_bounds b none (ss, e) = cc
dispatched_in_bounds b (some ss) e = (_, refl)

switch_in_bounds :
    (a f r : Bool) (o : Option (List Slot))
    → (a ≡ true → (ss : List Slot) × (o ≡ some ss))
    → (r ≡ true → (ss : List Slot) × (o ≡ some ss))
    → (d : Dispatched) × ((if a
          then dispatched true o
          else (if f
              then dispatched true (some [])
              else (if r then dispatched false o else dispatched false (some []))))
        ≡ some d)
switch_in_bounds true f r o p q = dispatched_in_bounds true o (p refl)
switch_in_bounds false true r o p q = (_, refl)
switch_in_bounds false false true o p q = dispatched_in_bounds false o (q refl)
switch_in_bounds false false false o p q = (_, refl)

-- With a row for each event type the switch never reads outside the table, whatever byte a peer
-- sent as the type.
pub dispatch_in_bounds :
    (reg : Registry) (t : ℕ)
    → length reg ≡ event_count
    → (d : Dispatched) × (dispatch reg t ≡ some d)
unfolding dispatch
dispatch_in_bounds reg t l =
    let lt : t < event_count → (ss : List Slot) × (event_run_callbacks reg t ≡ some ss) =
      λ h. run_in_bounds reg t (subst (λ n. t < n) (sym l) h) in
    switch_in_bounds (labelled t run_and_forward) (labelled t forward_only) (labelled t run_only) _
      (λ a. lt (labelled-< t run_and_forward a)) (λ b. lt (labelled-< t run_only b))
