-- ===== src/Core/Routing.antt =====
-- The switch on the event's type in read_thread of core/core.c, and the listeners of core_start.
pub mod Laws
use tapi2p.Base.{
  ℕ, suc, Option, none, some, List, [], ◌∷◌, Bool, true, false, ◌==◌, ◌||◌, if◌then◌else◌,
}
use tapi2p.Event.Types.{
  EventType, event_code, add_file, add_peer, file_list, file_part, file_part_list,
  file_transfer_status, get_public_key, list_peers, message, metadata, peer_connected,
  request_file_list, request_file_list_local, request_file_part, request_file_part_list,
  request_file_transfer, request_file_transfer_local, status,
}
use tapi2p.Event.Callbacks.{Slot, Registry, event_run_callbacks, event_addlistener}

-- A `case` of the switch, among labels that share their statements.
unfoldable pub labelled : ℕ → List EventType → Bool
labelled t [] = false
labelled t (x ∷ xs) = t == event_code x || labelled t xs

-- The labels in front of event_run_callbacks that falls through to the pipe listeners.
abbrev pub run_and_forward : List EventType
run_and_forward =
    request_file_part ∷ request_file_transfer ∷ request_file_transfer_local ∷ request_file_list
    ∷ request_file_list_local ∷ file_transfer_status ∷ []

abbrev pub forward_only : List EventType
forward_only = message ∷ list_peers ∷ peer_connected ∷ file_list ∷ []

abbrev pub run_only : List EventType
run_only =
    request_file_part_list ∷ file_part_list ∷ metadata ∷ file_part ∷ get_public_key ∷ add_peer ∷ []

-- What the switch does: the callbacks it runs, in order, and whether the event goes to the pipes.
pub record Dispatched : Type 0 where
  pub called : List Slot
  pub forwarded : Bool

abbrev pub dispatched : Bool → Option (List Slot) → Option Dispatched
dispatched forwarded none = none
dispatched forwarded (some ss) = some (record { called = ss; forwarded = forwarded })

-- The switch; the type is any byte, and one without a label does nothing.
unfoldable pub dispatch : Registry → ℕ → Option Dispatched
unfolding labelled event_run_callbacks
dispatch reg t =
    if labelled t run_and_forward
    then dispatched true (event_run_callbacks reg t)
    else if labelled t forward_only
    then dispatched true (some [])
    else if labelled t run_only
    then dispatched false (event_run_callbacks reg t)
    else dispatched false (some [])

-- The handlers that core_start registers.
pub data Handler : Type 0 where
  handlemessage handlelistpeers handlestatus handlefiletransferstatus handlefiletransfer : Handler
  handlefiletransferlocal handlefilepartrequest handlemetadata handlefilepart : Handler
  handlerequestfilelist handlerequestfilelistlocal handleaddfile handleaddpeer : Handler
  handlegetpublickey handlesetup : Handler

-- Where the handlers were loaded; a function's address is not NULL, so it is one more than a number.
module _ (before : Handler → ℕ) (config_ptr setupstatus_ptr : ℕ) where
  abbrev pub address : Handler → ℕ
  address h = suc (before h)

  -- The calls at the end of core_start, in a started core.
  unfoldable pub running_listeners : Registry → Registry
  unfolding event_addlistener
  running_listeners reg =
      let r1 = event_addlistener reg message (address handlemessage) 0 in
      let r2 = event_addlistener r1 list_peers (address handlelistpeers) config_ptr in
      let r3 = event_addlistener r2 status (address handlestatus) setupstatus_ptr in
      let r4 = event_addlistener r3 file_transfer_status (address handlefiletransferstatus) 0 in
      let r5 = event_addlistener r4 request_file_transfer (address handlefiletransfer) 0 in
      let r6 =
        event_addlistener r5 request_file_transfer_local (address handlefiletransferlocal) 0 in
      let r7 = event_addlistener r6 request_file_part (address handlefilepartrequest) 0 in
      let r8 = event_addlistener r7 metadata (address handlemetadata) 0 in
      let r9 = event_addlistener r8 file_part (address handlefilepart) 0 in
      let r10 = event_addlistener r9 request_file_list (address handlerequestfilelist) 0 in
      let r11 =
        event_addlistener r10 request_file_list_local (address handlerequestfilelistlocal) 0 in
      let r12 = event_addlistener r11 add_file (address handleaddfile) 0 in
      event_addlistener r12 add_peer (address handleaddpeer) 0

  -- All of them, where the configuration file was there.
  unfoldable pub core_listeners : Registry → Registry
  unfolding event_addlistener running_listeners
  core_listeners reg =
      running_listeners (event_addlistener reg get_public_key (address handlegetpublickey) 0)
