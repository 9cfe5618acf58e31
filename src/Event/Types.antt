-- ===== src/Event/Types.antt =====
-- The enum EventType and the packed structs evt_t and pipeevt_t of core/event.h.
use tapi2p.Base.{ℕ, List}

-- enum EventType, without the count that ends it.
pub data EventType : Type 0 where
  add_file add_peer file_list file_part file_part_list : EventType
  file_transfer_status get_public_key list_peers message metadata : EventType
  peer_connected peer_disconnected request_file_list request_file_list_local : EventType
  request_file_part request_file_part_list request_file_transfer : EventType
  request_file_transfer_local setup status : EventType

-- The value of the enumerator, as it stands in the `type` byte.
abbrev pub event_code : EventType → ℕ
event_code add_file = 0
event_code add_peer = 1
event_code file_list = 2
event_code file_part = 3
event_code file_part_list = 4
event_code file_transfer_status = 5
event_code get_public_key = 6
event_code list_peers = 7
event_code message = 8
event_code metadata = 9
event_code peer_connected = 10
event_code peer_disconnected = 11
event_code request_file_list = 12
event_code request_file_list_local = 13
event_code request_file_part = 14
event_code request_file_part_list = 15
event_code request_file_transfer = 16
event_code request_file_transfer_local = 17
event_code setup = 18
event_code status = 19

-- EventCount
abbrev pub event_count : ℕ
event_count = 20

abbrev pub ipv4_max : ℕ
ipv4_max = 16

-- evt_t and pipeevt_t, which differ in the name of `fd_from` only. `body` is the memory behind the
-- struct, in the same allocation; `data_ptr` is the address that the pointer holds. Addresses and
-- integers are bit patterns: `fd_from` is read as unsigned.
pub record Evt : Type 0 where
  pub type : ℕ
  pub fd_from : ℕ
  pub addr : List ℕ
  pub port : ℕ
  pub data_len : ℕ
  pub data_ptr : ℕ
  pub body : List ℕ

-- sizeof(evt_t), packed.
abbrev pub evt_size : ℕ
evt_size = 35

-- What malloc leaves open: the address, and what its memory held.
pub record Alloc : Type 0 where
  pub address : ℕ
  pub leftover : ℕ
  pub garbage : List ℕ
