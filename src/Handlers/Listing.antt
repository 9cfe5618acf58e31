-- ===== src/Handlers/Listing.antt =====
-- The handlers of core/handlers.c that answer with JSON or pass a request on. An answer is the event
-- that goes back on `fd_from`; `none` is a fault: a NULL text of json_dumps that is measured, or a
-- fault of the peer table.
pub mod Laws
use tapi2p.Base.{
  ℕ, zero, suc, ◌+◌, min, ℤ, pos, ltb_ℤ, Option, none, some, List, [], ◌∷◌, Bool, true, false, not,
  ◌&&◌, ◌||◌, ltb, ◌==◌, if◌then◌else◌, length, take, get_elem?, codes, c_string,
}
use tapi2p.Event.Types.{
  Evt, Alloc, message, file_list, event_code, request_file_list, request_file_transfer,
}
use tapi2p.Event.Wire.{event_new}
use tapi2p.FileTransfers.{Transfers, FtStatus, filetransfer_get_statuses}
use tapi2p.Peer.Types.{Peer}
use tapi2p.Peers.Table.{Manager, peer_exists_simple}
use tapi2p.Peers.ForEach.{for_each_peer}
use tapi2p.Handlers.World.{Configs, Jansson, Writer, set_new}
use tapi2p.Core.Sending.{Selected, Sent, send_event_to_peer_internal}

-- pipe_event_send_back_to_caller: the event that is sent on `fd_from`.
unfoldable pub pipe_event_send_back_to_caller : Alloc → Evt → Option (List ℕ) → ℕ → Evt
unfolding event_new
pipe_event_send_back_to_caller m e bytes n = record (event_new m message bytes n) { type = e.type }

abbrev pub answer : Alloc → Evt → Option (List ℕ) → Option Evt
answer m e none = none
answer m e (some text) = some (pipe_event_send_back_to_caller m e (some text) (length text))

module _ (c : Configs) (j : Jansson) (w : Writer j.Json) (conf : c.Config) where
  open j use {Json, loads, is_object, is_array, is_string, object_get, elements, string_value}
  open c use {find_item, find_section}
  open w use {object, array, integer, string, boolean, array_append, dumps}

  abbrev pub array_of : List Json → Json → Json
  array_of [] a = a
  array_of (v ∷ vs) a = array_of vs (array_append a v)

  -- handlelistpeers
  abbrev pub conn_status : Peer → List ℕ
  conn_status p =
      if not p.key_ok
      then codes "invalid"
      else (if not (p.connectable && ltb_ℤ (pos 0) p.isock) then codes "oneway" else codes "ok")

  abbrev pub with_peer_nick : Json → Option (Option (List ℕ)) → Json
  with_peer_nick o none = o
  with_peer_nick o (some none) = o
  with_peer_nick o (some (some nick)) = set_new w o (codes "nick") (string nick)

  abbrev pub peer_object : Peer → Json
  peer_object p =
      set_new w
        (set_new w
          (set_new w (with_peer_nick object (find_item conf (codes "Nick") p.addr)) (codes "addr")
            (string p.addr))
          (codes "port") (some (integer (pos p.port))))
        (codes "conn_status") (string (conn_status p))

  abbrev pub peers_text : List Json → Option (List ℕ)
  peers_text objs = dumps (set_new w object (codes "peers") (some (array_of objs array)))

  abbrev pub peers_listed : Alloc → Evt → Option (List Json × Manager) → Option (Evt × Manager)
  peers_listed m e none = none
  peers_listed m e (some (objs, table)) = elim (answer m e (peers_text objs)) [
    | none ↦ none
    | some reply ↦ some (reply, table)
  ]

  unfoldable pub handlelistpeers : Alloc → ℕ → Manager → Evt → Option (Evt × Manager)
  unfolding for_each_peer pipe_event_send_back_to_caller
  handlelistpeers m fuel table e =
      peers_listed m e (for_each_peer (λ i p. some (peer_object p ∷ [])) fuel table)

  -- get_file_list_as_json: json_string of NULL is NULL.
  abbrev pub string_or_null : Option (List ℕ) → Option Json
  string_or_null none = none
  string_or_null (some t) = string t

  abbrev pub file_object : List ℕ × Option (List ℕ) → Json
  file_object item =
      set_new w (set_new w object (codes "filename") (string item.0)) (codes "hash")
        (string_or_null item.1)

  abbrev pub file_objects : List (List ℕ × Option (List ℕ)) → List Json
  file_objects [] = []
  file_objects (x ∷ xs) = file_object x ∷ file_objects xs

  abbrev pub files_of : Option (List (List ℕ × Option (List ℕ))) → Json
  files_of none = array
  files_of (some items) = array_of (file_objects items) array

  unfoldable pub get_file_list_as_json : Json
  get_file_list_as_json =
      set_new w object (codes "files") (some (files_of (find_section conf (codes "Metadata"))))

  -- handleaddfile: the loop ends at the first element that is not a string.
  abbrev pub add_files : c.Config → List Json → Bool × c.Config
  add_files k [] = (false, k)
  add_files k (v ∷ vs) =
      let rest = add_files (c.add k (codes "Metadata") (string_value v) none) vs in
      if is_string v then (true, rest.1) else (false, k)

  -- The configuration in memory, and what has been saved, the last one first.
  abbrev pub add_array : c.Config → List c.Config → Option Json → c.Config × List c.Config
  add_array k saved none = (k, saved)
  add_array k saved (some files) =
      let (modified, k') = add_files k (elements files) in
      if is_array files then (if modified then (k', k' ∷ saved) else (k, saved)) else (k, saved)

  abbrev pub add_root : c.Config → List c.Config → Option Json → c.Config × List c.Config
  add_root k saved none = (k, saved)
  add_root k saved (some root) =
      if is_object root then add_array k saved (object_get root (codes "files")) else (k, saved)

  unfoldable pub handleaddfile : c.Config → List c.Config → Evt → c.Config × List c.Config
  handleaddfile k saved e = add_root k saved (loads (c_string e.body))

  -- handlestatus
  unfoldable pub handlestatus : Alloc → Bool → Evt → Option Evt
  unfolding pipe_event_send_back_to_caller
  handlestatus m status e =
      answer m e (dumps (set_new w object (codes "status") (some (boolean status))))

  -- handlefiletransferstatus
  abbrev pub status_object : FtStatus → Json
  status_object s =
      set_new w
        (set_new w
          (set_new w (set_new w object (codes "sha") (string_or_null s.sha_str)) (codes "partCount")
            (some (integer (pos s.part_count))))
          (codes "partsReady") (some (integer (pos s.parts_ready))))
        (codes "fileSize") (some (integer (pos s.file_size)))

  -- A status that was not copied is not initialised.
  abbrev pub status_objects : List (Option FtStatus) → Option (List Json)
  status_objects [] = some []
  status_objects (none ∷ ss) = none
  status_objects (some s ∷ ss) = elim (status_objects ss) [
    | none ↦ none
    | some objs ↦ some (status_object s ∷ objs)
  ]

  abbrev pub statuses_answer : Alloc → Evt → Option (List Json) → Option Evt
  statuses_answer m e none = none
  statuses_answer m e (some objs) =
      answer m e (dumps (set_new w object (codes "statuses") (some (array_of objs array))))

  abbrev pub statuses_of : Option (List (Option FtStatus)) → Option (List Json)
  statuses_of none = none
  statuses_of (some ss) = status_objects ss

  unfoldable pub handlefiletransferstatus : Alloc → Transfers → Evt → Option Evt
  unfolding filetransfer_get_statuses pipe_event_send_back_to_caller
  handlefiletransferstatus m ts e =
      statuses_answer m e (statuses_of (filetransfer_get_statuses ts).1)

  -- What follows peer_exists_simple in the handlers that pass a request on.
  module _ (seal : Peer → List ℕ → Option (List ℕ)) (sel : Selected) where
    abbrev pub sent_at : Manager → Evt → Option Peer → Option (List Sent × Manager)
    sent_at m e none = none
    sent_at m e (some p) = elim (send_event_to_peer_internal seal sel p e) [
      | none ↦ none
      | some xs ↦ some (xs, m)
    ]

    abbrev pub send_if_found : Evt → Option (Option ℕ × Manager) → Option (List Sent × Manager)
    send_if_found e none = none
    send_if_found e (some (none, m)) = some ([], m)
    send_if_found e (some (some k, m)) = sent_at m e (get_elem? m.peers k)

    -- handlefiletransferlocal: `was`, `bio` and `grows` are for the peer that the lookup makes.
    unfoldable pub handlefiletransferlocal :
        Peer → ℕ → Bool → Manager → Evt → Option (List Sent × Manager)
    unfolding peer_exists_simple send_event_to_peer_internal
    handlefiletransferlocal was bio grows m e =
        send_if_found (record e { type = event_code request_file_transfer })
          (peer_exists_simple was bio grows m (some (c_string e.addr)) e.port)

    -- handlerequestfilelistlocal: `e->addr` is an array, so only the port tells a request for the own files.
    abbrev pub own_files :
        Alloc → Evt → Option (Option ℕ × Manager) → Option (List Sent × Option Evt × Manager)
    own_files a e none = none
    own_files a e (some (some k, m)) =
        elim (sent_at m (record e { type = event_code request_file_list }) (get_elem? m.peers k)) [
          | none ↦ none
          | some (xs, m') ↦ some (xs, none, m')
        ]
    own_files a e (some (none, m)) =
        if not (e.port == 0)
        then some ([], none, m)
        else (elim (answer a e (dumps get_file_list_as_json)) [
          | none ↦ none
          | some reply ↦ some ([], some reply, m)
        ])

    unfoldable pub handlerequestfilelistlocal :
        Peer → ℕ → Bool → Alloc → Manager → Evt → Option (List Sent × Option Evt × Manager)
    unfolding peer_exists_simple get_file_list_as_json send_event_to_peer_internal
        pipe_event_send_back_to_caller
    handlerequestfilelistlocal was bio grows a m e =
        own_files a e (peer_exists_simple was bio grows m (some (c_string e.addr)) e.port)

    -- handlerequestfilelist
    abbrev pub list_for :
        Alloc → Option (Option ℕ × Manager) → Option (List ℕ) → Option (List Sent × Manager)
    list_for a found none = none
    list_for a found (some text) =
        send_if_found (event_new a file_list (some text) (length text)) found

    unfoldable pub handlerequestfilelist :
        Peer → ℕ → Bool → Alloc → Manager → Evt → Option (List Sent × Manager)
    unfolding peer_exists_simple get_file_list_as_json send_event_to_peer_internal event_new
    handlerequestfilelist was bio grows a m e = elim (dumps get_file_list_as_json) [
      | none ↦ elim (peer_exists_simple was bio grows m (some (c_string e.addr)) e.port) [
        | none ↦ none
        | some (none, m') ↦ some ([], m')
        | some (some k, m') ↦ none
      ]
      | some text ↦
          list_for a (peer_exists_simple was bio grows m (some (c_string e.addr)) e.port)
            (some text)
    ]

-- handlefilepartlistrequest, which asserts that the peer is in the table.
unfoldable pub handlefilepartlistrequest : Peer → ℕ → Bool → Manager → Evt → Option Manager
unfolding peer_exists_simple
handlefilepartlistrequest was bio grows m e =
    elim (peer_exists_simple was bio grows m (some (c_string e.addr)) e.port) [
      | none ↦ none
      | some (none, m') ↦ none
      | some (some k, m') ↦ some m'
    ]

-- handlegetpublickey, by the text of the own key, if it loads.
unfoldable pub handlegetpublickey : Alloc → Option (List ℕ) → Evt → Option Evt
unfolding pipe_event_send_back_to_caller
handlegetpublickey m none e = none
handlegetpublickey m (some text) e =
    some (pipe_event_send_back_to_caller m e (some text) (min (length text) 800))
