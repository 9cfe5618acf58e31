-- ===== src/Web.antt =====
-- The websocket server, ui/web/server/tapi2p_websocket.c: JSON texts between a browser and the
-- core's socket. `none` is a fault: a read of a NULL or a freed string, a read behind a string, a value
-- freed twice, or a write behind `data_to_send`.
pub mod Queue
pub mod Requests
use tapi2p.Base.{
  ℕ, zero, suc, ◌+◌, ◌-◌, ◌%◌, ◌^◌, ℤ, pos, negsuc, eq_ℤ, Option, none, some, List, [], ◌∷◌, ◌++◌,
  Bool, true, false, not, ◌&&◌, ◌||◌, ltb, ◌==◌, if◌then◌else◌, length, get_elem?, set, codes,
  c_string,
}
use tapi2p.Event.Types.{ipv4_max, Evt, Alloc, message, event_code}
use tapi2p.Event.Wire.{event_new, address_event}
use tapi2p.Handlers.World.{Configs, Jansson, Writer, set_new, to_int32}

-- The statics: `cells` is data_to_send, a NULL being `none`.
pub record Server : Type 0 where
  pub corefd : ℤ
  pub welcome_message_sent : Bool
  pub unsent_data : ℕ
  pub cells : List (Option (List ℕ))

-- What a callback sends: the messages to the browser, and the events to the core.
pub record Out : Type 0 where
  pub to_client : List (List ℕ)
  pub to_core : List Evt

abbrev pub quiet : Out
quiet = record { to_client = []; to_core = [] }

-- (EventType)t_int in the `type` byte, and an int as an unsigned int or an unsigned short.
abbrev pub low_bits : ℕ → ℤ → ℕ
low_bits w (pos n) = n % 2 ^ w
low_bits w (negsuc n) = 2 ^ w - 1 - n % 2 ^ w

abbrev pub connection_failed : List ℕ
connection_failed = codes "Could not connect to tapi2p. Is tapi2p core running?"

-- The loop that sends, with `n` texts left.
unfoldable pub flush : ℕ → List (Option (List ℕ)) → Option (List (List ℕ))
flush zero cells = some []
flush (suc n) cells =
    let rest = flush n cells in
    elim (get_elem? cells n) [
      | none ↦ none
      | some none ↦ none
      | some (some text) ↦ elim rest [ none ↦ none | some texts ↦ some (text ∷ texts) ]
    ]

abbrev pub flushed : Server → Option (List (List ℕ)) → Option (Out × Server)
flushed s none = none
flushed s (some texts) = some (record quiet { to_client = texts }, record s { unsent_data = 0 })

module _ (c : Configs) (j : Jansson) (w : Writer j.Json) where
  open j use {
    Json, loads, is_object, is_string, is_integer, is_null, object_get, string_value, integer_value,
  }
  open w use {object, integer, string, dumps, is_constant}

  -- send_json. json_integer_value is 0 for what is not an integer, NULL included.
  abbrev pub int_of : Option Json → ℤ
  int_of none = pos 0
  int_of (some v) = if is_integer v then to_int32 (integer_value v) else pos 0

  -- What event_new is given as data: NULL for a length of 0 and for JSON's null; `none` where it
  -- reads behind the string and its NUL.
  abbrev pub given_data : Json → ℕ → Option (Option (List ℕ))
  given_data v n =
      if n == 0 || not (is_string v)
      then some none
      else (if ltb (length (string_value v) + 1) n
          then none
          else some (some (string_value v ++ (0 ∷ []))))

  abbrev pub is_some_integer : Option Json → Bool
  is_some_integer none = false
  is_some_integer (some v) = is_integer v

  -- json_decref of an item that is not of the kind asked for. json_object_get has borrowed it from the
  -- object, which frees it again at the end; only the counts of JSON's constants never change.
  abbrev pub is_freed : (Json → Bool) → Option Json → Bool
  is_freed test none = false
  is_freed test (some v) = not (test v) && not (is_constant v)

  -- The end of event_send_simple_to_addr copies IPV4_MAX bytes, more than a shorter address has.
  abbrev pub event_to : Alloc → ℕ → Option Json → Option Json → Option (List ℕ) → Option Evt
  event_to m n none port bytes = some (event_new m message bytes n)
  event_to m n (some ip) none bytes = some (event_new m message bytes n)
  event_to m n (some ip) (some port) bytes =
      let to_addr =
        address_event m message bytes n (string_value ip ++ (0 ∷ []))
          (low_bits 16 (to_int32 (integer_value port))) in
      if is_string ip && is_integer port
      then (if ltb (length (string_value ip) + 1) ipv4_max then none else some to_addr)
      else some (event_new m message bytes n)

  abbrev pub with_type : ℤ → Evt → Evt
  with_type t e = record e { type = low_bits 8 t }

  abbrev pub sent_to_core : Server → ℤ → Option Evt → Option (Out × Server)
  sent_to_core s t none = none
  sent_to_core s t (some e) = some (record quiet { to_core = with_type t e ∷ [] }, s)

  abbrev pub requested :
      Server → ℤ → (Option (List ℕ) → Option Evt) → Option (Option (List ℕ)) → Option (Out × Server)
  requested s t event none = none
  requested s t event (some bytes) = sent_to_core s t (event bytes)

  -- Whether the ends of the function free `ip` or `port` twice.
  abbrev pub frees_twice : Json → Bool
  frees_twice root =
      is_freed is_string (object_get root (codes "ip"))
      || is_freed is_integer (object_get root (codes "port"))

  abbrev pub send_request : Server → Alloc → Json → ℤ → Json → Option (Out × Server)
  send_request s m root t v =
      let n = low_bits 32 (int_of (object_get root (codes "data_len"))) in
      if frees_twice root
      then none
      else (if eq_ℤ t (negsuc 0)
          then some (quiet, record s { welcome_message_sent = false })
          else requested s t
              (event_to m n (object_get root (codes "ip")) (object_get root (codes "port")))
              (given_data v n))

  abbrev pub send_data : Server → Alloc → Json → ℤ → Option Json → Option (Out × Server)
  send_data s m root t none = some (quiet, s)
  send_data s m root t (some v) =
      if not (is_null v) && not (is_string v) then some (quiet, s) else send_request s m root t v

  abbrev pub send_object : Server → Alloc → Option Json → Option (Out × Server)
  send_object s m none = some (quiet, s)
  send_object s m (some root) =
      let cmd = object_get root (codes "cmd") in
      if is_object root && is_some_integer cmd
      then send_data s m root (int_of cmd) (object_get root (codes "data"))
      else some (quiet, s)

  unfoldable pub send_json : Alloc → Server → List ℕ → Option (Out × Server)
  unfolding event_new address_event
  send_json m s text = send_object s m (loads text)

  -- createjsonobject, from the two strings that it makes.
  abbrev pub with_fields : Evt → Option Json → Option Json → Option Json
  with_fields e none addr = none
  with_fields e (some text) none = none
  with_fields e (some text) (some addr) =
      let start =
        set_new w (set_new w object (codes "cmd") (some (integer (pos e.type)))) (codes "port")
          (some (integer (pos e.port))) in
      let with_data : Json = elim (loads (c_string e.body)) [
        | none ↦ set_new w start (codes "data") (some text)
        | some v ↦ set_new w start (codes "data") (some v)
      ] in
      some (set_new w with_data (codes "addr") (some addr))

  unfoldable pub createjsonobject : Evt → Option Json
  createjsonobject e = with_fields e (string (c_string e.body)) (string (c_string e.addr))

  -- coreeventhandler
  abbrev pub queued : Server → Option (List ℕ) → Option Server
  queued s none = some s
  queued s (some text) =
      if ltb s.unsent_data (length s.cells)
      then some (record s {
        cells = set s.cells s.unsent_data (some text);
        unsent_data = s.unsent_data + 1;
      })
      else none

  -- json_dumps of what createjsonobject makes; NULL for each that fails.
  unfoldable pub message_of : Evt → Option (List ℕ)
  unfolding createjsonobject
  message_of e = elim (createjsonobject e) [ none ↦ none | some json ↦ dumps json ]

  unfoldable pub coreeventhandler : Server → Evt → Option Server
  unfolding message_of
  coreeventhandler s e = queued s (message_of e)

  -- The welcome message.
  abbrev pub welcome : List ℕ → Json
  welcome nick =
      set_new w
        (set_new w (set_new w object (codes "cmd") (some (integer (pos (event_code message)))))
          (codes "data") (string (codes "Welcome to tapi2p, ")))
        (codes "own_nick") (string nick)

  abbrev pub welcomed : Server → Option (List ℕ) → Option (Out × Server)
  welcomed s none = none
  welcomed s (some text) =
      some (record quiet { to_client = text ∷ [] }, record s { welcome_message_sent = true })

  abbrev pub welcome_nick : Server → Option (Option (List ℕ)) → Option (Out × Server)
  welcome_nick s none = some (quiet, s)
  welcome_nick s (some none) = some (quiet, s)
  welcome_nick s (some (some nick)) = welcomed s (dumps (welcome nick))

  abbrev pub send_welcome : Server → Option c.Config → Option (Out × Server)
  send_welcome s none = some (quiet, s)
  send_welcome s (some conf) = welcome_nick s (c.find_item conf (codes "Nick") (codes "Account"))

  -- LWS_CALLBACK_SERVER_WRITEABLE; `conf` is what getconfig returns.
  unfoldable pub writeable : Option c.Config → Server → Option (Out × Server)
  unfolding flush
  writeable conf s =
      if eq_ℤ s.corefd (negsuc 0)
      then some (record quiet { to_client = connection_failed ∷ [] }, s)
      else (if not s.welcome_message_sent
          then send_welcome s conf
          else (if ltb 0 s.unsent_data
              then flushed s (flush s.unsent_data s.cells)
              else some (quiet, s)))

  pub data Reason : Type 0 where
    established closed : Reason
    server_writeable : Option c.Config → Reason
    receive : Alloc → List ℕ → Reason

  unfoldable pub tapi2p_callback : Reason → Server → Option (Out × Server)
  unfolding writeable send_json
  tapi2p_callback established s = some (quiet, s)
  tapi2p_callback closed s = some (quiet, s)
  tapi2p_callback (server_writeable conf) s = writeable conf s
  tapi2p_callback (receive m text) s = send_json m s text
