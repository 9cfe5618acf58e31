-- ===== src/Cli.antt =====
-- ui/cli/cli.c: the command line client. What getopt_long returns is a list of options, `argv` the
-- array as getopt_long has left it; jansson and dtgconf are arguments.
pub mod ImportKey
pub mod Main
pub mod AddingPeers
pub mod SettingUp
use tapi2p.Base.{
  ℕ, ◌+◌, ◌-◌, ◌*◌, ◌%◌, ◌^◌, ℤ, pos, negsuc, ltb_ℤ, leb_ℤ, Option, none, some, List, [], ◌∷◌, ◌++◌,
  Bool, true, false, ◌||◌, ltb, leb, ◌==◌, if◌then◌else◌, take, drop, length, get_elem?, codes,
  bytes_eq, c_string, digits_value, skip_spaces, atoi_u16,
}
use tapi2p.Event.Types.{
  EventType, Alloc, Evt, add_file, file_transfer_status, list_peers, message,
  request_file_list_local, request_file_transfer_local, setup, status,
}
use tapi2p.Event.Callbacks.{Slot, Registry, initial, event_addlistener}
use tapi2p.Event.Wire.{
  Stream, Received, received, refused, stopped, fault, wire, event_new, address_event, event_recv,
}
use tapi2p.Handlers.World.{Configs, Writer, set_new}
use tapi2p.Cli.ImportKey.{Keys, Imported, KeyFile, import_key, stored, quit, faulty}

-- enum usages
pub data Usage : Type 0 where
  usage_add_peer usage_setup usage_help : Usage

-- The labels of the switch on the option's letter, as getopt_long returns it.
pub data Letter : Type 0 where
  opt_a opt_p opt_upper_s opt_n opt_h opt_l opt_upper_l opt_m opt_f opt_s opt_d opt_i : Letter
  opt_upper_f opt_unknown : Letter

-- An option; `arg` is optarg, and for `?` the one byte of optopt.
pub record Given : Type 0 where
  pub letter : Letter
  pub arg : List ℕ

-- What main does that others see: a help page or a text on stdout, the bytes given to send on a
-- connected socket, and the file of an imported key.
pub data Act : Type 0 where
  showed : Usage → Act
  printed : List ℕ → Act
  sent : List ℕ → Act
  wrote : KeyFile → Act

-- How main ends: by a return, by an exit or an assert below it, or by an access through NULL or
-- outside an object.
pub data Exit : Type 0 where
  returned : ℤ → Exit
  exited : Exit
  crashed : Exit

-- add_peer_args and setup_args; `none` is NULL.
pub record Args : Type 0 where
  pub peer_ip : Option (List ℕ)
  pub peer_port : Option (List ℕ)
  pub peer_nick : Option (List ℕ)
  pub nick : Option (List ℕ)
  pub port : Option (List ℕ)

abbrev pub no_args : Args
no_args = record { peer_ip = none; peer_port = none; peer_nick = none; nick = none; port = none }

-- What the run meets: what socket returns and whether connect fails, the bytes that come in on the
-- connection, the memory that malloc gives, argv and the memory behind its strings, the own public
-- key if it loads, and what importing a key meets.
pub record Setting : Type 0 where
  pub socket_fd : ℤ
  pub connect_fails : Bool
  pub incoming : Stream
  pub malloc : Alloc
  pub argv : List (List ℕ)
  pub behind_argv : List ℕ
  pub own_key : Option (List ℕ)
  pub keys : Keys

-- core_socket
unfoldable pub core_socket : ℤ → Bool → ℤ
core_socket fd connect_fails =
    if leb_ℤ fd (pos 0) then negsuc 0 else (if connect_fails then negsuc 0 else fd)

-- The digits of a number, after spaces and a sign, as atoll reads them; the value fits.
abbrev pub signed64 : List ℕ → ℤ
signed64 [] = pos 0
signed64 (c ∷ cs) =
    let below = digits_value 0 cs in
    if c == b'-'
    then (if below == 0 then pos 0 else negsuc (below - 1))
    else if c == b'+'
    then pos below
    else pos (digits_value 0 (c ∷ cs))

unfoldable pub atoll : List ℕ → ℤ
unfolding digits_value skip_spaces
atoll t = signed64 (skip_spaces t)

-- The memory from the string argv[k] on.
abbrev pub joined_args : List (List ℕ) → List ℕ → List ℕ
joined_args [] behind = behind
joined_args (x ∷ xs) behind = x ++ (0 ∷ joined_args xs behind)

abbrev pub arg_memory : Setting → ℕ → List ℕ
arg_memory e k = joined_args (drop k e.argv) e.behind_argv

abbrev pub argc : Setting → ℕ
argc e = length e.argv

-- handlelistpeers
unfoldable pub handlelistpeers : Evt → List Act
handlelistpeers e = printed (take e.data_len e.body) ∷ printed (10 ∷ []) ∷ []

-- pipe_event_addlistener(ListPeers, handlelistpeers, NULL); the function's address is not NULL.
unfoldable pub listeners : Registry
unfolding event_addlistener
listeners = event_addlistener initial list_peers 1 0

-- The callbacks that event_recv runs.
abbrev pub called : Evt → List Slot → List Act
called e [] = []
called e (c ∷ cs) = handlelistpeers e ++ called e cs

abbrev pub Ending : Type 0
Ending = List Act × Exit

-- send on the socket; a negative descriptor gets nothing.
abbrev pub sent_on : ℤ → List ℕ → List Act
sent_on fd bytes = if ltb_ℤ fd (pos 0) then [] else sent bytes ∷ []

abbrev pub after : List Act → Ending → Ending
after acts (more, e) = (acts ++ more, e)

-- What recv finds on the socket.
abbrev pub stream_of : Setting → ℤ → Stream
stream_of e fd =
    if ltb_ℤ fd (pos 0) then record { bytes = []; fails = true; at_once = 1 } else e.incoming

-- event_recv on the socket, then `next` with what is left, or `null` for NULL.
abbrev pub received_then : (Evt → Stream → Ending) → (Stream → Ending) → Received × Stream → Ending
received_then next null (received e cs, rest) = after (called e cs) (next e rest)
received_then next null (refused r, rest) = null rest
received_then next null (stopped, rest) = ([], exited)
received_then next null (fault, rest) = ([], crashed)

unfoldable pub await : Setting → Stream → (Evt → Stream → Ending) → (Stream → Ending) → Ending
unfolding event_recv handlelistpeers
await e s next null = received_then next null (event_recv listeners 0 e.malloc s)

-- printf("%s\n", e->data)
abbrev pub print_data : Evt → List Act
print_data e = printed (c_string e.body ++ (10 ∷ [])) ∷ []

-- event_send_simple
abbrev pub event_bytes : Setting → EventType → Option (List ℕ) → ℕ → List ℕ
event_bytes e t bytes n = wire (event_new e.malloc t bytes n)

abbrev pub send_simple : Setting → ℤ → EventType → Option (List ℕ) → ℕ → List Act
send_simple e fd t bytes n = sent_on fd (event_bytes e t bytes n)

-- event_send_simple_to_addr, the address as memory from argv[2] on.
abbrev pub send_to_arg : Setting → ℤ → EventType → Option (List ℕ) → ℕ → ℕ → List Act
send_to_arg e fd t bytes n port =
    sent_on fd (wire (address_event e.malloc t bytes n (arg_memory e 2) port))

abbrev pub fd_of : Setting → ℤ
fd_of e = core_socket e.socket_fd e.connect_fails
