-- ===== src/Event/Wire.antt =====
-- Making, sending and receiving events: event_new, event_send* and event_recv of core/event.c.
-- What a socket's send and recv return is an argument: `send` of the bytes, or a `Stream`.
pub mod RoundTrip
use tapi2p.Base.{
  ℕ, suc, ◌+◌, ℤ, pos, negsuc, ltb_ℤ, Option, none, some, List, [], ◌∷◌, ◌++◌, Bool, true, false,
  ltb, min, ◌^◌, ◌==◌, if◌then◌else◌, take, drop, length, replicate, to_le, of_le,
}
use tapi2p.Event.Types.{EventType, event_code, ipv4_max, Evt, evt_size, Alloc}
use tapi2p.Event.Callbacks.{Slot, Registry, event_run_callbacks}

-- `data` is the memory from the pointer on, or NULL. Without data the memory behind the struct
-- stays as malloc found it.
unfoldable pub event_new : Alloc → EventType → Option (List ℕ) → ℕ → Evt
event_new m t none n = record {
  type = event_code t;
  fd_from = m.leftover;
  addr = replicate ipv4_max 0;
  port = 0;
  data_len = n;
  data_ptr = 0;
  body = take n m.garbage;
}
event_new m t (some bytes) n = record {
  type = event_code t;
  fd_from = m.leftover;
  addr = replicate ipv4_max 0;
  port = 0;
  data_len = n;
  data_ptr = m.address + evt_size;
  body = take n bytes;
}

-- The packed struct: type, fd_from, addr, port, data_len and the pointer.
abbrev pub header_bytes : Evt → List ℕ
header_bytes e =
    to_le 1 e.type
    ++ (to_le 4 e.fd_from
        ++ (e.addr ++ (to_le 2 e.port ++ (to_le 4 e.data_len ++ to_le 8 e.data_ptr))))

-- The sizeof(evt_t) + data_len bytes that send is given.
abbrev pub wire : Evt → List ℕ
wire e = header_bytes e ++ take e.data_len e.body

unfoldable pub event_send : (List ℕ → ℤ) → Evt → ℤ
event_send send e = let b = send (wire e) in if ltb_ℤ b (pos 0) then negsuc 0 else b

unfoldable pub event_send_simple : (List ℕ → ℤ) → Alloc → EventType → Option (List ℕ) → ℕ → ℤ
unfolding event_new event_send
event_send_simple send m t bytes n = event_send send (event_new m t bytes n)

-- memcpy of IPV4_MAX bytes from `addr`, the memory from that pointer on.
unfoldable pub address_event : Alloc → EventType → Option (List ℕ) → ℕ → List ℕ → ℕ → Evt
unfolding event_new
address_event m t bytes n addr port = record (event_new m t bytes n) {
  addr = take ipv4_max addr;
  port = port;
}

unfoldable pub event_send_simple_to_addr :
    (List ℕ → ℤ) → Alloc → EventType → Option (List ℕ) → ℕ → List ℕ → ℕ → ℤ
unfolding address_event event_send
event_send_simple_to_addr send m t bytes n addr port =
    event_send send (address_event m t bytes n addr port)

-- The bytes that have come in on a socket, the most of them that one call of recv gives, and whether
-- recv fails (rather than returns 0) after the last.
pub record Stream : Type 0 where
  pub at_once : ℕ
  pub bytes : List ℕ
  pub fails : Bool

-- recv of at most `n` bytes, 0 < n: the count that it returns, what it wrote, and the rest.
unfoldable pub recv : ℕ → Stream → ℤ × List ℕ × Stream
recv n s = elim s.bytes [
  | [] ↦ (if s.fails then negsuc 0 else pos 0, [], s)
  | b ∷ bs ↦
      let k = min n s.at_once in
      let got = take k (b ∷ bs) in (pos (length got), got, record s { bytes = drop k (b ∷ bs) })
]

-- The struct read out of its bytes, field after field.
unfoldable pub read_header : List ℕ → Evt
read_header h0 =
    let h1 = drop 1 h0 in
    let h2 = drop 4 h1 in
    let h3 = drop ipv4_max h2 in
    let h4 = drop 2 h3 in
    let h5 = drop 4 h4 in
    record {
      type = of_le (take 1 h0);
      fd_from = of_le (take 4 h1);
      addr = take ipv4_max h2;
      port = of_le (take 2 h3);
      data_len = of_le (take 4 h4);
      data_ptr = of_le (take 8 h5);
      body = [];
    }

-- How event_recv ends: with the event and the calls that it made, with NULL and a status, with the
-- process stopped (exit, or the assert), or by a read outside the callback table.
pub data Received : Type 0 where
  received : Evt → List Slot → Received
  refused : ℤ → Received
  stopped : Received
  fault : Received

abbrev pub delivered : Registry → Evt → Received
delivered reg e = elim (event_run_callbacks reg e.type) [
  | none ↦ fault
  | some calls ↦ received e calls
]

-- The second recv, for the data: a short read trips the assert, and a count that is no int is
-- negative when it is stored in one.
unfoldable pub recv_body : Registry → Evt → ℤ × List ℕ × Stream → Received × Stream
recv_body reg e (negsuc b, got, s) = (refused (negsuc 1), s)
recv_body reg e (pos b, got, s) =
    if ltb b (2 ^ 31)
    then (if b == e.data_len
        then (delivered reg (record e { body = got ++ (0 ∷ []) }), s)
        else (stopped, s))
    else (refused (negsuc 1), s)

-- What follows a complete header.
unfoldable pub recv_rest : Registry → Alloc → Evt → Stream → Received × Stream
unfolding recv_body recv
recv_rest reg m e s =
    if ltb 0 e.data_len
    then recv_body reg e (recv e.data_len s)
    else (delivered reg (record e { body = take 1 m.garbage }), s)

unfoldable pub recv_header : Registry → ℕ → Alloc → ℤ × List ℕ × Stream → Received × Stream
unfolding recv_rest read_header
recv_header reg fd m (negsuc b, got, s) = (stopped, s)
recv_header reg fd m (pos b, got, s) =
    if b == evt_size
    then recv_rest reg m
        (record (read_header got) { data_ptr = m.address + evt_size; fd_from = fd }) s
    else if b == 0
    then (refused (pos 1), s)
    else (refused (negsuc 0), s)

unfoldable pub event_recv : Registry → ℕ → Alloc → Stream → Received × Stream
unfolding recv_header recv
event_recv reg fd m s = recv_header reg fd m (recv evt_size s)
