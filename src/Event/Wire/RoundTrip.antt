-- ===== src/Event/Wire/RoundTrip.antt =====
-- What is sent arrives: event_recv reads back the events that event_send_simple_to_addr writes.
use tapi2p.Base.{
  ℕ, ◌+◌, ◌<◌, ◌^◌, ◌≡◌, ap, ◌∙◌, List, [], ◌∷◌, ◌++◌, take, length, length-append, to_le,
  of_le-to_le, take-append_of_length, drop-append_of_length, arith, ltb, if◌then◌else◌,
}
use mathlib.Core.List.{append_assoc}
use tapi2p.Event.Types.{ipv4_max, Evt, evt_size, Alloc}
use tapi2p.Event.Wire.{header_bytes, read_header}

-- The fields fit their widths, and the address fills its array.
pub record Fits (e : Evt) : Type 0 where
  pub type_fits : e.type < 256
  pub fd_fits : e.fd_from < 256 ^ 4
  pub addr_full : length e.addr ≡ ipv4_max
  pub port_fits : e.port < 256 ^ 2
  pub len_fits : e.data_len < 256 ^ 4
  pub ptr_fits : e.data_ptr < 256 ^ 8

-- Bytes behind the struct do not matter.
read_header-append_flat :
    (e : Evt) (tail : List ℕ)
    → Fits e
    → read_header (
        to_le 1 e.type
        ++ (to_le 4 e.fd_from
            ++ (e.addr
                ++ (to_le 2 e.port ++ (to_le 4 e.data_len ++ (to_le 8 e.data_ptr ++ tail))))))
      ≡ record e { body = [] }
unfolding read_header
read_header-append_flat e tail f =
    rw
      (
        take-append_of_length ipv4_max e.addr _ f.addr_full,
        drop-append_of_length ipv4_max e.addr _ f.addr_full,
      )
      λ i. record {
        type = of_le-to_le 1 e.type f.type_fits i;
        fd_from = of_le-to_le 4 e.fd_from f.fd_fits i;
        addr = e.addr;
        port = of_le-to_le 2 e.port f.port_fits i;
        data_len = of_le-to_le 4 e.data_len f.len_fits i;
        data_ptr = of_le-to_le 8 e.data_ptr f.ptr_fits i;
        body = [];
      }

pub read_header-append :
    (e : Evt) (tail : List ℕ)
    → Fits e
    → read_header (header_bytes e ++ tail) ≡ record e { body = [] }
read_header-append e tail f =
    ap (λ (bs : List ℕ). read_header (to_le 1 e.type ++ (to_le 4 e.fd_from ++ bs)))
      (append_assoc e.addr (to_le 2 e.port ++ (to_le 4 e.data_len ++ to_le 8 e.data_ptr)) tail)
    ∙ read_header-append_flat e tail f

pub length-header_bytes : (e : Evt) → length e.addr ≡ ipv4_max → length (header_bytes e) ≡ evt_size
length-header_bytes e h =
    omega
      (arith, length-append e.addr (to_le 2 e.port ++ (to_le 4 e.data_len ++ to_le 8 e.data_ptr)))

-- The event as event_recv hands it on: from the descriptor `fd`, at the new address, with a NUL
-- behind its data.
abbrev pub arrived : ℕ → Alloc → Evt → Evt
arrived fd m e = record e {
  fd_from = fd;
  data_ptr = m.address + evt_size;
  body = if ltb 0 e.data_len then e.body ++ (0 ∷ []) else take 1 m.garbage;
}
