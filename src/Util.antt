-- ===== src/Util.antt =====
-- core/util.c: sockets and their modes. What the system calls answer is an argument, and the
-- descriptors, their modes and the lists of getaddrinfo are the state.
pub mod Outcome
use tapi2p.Base.{
  ℕ, ◌+◌, ◌-◌, ℤ, pos, negsuc, eq_ℤ, ltb_ℤ, Option, none, some, List, [], ◌∷◌, Bool, true, false,
  not, ◌&&◌, if◌then◌else◌, FdSet, fd_set, fd_clr, atoi_u16,
}

-- The open descriptors, those of them with O_NONBLOCK, and how many lists of getaddrinfo there are.
pub record Os : Type 0 where
  pub opened : List ℤ
  pub nonblocking : FdSet
  pub addrinfos : ℕ

-- What select, getsockopt and the error that it reads are for one socket.
pub record Writability : Type 0 where
  pub nfds : ℤ
  pub ready : Bool
  pub sockopt : ℤ
  pub err : ℤ

-- What the calls return. `connect` comes with whether errno is EINPROGRESS.
pub record Calls : Type 0 where
  pub getaddrinfo : List ℕ → List ℕ → ℤ
  pub socket : ℤ
  pub connect : ℤ × Bool
  pub writability : Writability
  pub bind : ℕ → ℤ
  pub listen : ℤ

unfoldable pub set_nonblocking : ℤ → Os → Os
set_nonblocking fd s = record s { nonblocking = fd_set fd s.nonblocking }

unfoldable pub set_blocking : ℤ → Os → Os
set_blocking fd s = record s { nonblocking = fd_clr fd s.nonblocking }

unfoldable pub check_writability : Writability → Bool
check_writability w =
    ltb_ℤ (pos 0) w.nfds && (w.ready && (eq_ℤ w.sockopt (pos 0) && eq_ℤ w.err (pos 0)))

abbrev pub without_fd : ℤ → List ℤ → List ℤ
without_fd fd [] = []
without_fd fd (x ∷ xs) = let rest = without_fd fd xs in if eq_ℤ x fd then xs else x ∷ rest

-- socket, close, and the two ends of a list of getaddrinfo. A new socket is blocking.
abbrev pub open_fd : ℤ → Os → Os
open_fd fd s = record s { opened = fd ∷ s.opened; nonblocking = fd_clr fd s.nonblocking }

abbrev pub close : ℤ → Os → Os
close fd s = record s { opened = without_fd fd s.opened }

abbrev pub with_addrinfo : Os → Os
with_addrinfo s = record s { addrinfos = s.addrinfos + 1 }

abbrev pub freeaddrinfo : Os → Os
freeaddrinfo s = record s { addrinfos = s.addrinfos - 1 }

-- What is left to do after `socket`, with an address: `fd` is its descriptor.
abbrev pub connect_to : Calls → ℤ → Os → ℤ × Os
connect_to k fd s =
    let s1 = set_nonblocking fd s in
    if ltb_ℤ k.connect.0 (pos 0) && not k.connect.1
    then (negsuc 0, close fd (freeaddrinfo s1))
    else (if not (check_writability k.writability)
        then (negsuc 0, close fd (freeaddrinfo s1))
        else (fd, freeaddrinfo (set_blocking fd s1)))

-- Without an address there is no list of getaddrinfo.
abbrev pub listen_on : Calls → List ℕ → ℤ → Os → ℤ × Os
listen_on k port fd s =
    if not (eq_ℤ (k.bind (atoi_u16 port)) (pos 0))
    then (negsuc 0, close fd s)
    else (if not (eq_ℤ k.listen (pos 0)) then (negsuc 0, close fd s) else (fd, s))

-- After `socket`: NULL for a missing address or port.
abbrev pub use_socket : Calls → Option (List ℕ) → Option (List ℕ) → ℤ → Os → ℤ × Os
use_socket k addr none fd s = (negsuc 0, close fd s)
use_socket k (some addr) (some port) fd s = connect_to k fd s
use_socket k none (some port) fd s = listen_on k port fd s

abbrev pub make_socket : Calls → Option (List ℕ) → Option (List ℕ) → Os → ℤ × Os
make_socket k addr port s =
    if ltb_ℤ k.socket (pos 0)
    then (k.socket, s)
    else use_socket k addr port k.socket (open_fd k.socket s)

unfoldable pub new_socket : Calls → Option (List ℕ) → Option (List ℕ) → Os → ℤ × Os
unfolding set_nonblocking set_blocking check_writability atoi_u16
new_socket k none port s = make_socket k none port s
new_socket k (some addr) none s = make_socket k (some addr) none s
new_socket k (some addr) (some port) s =
    if not (eq_ℤ (k.getaddrinfo addr port) (pos 0))
    then (negsuc 0, s)
    else make_socket k (some addr) (some port) (with_addrinfo s)
