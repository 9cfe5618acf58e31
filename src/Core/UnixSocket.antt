-- ===== src/Core/UnixSocket.antt =====
-- The core's unix socket in core/core.c: create_core_socket and pipe_accept, and core_socket, by which
-- the user interfaces connect to it. What the system calls answer is an argument; `none` is FD_SET of
-- a negative descriptor or a fault of pipe_add.
pub mod Laws
use tapi2p.Base.{
  ℕ, ℤ, pos, negsuc, eq_ℤ, ltb_ℤ, leb_ℤ, Option, none, some, List, [], ◌∷◌, Bool, true, false, not,
  ◌&&◌, if◌then◌else◌,
}
use tapi2p.Pipes.{Pipes, pipe_add}
use tapi2p.Util.{Os, Writability, open_fd, set_nonblocking, set_blocking, check_writability}

-- The descriptors, and the static core_socket_fd.
pub record Unix : Type 0 where
  pub os : Os
  pub core_socket_fd : ℤ

pub record UnixCalls : Type 0 where
  pub socket : ℤ
  pub bind : ℤ
  pub listen : ℤ
  pub connect : ℤ
  pub writability : Writability

-- After a socket was made. Its descriptor stays open where bind or listen fails.
abbrev pub bind_and_listen : UnixCalls → Unix → ℤ × Unix
bind_and_listen k s =
    let s1 = record s { os = open_fd k.socket s.os } in
    if eq_ℤ k.bind (negsuc 0)
    then (negsuc 0, s1)
    else (if eq_ℤ k.listen (negsuc 0)
        then (negsuc 0, s1)
        else (k.socket, record s1 { core_socket_fd = k.socket }))

unfoldable pub create_core_socket : UnixCalls → Unix → ℤ × Unix
create_core_socket k s =
    if eq_ℤ s.core_socket_fd (negsuc 0)
    then (if leb_ℤ k.socket (pos 0) then (negsuc 0, s) else bind_and_listen k s)
    else (s.core_socket_fd, s)

-- core_socket. Every errno of connect differs from EINPROGRESS or from EALREADY, so each failure ends
-- it; the descriptor then stays open.
abbrev pub connect_unix : UnixCalls → Os → ℤ × Os
connect_unix k s =
    let s1 = set_nonblocking k.socket (open_fd k.socket s) in
    if not (eq_ℤ k.connect (pos 0))
    then (negsuc 0, s1)
    else (if not (check_writability k.writability)
        then (negsuc 0, s1)
        else (k.socket, set_blocking k.socket s1))

unfoldable pub core_socket : UnixCalls → Os → ℤ × Os
unfolding set_nonblocking set_blocking check_writability
core_socket k s = if leb_ℤ k.socket (pos 0) then (negsuc 0, s) else connect_unix k s

-- What select leaves for the core's socket, and what accept returns.
pub record Waiting : Type 0 where
  pub nfds : ℤ
  pub ready : Bool
  pub accepted : ℤ

abbrev pub with_pipes : Unix → Option Pipes → Option (Unix × Pipes)
with_pipes s none = none
with_pipes s (some p) = some (s, p)

abbrev pub accept_pipe : Waiting → Unix → Pipes → Option (Unix × Pipes)
accept_pipe w s p =
    let added = with_pipes s (pipe_add p w.accepted) in
    if ltb_ℤ (pos 0) w.nfds && (w.ready && ltb_ℤ (pos 0) w.accepted) then added else some (s, p)

-- pipe_accept, whose first call of create_core_socket may make the socket.
abbrev pub accept_at : Waiting → Pipes → ℤ × Unix → Option (Unix × Pipes)
accept_at w p (fd, s) = if ltb_ℤ fd (pos 0) then none else accept_pipe w s p

unfoldable pub pipe_accept : UnixCalls → Waiting → Unix → Pipes → Option (Unix × Pipes)
unfolding create_core_socket pipe_add
pipe_accept k w s p = accept_at w p (create_core_socket k s)
