-- ===== src/Peers/Sockets.antt =====
-- The read and write sets of core/peermanager.c: peer_addtoset, peer_updateset, peer_removefromset,
-- read_max and write_max. An fd_set is its characteristic function; FD_SET and FD_CLR of a negative
-- descriptor, which C leaves undefined, touch that key only.
pub mod Watching
use tapi2p.Base.{
  FdSet, fd_set, fd_clr, ℤ, pos, negsuc, eq_ℤ, ltb_ℤ, leb_ℤ, Bool, true, false, if◌then◌else◌,
  Option, none, some,
}

-- SOCKET_ONEWAY of core/core.h
abbrev pub socket_oneway : ℤ
socket_oneway = negsuc 1

-- m_readset, m_writeset, read_max_int and write_max_int
pub record Sets : Type 0 where
  pub readset : FdSet
  pub writeset : FdSet
  pub read_max : ℤ
  pub write_max : ℤ

abbrev pub initial_sets : Sets
initial_sets = record {
  readset = λ x. false;
  writeset = λ x. false;
  read_max = negsuc 0;
  write_max = negsuc 0;
}

abbrev pub watch_write : ℤ → Sets → Sets
watch_write fd s = record s {
  writeset = fd_set fd s.writeset;
  write_max = if ltb_ℤ s.write_max fd then fd else s.write_max;
}

abbrev pub watch_read : ℤ → Sets → Sets
watch_read fd s = record s {
  readset = fd_set fd s.readset;
  read_max = if ltb_ℤ s.read_max fd then fd else s.read_max;
}

-- The sockets of a peer: `isock` from it, `osock` to it.
abbrev pub watch_in : ℤ → ℤ → Sets → Sets
watch_in isock osock s = if leb_ℤ (pos 0) isock then watch_read isock s else watch_read osock s

-- The outer `none` is the assert, that the sockets differ.
unfoldable pub peer_addtoset : ℤ → ℤ → Sets → Option (ℤ × Sets)
peer_addtoset isock osock s =
    if eq_ℤ isock osock
    then none
    else (if leb_ℤ (pos 0) osock
        then some (pos 0, watch_in isock osock (watch_write osock s))
        else (if leb_ℤ (pos 0) isock
            then some (pos 0, watch_in isock osock (watch_write isock s))
            else some (negsuc 0, s)))

unfoldable pub peer_updateset : ℤ → ℤ → Sets → Option (ℤ × Sets)
unfolding peer_addtoset
peer_updateset isock osock s =
    peer_addtoset isock osock
      (record s { writeset = fd_clr osock s.writeset; readset = fd_clr osock s.readset })

unfoldable pub peer_removefromset : ℤ → ℤ → Sets → Sets
peer_removefromset isock osock s = record s {
  writeset = fd_clr isock (fd_clr osock s.writeset);
  readset = fd_clr isock s.readset;
}

-- The socket that read_thread reads a peer's messages from (core/core.c).
unfoldable pub recv_socket : ℤ → ℤ → ℤ
recv_socket isock osock = if eq_ℤ isock socket_oneway then osock else isock

-- The socket that send_event_to_peer_internal writes to (core/core.c).
unfoldable pub send_socket : ℤ → ℤ → ℤ
send_socket isock osock = if eq_ℤ osock socket_oneway then isock else osock
