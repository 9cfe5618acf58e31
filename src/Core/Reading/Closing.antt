-- ===== src/Core/Reading/Closing.antt =====
-- A round of read_thread in which the peers that are readable have closed their connections.
use tapi2p.Base.{ℕ, ◌+◌, FdSet, List, [], ◌∷◌, if◌then◌else◌}
use tapi2p.Event.Types.{peer_disconnected}
use tapi2p.Peer.Types.{Peer}
use tapi2p.Peers.Sockets.{Sets, peer_removefromset, recv_socket}
use tapi2p.PtrList.{PtrList}
use tapi2p.Core.Reading.{Action, announced}

-- The indices of the peers that select found readable, and what the pipes are told of them.
abbrev pub readable_from : FdSet → ℕ → List Peer → List ℕ
readable_from ready i [] = []
readable_from ready i (p ∷ ps) =
    if ready (recv_socket p.isock p.osock)
    then i ∷ readable_from ready (i + 1) ps
    else readable_from ready (i + 1) ps

abbrev pub announcements : FdSet → List Peer → List Action
announcements ready [] = []
announcements ready (p ∷ ps) =
    if ready (recv_socket p.isock p.osock)
    then announced peer_disconnected p.addr 0 ∷ announcements ready ps
    else announcements ready ps

abbrev pub unwatched : FdSet → List Peer → Sets → Sets
unwatched ready [] s = s
unwatched ready (p ∷ ps) s =
    unwatched ready ps
      (if ready (recv_socket p.isock p.osock) then peer_removefromset p.isock p.osock s else s)
