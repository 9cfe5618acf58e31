-- ===== src/Core/Reading/Rounds.antt =====
-- read_thread of core/core.c: the events that a whole round hands on.
use tapi2p.Base.{ℕ, FdSet, List}
use tapi2p.Crypto.{Openssl}
use tapi2p.Peer.Types.{Peer}
use tapi2p.Peers.Table.{Manager}
use tapi2p.Core.Reading.{Thread, Incoming}
use tapi2p.Core.Reading.Ensures.{Ensures}
use tapi2p.Core.Reading.Origin.{Kept}

module _ (o : Openssl) (deckey : o.PrivateKey) where
  module _ (ready : FdSet) (ps : List Peer) (inc : ℕ → Incoming) where
    abbrev KeptPair : Manager × Thread → Type 0
    KeptPair (m, t) = Kept o deckey ready ps inc t
