-- ===== src/Core/Reading/Origin.antt =====
-- read_thread of core/core.c: where the events come from that a round hands on, step by step.
use tapi2p.Base.{
  ◌⊎◌, inl, inr, drop, take, ℕ, zero, suc, ◌+◌, ◌≡◌, refl, sym, FdSet, Option, none, some, List, [],
  ◌∷◌, ◌++◌, Bool, true, false, ltb, get_elem?, length, if◌then◌else◌, ap,
}
use mathlib.Core.List.{append-nil}
use tapi2p.Crypto.{Openssl, Enc, aes_decrypt_with_key}
use tapi2p.Crypto.Layout.{enc_size, read_enc}
use tapi2p.Event.Types.{Evt, peer_disconnected, evt_size, ipv4_max}
use tapi2p.Event.Wire.{read_header}
use tapi2p.Event.Callbacks.{Registry}
use tapi2p.Peer.Types.{Peer}
use tapi2p.Peers.Sockets.{recv_socket}
use tapi2p.PtrList.{Node, list_add_node}
use tapi2p.Core.Receive.{bytes, Receiving, done, waiting, overrun}
use tapi2p.Core.Routing.{Dispatched, dispatch}
use tapi2p.Core.Reading.{
  ok, fault, or_fault, text_or, Action, announced, ran, to_pipes, Thread, Incoming, drop_peer,
  drop_times, grown, stored, receive_payload, kept_plain, stamped, dispatched_actions, header_of,
  decrypt, deliver,
}
use tapi2p.Core.Reading.Ensures.{
  Ensures, Anything, Each, Ensures-bind, Ensures-any, Ensures-if, Each-append,
}

module _ (o : Openssl) (deckey : o.PrivateKey) where
  -- What stands at m_decdata: the text that the own private key decrypted, or, where the decryption of
  -- the envelope was refused, bytes that are not determined.
  abbrev pub IsText : Enc → List ℕ → Type 0
  IsText enc plain =
      (aes_decrypt_with_key o enc deckey ≡ some plain) ⊎ (aes_decrypt_with_key o enc deckey ≡ none)

  -- An envelope with the header that recv gave, over older memory that a short header leaves.
  pub record HasHeader (inc : Incoming) (enc : Enc) : Type 0 where
    pub header : List ℕ
    pub older : List ℕ
    pub buffer : List ℕ
    pub came : inc.header ≡ bytes header
    pub read : enc ≡ read_enc (take enc_size header ++ older) buffer

  -- The event is such a text of an envelope that came in this round, but for its address and port, which
  -- are those of `p`; `stale` is older memory behind the text.
  pub record FromMessage (inc : Incoming) (p : Peer) (e : Evt) : Type 0 where
    pub enc : Enc
    pub plain : List ℕ
    pub stale : List ℕ
    pub envelope : HasHeader inc enc
    pub decrypted : IsText enc plain
    pub same_header :
        (e.type ≡ (read_header (plain ++ stale)).type)
        × (e.data_len ≡ (read_header (plain ++ stale)).data_len)
    pub same_data : e.body ≡ drop evt_size (plain ++ stale)
    pub own_addr : e.addr ≡ take ipv4_max p.addr
    pub own_port : e.port ≡ p.port

  module _ (ready : FdSet) (ps : List Peer) (incs : ℕ → Incoming) where
    -- A peer of the table whose socket select found readable.
    pub record ReadyPeer (p : Peer) : Type 0 where
      pub index : ℕ
      pub listed : get_elem? ps index ≡ some p
      pub readable : ready (recv_socket p.isock p.osock) ≡ true

    abbrev pub FromPeer : Action → Type 0
    FromPeer (announced t addr n) =
        (p : Peer) × ReadyPeer p × (t ≡ peer_disconnected) × (addr ≡ p.addr)
    FromPeer (ran e calls) = (p : Peer) × (r : ReadyPeer p) × FromMessage (incs r.index) p e
    FromPeer (to_pipes e) = (p : Peer) × (r : ReadyPeer p) × FromMessage (incs r.index) p e

    abbrev pub Kept : Thread → Type 0
    Kept t = Each FromPeer t.actions

    -- The decrypted text lies at m_decdata.
    abbrev pub Decrypted : Incoming → Thread → Type 0
    Decrypted inc t =
        Kept t
        × ((enc : Enc) × (plain : List ℕ) × (stale : List ℕ) × HasHeader inc enc
            × IsText enc plain
            × (t.decdata ≡ plain ++ stale))

    pub drop_peer-Kept :
        (junk : Node) (i : ℕ) (p : Peer) (t : Thread)
        → ReadyPeer p
        → Kept t
        → Ensures Kept (drop_peer junk i p t)
    unfolding drop_peer
    drop_peer-Kept junk i p t r k =
        Ensures-bind Anything Kept (or_fault (list_add_node junk t.delptrs i)) _ (Ensures-any _)
          λ l u. Each-append FromPeer t.actions _ k ((p, r, refl, refl), tt)

    -- The header that recv gave stays in place.
    abbrev pub KeptWith : List ℕ → Thread → Type 0
    KeptWith h t = Kept t × (t.encdata ≡ h)

    drop_peer-KeptWith :
        (h : List ℕ) (junk : Node) (i : ℕ) (p : Peer) (t : Thread)
        → ReadyPeer p
        → KeptWith h t
        → Ensures (KeptWith h) (drop_peer junk i p t)
    unfolding drop_peer
    drop_peer-KeptWith h junk i p t r k =
        Ensures-bind Anything (KeptWith h) (or_fault (list_add_node junk t.delptrs i)) _
          (Ensures-any _)
          λ l u. (Each-append FromPeer t.actions _ k.0 ((p, r, refl, refl), tt), k.1)

    drop_times-KeptWith :
        (h : List ℕ) (n : ℕ) (junk : Node) (i : ℕ) (p : Peer) (t : Thread)
        → ReadyPeer p
        → KeptWith h t
        → Ensures (KeptWith h) (drop_times n junk i p t)
    unfolding drop_times
    drop_times-KeptWith h zero junk i p t r k = k
    drop_times-KeptWith h (suc n) junk i p t r k =
        Ensures-bind (KeptWith h) (KeptWith h) (drop_peer junk i p t) (drop_times n junk i p)
          (drop_peer-KeptWith h junk i p t r k) λ t' k'. drop_times-KeptWith h n junk i p t' r k'

    stored-KeptWith :
        (h : List ℕ) (inc : Incoming) (i : ℕ) (p : Peer) (t : Thread) (g : Receiving)
        → ReadyPeer p
        → KeptWith h t
        → Ensures (KeptWith h) (stored inc i p t g)
    stored-KeptWith h inc i p t (done g) r k =
        drop_times-KeptWith h g.removals inc.node_junk i p (record t { databuf = g.buf }) r k
    stored-KeptWith h inc i p t (waiting g) r k = tt
    stored-KeptWith h inc i p t overrun r k = tt

    grown-KeptWith :
        (h : List ℕ) (inc : Incoming) (total : ℕ) (t : Thread)
        → KeptWith h t
        → Ensures (KeptWith h) (grown inc total t)
    grown-KeptWith h inc total t k =
        Ensures-if (KeptWith h) (ltb (length t.databuf) total) _ _
          (Ensures-if (KeptWith h) inc.buf_grows (ok _) fault k tt) k

    pub receive_payload-KeptWith :
        (h : List ℕ) (inc : Incoming) (total i : ℕ) (p : Peer) (t : Thread)
        → ReadyPeer p
        → KeptWith h t
        → Ensures (KeptWith h) (receive_payload inc total i p t)
    unfolding receive_payload
    receive_payload-KeptWith h inc total i p t r k =
        Ensures-bind (KeptWith h) (KeptWith h) (grown inc total t) _
          (grown-KeptWith h inc total t k) λ t' k'. stored-KeptWith h inc i p t' _ r k'

    pub kept_plain-Decrypted :
        (inc : Incoming) (enc : Enc) (plain : List ℕ) (t : Thread)
        → HasHeader inc enc
        → IsText enc plain
        → Kept t
        → Ensures (Decrypted inc) (kept_plain inc plain t)
    kept_plain-Decrypted inc enc plain t w e k =
        Ensures-if (Decrypted inc) (ltb t.declen (length plain)) _ _
          (Ensures-if (Decrypted inc) inc.dec_grows (ok _) fault
            (k, (enc, plain, [], w, e, sym (append-nil plain))) tt)
          (k, (enc, plain, _, w, e, refl))

    pub decrypt-Decrypted :
        (inc : Incoming) (t : Thread)
        → HasHeader inc (header_of t)
        → Kept t
        → Ensures (Decrypted inc) (decrypt o deckey inc t)
    unfolding decrypt
    decrypt-Decrypted inc t w k =
        Ensures-if (Decrypted inc)
          (ltb (length t.databuf) ((header_of t).pass_len + (header_of t).data_len)) fault _ tt
          (by_plain (aes_decrypt_with_key o (header_of t) deckey) refl)
      where
        by_plain :
            (r : Option (List ℕ))
            → aes_decrypt_with_key o (header_of t) deckey ≡ r
            → Ensures (Decrypted inc) (kept_plain inc (text_or inc.indeterminate r) t)
        by_plain none e = kept_plain-Decrypted inc (header_of t) inc.indeterminate t w (inr e) k
        by_plain (some plain) e = kept_plain-Decrypted inc (header_of t) plain t w (inl e) k

    pub dispatched-FromPeer :
        (e : Evt) (d : Dispatched) (p : Peer)
        → (r : ReadyPeer p) → FromMessage (incs r.index) p e
        → Each FromPeer (dispatched_actions e d)
    dispatched-FromPeer e d p r m = ((p, r, m), by_test d.forwarded)
      where
        by_test : (b : Bool) → Each FromPeer (if b then to_pipes e ∷ [] else [])
        by_test true = ((p, r, m), tt)
        by_test false = tt

    pub deliver-Kept :
        (reg : Registry) (p : Peer) (t : Thread) (r : ReadyPeer p)
        → Decrypted (incs r.index) t
        → Ensures Kept (deliver o deckey reg (incs r.index) p t)
    unfolding deliver
    deliver-Kept reg p t r (k, (enc, plain, stale, w, e, at)) =
        Ensures-if Kept (ltb (length t.decdata) evt_size) fault _ tt (
          Ensures-bind Anything Kept
            (or_fault (dispatch reg (stamped (incs r.index).dec_address p t.decdata).type)) _
            (Ensures-any _)
            λ d u. Each-append FromPeer t.actions _ k (dispatched-FromPeer _ d p r message))
      where
        message : FromMessage (incs r.index) p (stamped (incs r.index).dec_address p t.decdata)
        message = record {
          enc = enc;
          plain = plain;
          stale = stale;
          envelope = w;
          decrypted = e;
          same_header = (
            ap (λ (m : List ℕ). (read_header m).type) at,
            ap (λ (m : List ℕ). (read_header m).data_len) at,
          );
          same_data = ap (drop evt_size) at;
          own_addr = refl;
          own_port = refl;
        }
