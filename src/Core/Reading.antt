-- ===== src/Core/Reading.antt =====
-- A round of read_thread in core/core.c: the peers that select found readable, one after the other.
-- What recv, malloc and realloc give is an argument. A peer is its index in the table, which the
-- callbacks of the round are taken to leave alone.
pub mod Loop
pub mod Ensures
pub mod Origin
pub mod Rounds
pub mod Stages
pub mod Delivery
pub mod Closing
use tapi2p.Base.{
  ℕ, zero, suc, ◌+◌, ◌-◌, ◌%◌, ◌^◌, FdSet, ℤ, pos, ltb_ℤ, Option, none, some, List, [], ◌∷◌, ◌++◌,
  Bool, true, false, ltb, ◌==◌, if◌then◌else◌, take, drop, length, replicate, get_elem?,
}
use tapi2p.Event.Types.{EventType, peer_disconnected, Evt, evt_size, ipv4_max}
use tapi2p.Event.Callbacks.{Slot, Registry}
use tapi2p.Event.Wire.{read_header}
use tapi2p.Crypto.{Openssl, Enc, magic, aes_decrypt_with_key}
use tapi2p.Crypto.Layout.{enc_size, read_enc}
use tapi2p.Peer.Types.{Peer}
use tapi2p.Peers.Sockets.{Sets, peer_removefromset, recv_socket}
use tapi2p.Peers.Table.{Manager, peer_next, peer_remove}
use tapi2p.PtrList.{Node, PtrList, list_new, list_add_node, items_from}
use tapi2p.Core.Receive.{
  Answer, bytes, closed, failed, Progress, Receiving, done, waiting, overrun, receive_loop,
}
use tapi2p.Core.Routing.{Dispatched, dispatch}

-- How a part of the round ends: with a result, still inside recv, or by an access outside an object.
pub data Outcome (A : Type 0) : Type 0 where
  ok : A → Outcome A
  in_recv : Outcome A
  fault : Outcome A

infixl 5 ◌>>=◌
abbrev pub ◌>>=◌ : {A B : Type 0} → Outcome A → (A → Outcome B) → Outcome B
ok a >>= f = f a
in_recv >>= f = in_recv
fault >>= f = fault

abbrev pub or_fault : {A : Type 0} → Option A → Outcome A
or_fault none = fault
or_fault (some a) = ok a

-- What read_thread goes on with: the plaintext, or the bytes that are there instead of it.
abbrev pub text_or : List ℕ → Option (List ℕ) → List ℕ
text_or other none = other
text_or other (some plain) = plain

-- What the round does to others: send_event_to_pipes_simple of an address with a length,
-- event_run_callbacks, and send_event_to_pipes.
pub data Action : Type 0 where
  announced : EventType → List ℕ → ℕ → Action
  ran : Evt → List Slot → Action
  to_pipes : Evt → Action

-- The variables of read_thread, those of aes.c, the sets of select, and what the round has done.
-- maxdatabuflen is the length of `databuf`; m_declen is `declen`, `decdata` the memory at m_decdata.
pub record Thread : Type 0 where
  pub encdata : List ℕ
  pub databuf : List ℕ
  pub decdata : List ℕ
  pub declen : ℕ
  pub sets : Sets
  pub delptrs : PtrList
  pub actions : List Action

-- What the system calls give for one peer: recv's answers, whether the two reallocs succeed and
-- what they find in the new memory, the bytes that are on the stack in place of a text that OpenSSL
-- refused to decrypt, where m_decdata lies, and what malloc finds for a list node.
pub record Incoming : Type 0 where
  pub header : Answer
  pub payload : List Answer
  pub buf_grows : Bool
  pub buf_junk : List ℕ
  pub indeterminate : List ℕ
  pub dec_grows : Bool
  pub dec_address : ℕ
  pub node_junk : Node

-- peer_removefromset, list_add_node and the event for the pipes.
unfoldable pub drop_peer : Node → ℕ → Peer → Thread → Outcome Thread
unfolding list_add_node peer_removefromset
drop_peer junk i p t = or_fault (list_add_node junk t.delptrs i) >>= λ l. ok (record t {
  sets = peer_removefromset p.isock p.osock t.sets;
  delptrs = l;
  actions = t.actions ++ (announced peer_disconnected p.addr 0 ∷ []);
})

unfoldable pub drop_times : ℕ → Node → ℕ → Peer → Thread → Outcome Thread
unfolding drop_peer
drop_times zero junk i p t = ok t
drop_times (suc n) junk i p t = drop_peer junk i p t >>= drop_times n junk i p

-- realloc of databuf to `total` bytes when it is shorter; recv into NULL fails, and what follows
-- reads through it.
abbrev pub grown : Incoming → ℕ → Thread → Outcome Thread
grown inc total t =
    if ltb (length t.databuf) total
    then (if inc.buf_grows
        then ok (record t {
          databuf =
              t.databuf ++ take (total - length t.databuf) (inc.buf_junk ++ replicate total 0);
        })
        else fault)
    else ok t

-- The peer is put on the list as often as the loop says, before the message is looked at.
abbrev pub stored : Incoming → ℕ → Peer → Thread → Receiving → Outcome Thread
stored inc i p t (done g) = drop_times g.removals inc.node_junk i p (record t { databuf = g.buf })
stored inc i p t (waiting g) = in_recv
stored inc i p t overrun = fault

unfoldable pub receive_payload : Incoming → ℕ → ℕ → Peer → Thread → Outcome Thread
unfolding receive_loop drop_times
receive_payload inc total i p t = grown inc total t >>= λ t1.
    stored inc i p t1
      (receive_loop total (record { buf = t1.databuf; received = 0; removals = 0 }) inc.payload)

-- The end of aes_decrypt_with_key: the plaintext over the cleared memory of the one before, in new
-- memory if it is longer.
abbrev pub kept_plain : Incoming → List ℕ → Thread → Outcome Thread
kept_plain inc plain t =
    if ltb t.declen (length plain)
    then (if inc.dec_grows then ok (record t { decdata = plain; declen = length plain }) else fault)
    else ok (record t {
      decdata = plain ++ drop (length plain) (replicate t.declen 0 ++ drop t.declen t.decdata);
      declen = length plain;
    })

-- The struct at m_decdata, with `data` behind it, and with the peer's address and port.
abbrev pub stamped : ℕ → Peer → List ℕ → Evt
stamped address p mem = record (read_header mem) {
  addr = take ipv4_max p.addr;
  port = p.port;
  data_ptr = address + evt_size;
  body = drop evt_size mem;
}

abbrev pub dispatched_actions : Evt → Dispatched → List Action
dispatched_actions e d = ran e d.called ∷ (if d.forwarded then to_pipes e ∷ [] else [])

-- m_PassLen + m_DataLen is a uint32_t.
abbrev pub total_of : Enc → ℕ
total_of enc = (enc.pass_len + enc.data_len) % 2 ^ 32

abbrev pub stored_header : List ℕ → Thread → Thread
stored_header got t = record t { encdata = got ++ drop (length got) t.encdata }

abbrev pub header_of : Thread → Enc
header_of t = read_enc t.encdata t.databuf

abbrev pub remove_items : List ℕ → Manager → Outcome Manager
remove_items [] m = ok m
remove_items (i ∷ is) m = or_fault (peer_remove m i) >>= λ (_, m'). remove_items is m'

-- The loop over delptrs; a round starts with an empty list.
unfoldable pub remove_listed : ℕ → Manager × Thread → Outcome (Manager × Thread)
unfolding items_from peer_remove
remove_listed fuel (m, t) = or_fault (items_from fuel t.delptrs.nodes t.delptrs.head) >>= λ is.
    remove_items is m >>= λ m'. ok (m', t)

module _ (o : Openssl) where
  open o use {PrivateKey}

  -- aes_decrypt_with_key of what databuf holds, which may be less than the header says. Where OpenSSL
  -- refuses, nobody looks at it, and the round goes on with the bytes of memory that was not set.
  unfoldable pub decrypt : PrivateKey → Incoming → Thread → Outcome Thread
  unfolding aes_decrypt_with_key read_enc
  decrypt deckey inc t =
      if ltb (length t.databuf) ((header_of t).pass_len + (header_of t).data_len)
      then fault
      else kept_plain inc (text_or inc.indeterminate (aes_decrypt_with_key o (header_of t) deckey))
          t

  module _ (deckey : PrivateKey) (reg : Registry) where
    -- The switch; `e->data`, the address and the port are written before `e` is tested.
    unfoldable pub deliver : Incoming → Peer → Thread → Outcome Thread
    unfolding dispatch read_header
    deliver inc p t =
        let e = stamped inc.dec_address p t.decdata in
        if ltb (length t.decdata) evt_size
        then fault
        else or_fault (dispatch reg e.type) >>= λ d.
            ok (record t { actions = t.actions ++ dispatched_actions e d })

    -- What follows the header of a message.
    unfoldable pub read_payload : Incoming → ℕ → Peer → Thread → Outcome Thread
    unfolding receive_payload decrypt deliver read_enc
    read_payload inc i p t =
        if (header_of t).magic == magic
        then receive_payload inc (total_of (header_of t)) i p t
          >>= decrypt deckey inc
          >>= deliver inc p
        else ok t

    abbrev pub read_answer : Incoming → ℕ → Peer → Thread → Answer → Outcome Thread
    read_answer inc i p t (bytes xs) =
        let got = take enc_size xs in
        if length got == 0
        then drop_peer inc.node_junk i p t
        else read_payload inc i p (stored_header got t)
    read_answer inc i p t closed = drop_peer inc.node_junk i p t
    read_answer inc i p t failed = drop_peer inc.node_junk i p t

    -- The body of the loop, with the set that select left.
    unfoldable pub read_peer : FdSet → Incoming → ℕ → Peer → Thread → Outcome Thread
    unfolding drop_peer read_payload recv_socket
    read_peer ready inc i p t =
        if ready (recv_socket p.isock p.osock) then read_answer inc i p t inc.header else ok t

    abbrev pub read_found :
        (Manager → Thread → Outcome (Manager × Thread))
        → FdSet
        → (ℕ → Incoming)
        → Option ℕ × Manager
        → Thread
        → Outcome (Manager × Thread)
    read_found rest ready inc (none, m) t = ok (m, t)
    read_found rest ready inc (some i, m) t =
        or_fault (get_elem? m.peers i) >>= λ p. read_peer ready (inc i) i p t >>= rest m

    -- The loop over the peers, with fuel; `fault` where it runs out.
    unfoldable pub read_peers :
        ℕ → FdSet → (ℕ → Incoming) → Manager → Thread → Outcome (Manager × Thread)
    unfolding read_peer peer_next
    read_peers zero ready inc m t = fault
    read_peers (suc fuel) ready inc m t =
        read_found (read_peers fuel ready inc) ready inc (peer_next m) t

    unfoldable pub read_round :
        ℕ → ℤ → FdSet → (ℕ → Incoming) → Manager → Thread → Outcome (Manager × Thread)
    unfolding read_peers remove_listed list_new
    read_round fuel nfds ready inc m t =
        if ltb_ℤ (pos 0) nfds
        then read_peers fuel ready inc m (record t { delptrs = list_new }) >>= remove_listed fuel
        else ok (m, t)
