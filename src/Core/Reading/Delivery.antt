-- ===== src/Core/Reading/Delivery.antt =====
-- read_thread of core/core.c on a message that aes_encrypt_with_pass of crypto/aes.c has made.
use mathlib.Core.List.{append-nil}
use tapi2p.Base.{
  if◌then◌else◌, Option, ℕ, ◌+◌, ◌^◌, ◌<◌, ◌≡◌, refl, sym, ap, ap₂, ◌∙◌, FdSet, some, List, [], ◌∷◌,
  ◌++◌, map, Bool, true, false, ltb, ◌==◌, take, drop, length, length-append, length-take, drop_all,
  take_all, not_less, arith,
}
use tapi2p.Event.Types.{Evt, EventType, event_code, evt_size}
use tapi2p.Event.Callbacks.{Registry, initial}
use tapi2p.Event.Wire.{wire, header_bytes}
use tapi2p.Event.Wire.RoundTrip.{Fits, length-header_bytes}
use tapi2p.Crypto.{
  Openssl, Enc, magic, pkcs5_salt_len, cipher_key, cipher_iv, sealed, aes_decrypt_with_key,
  aes_encrypt_with_pass,
}
use tapi2p.Crypto.Layout.{
  enc_size, enc_header, read_enc, FitsEnc, length-enc_header, read_enc-enc_header,
}
use tapi2p.Crypto.RoundTrip.{
  aes_encrypt_with_pass-sealed, payload-sealed, aes_decrypt_with_key-padded,
}
use tapi2p.Peer.Types.{Peer}
use tapi2p.Peers.Sockets.{recv_socket}
use tapi2p.Core.Receive.{bytes}
use tapi2p.Core.Receive.Laws.{joined, Nonempty}
use tapi2p.Core.Routing.{Dispatched, dispatch, core_listeners, Handler}
use tapi2p.Core.Routing.Laws.{peer_handler, is_forwarded, handler_slots, dispatch-core_listeners}
use tapi2p.Core.Reading.Stages.{restamped, stamped-wire, kept_plain-stale, receive_payload-joined}
use tapi2p.Core.Reading.{
  Outcome, ok, ◌>>=◌, fault, or_fault, text_or, Thread, Incoming, receive_payload, kept_plain,
  stamped, dispatched_actions, total_of, decrypt, deliver, read_payload, read_answer, drop_peer,
  read_peer, stored_header, ran, to_pipes,
}

-- The sender's side: an event whose fields fit, under a password of its own.
module _ (o : Openssl) (deckey : o.PrivateKey) (salt pw buf encpass : List ℕ) (e : Evt)
    (derived : o.pbkdf2 pw (take pkcs5_salt_len salt) ≡ some buf)
    (decrypts : o.private_decrypt deckey encpass ≡ some pw)
    (plain : o.aes_256_cbc_decrypt
        (cipher_key buf)
        (cipher_iv buf)
        (o.aes_256_cbc_encrypt (cipher_key buf) (cipher_iv buf) (wire e))
      ≡ wire e)
    (salted : length salt ≡ pkcs5_salt_len) (fits : Fits e) (full : length e.body ≡ e.data_len)
    (short : length encpass < 2 ^ 16)
    (small : length encpass
        + length (o.aes_256_cbc_encrypt (cipher_key buf) (cipher_iv buf) (wire e))
      < 2 ^ 32)
    (bytes_small : length (wire e) + 16 < 2 ^ 31)
    (cipher_small : length (o.aes_256_cbc_encrypt (cipher_key buf) (cipher_iv buf) (wire e)) + 16
      < 2 ^ 31) where
  abbrev pub cipher : List ℕ
  cipher = o.aes_256_cbc_encrypt (cipher_key buf) (cipher_iv buf) (wire e)

  abbrev pub envelope : Enc
  envelope = sealed o salt encpass cipher

  length-payload : length envelope.payload ≡ envelope.pass_len + envelope.data_len
  length-payload =
      let whole = ap (length {A = ℕ}) (payload-sealed o salt encpass cipher short (omega arith)) in
      omega (arith, whole, length-append encpass cipher)

  envelope-FitsEnc : FitsEnc envelope
  envelope-FitsEnc = record {
    magic_fits = omega arith;
    salt_full = omega (arith, length-take pkcs5_salt_len salt);
    pass_len_fits = omega arith;
    data_len_fits = omega arith;
  }

  total_of-envelope : total_of envelope ≡ length envelope.payload
  total_of-envelope = omega (arith, length-payload)

  module _ (inc : Incoming) (p : Peer) (gap gap' ptr : ℕ) where
    abbrev pub arrived_header : List ℕ
    arrived_header = enc_header gap gap' ptr envelope

    -- decrypt, once the payload is there.
    decrypt-envelope :
        (t : Thread) (behind : List ℕ)
        → inc.dec_grows ≡ true
        → t.encdata ≡ arrived_header
        → t.databuf ≡ envelope.payload ++ behind
        → (stale : List ℕ) × (decrypt o deckey inc t
            ≡ ok (record t { decdata = wire e ++ stale; declen = length (wire e) }))
    unfolding decrypt
    decrypt-envelope t behind g h b =
        let (stale, kept) = kept_plain-stale inc t (wire e) g in
        (
          stale,
          ap₂
                (λ (enc : Enc) (room : ℕ).
                  if ltb room (enc.pass_len + enc.data_len)
                  then fault
                  else kept_plain inc
                      (text_or inc.indeterminate (aes_decrypt_with_key o enc deckey)) t)
                (ap₂ read_enc h b
                  ∙ read_enc-enc_header gap gap' ptr envelope envelope-FitsEnc
                      (envelope.payload ++ behind))
                (ap length b ∙ length-append envelope.payload behind)
              ∙ ap
                  (λ (less : Bool).
                    if less
                    then fault
                    else kept_plain inc
                        (text_or inc.indeterminate (
                          aes_decrypt_with_key o
                            (record envelope { payload = envelope.payload ++ behind }) deckey))
                        t)
                  (not_less (length envelope.payload + length behind)
                    (envelope.pass_len + envelope.data_len) (omega (arith, length-payload)))
              ∙ ap (λ r. kept_plain inc (text_or inc.indeterminate r) t)
                  (aes_decrypt_with_key-padded o salt (wire e) pw buf encpass behind deckey derived
                    decrypts plain short (omega arith))
              ∙ kept,
        )

    stamped-short : (stale : List ℕ) → ltb (length (wire e ++ stale)) evt_size ≡ false
    stamped-short stale = not_less (length (wire e ++ stale)) evt_size (
        omega (
          arith,
          length-append (wire e) stale,
          length-append (header_bytes e) (take e.data_len e.body),
          length-header_bytes e fits.addr_full,
        ))

    module _ (reg : Registry) (d : Dispatched) (routed : dispatch reg e.type ≡ some d) where
      deliver-envelope :
          (t : Thread) (stale : List ℕ)
          → t.decdata ≡ wire e ++ stale
          → deliver o deckey reg inc p t
            ≡ ok (record t {
              actions = t.actions ++ dispatched_actions (restamped inc.dec_address p e stale) d;
            })
      unfolding deliver
      deliver-envelope t stale m =
          ap
            (λ (mem : List ℕ).
              if ltb (length mem) evt_size
              then fault
              else or_fault (dispatch reg (stamped inc.dec_address p mem).type) >>= λ r.
                  ok (record t {
                    actions = t.actions ++ dispatched_actions (stamped inc.dec_address p mem) r;
                  }))
            m
          ∙ ap₂
              (λ (less : Bool) (f : Evt).
                if less
                then fault
                else or_fault (dispatch reg f.type) >>= λ r.
                    ok (record t { actions = t.actions ++ dispatched_actions f r }))
              (stamped-short stale) (stamped-wire inc.dec_address p e stale fits full)
          ∙ ap
              (λ (r : Option Dispatched). or_fault r >>= λ r'. ok (record t {
                actions = t.actions ++ dispatched_actions (restamped inc.dec_address p e stale) r';
              }))
              routed

      read_payload-envelope :
          (i : ℕ) (t : Thread) (xss : List (List ℕ))
          → t.encdata ≡ arrived_header
          → inc.payload ≡ map bytes xss
          → Nonempty xss
          → joined xss ≡ envelope.payload
          → inc.buf_grows ≡ true
          → inc.dec_grows ≡ true
          → (behind stale : List ℕ) × (read_payload o deckey reg inc i p t
              ≡ ok (record t {
                databuf = joined xss ++ behind;
                decdata = wire e ++ stale;
                declen = length (wire e);
                actions = t.actions ++ dispatched_actions (restamped inc.dec_address p e stale) d;
              }))
      unfolding read_payload
      read_payload-envelope i t xss h pieces ne whole g g' =
          let (behind, got) =
            receive_payload-joined inc t (total_of envelope) i p xss g pieces ne
              (ap length whole ∙ sym total_of-envelope) (omega arith) in
          let t1 : Thread = record t { databuf = joined xss ++ behind } in
          let (stale, opened) =
            decrypt-envelope t1 behind g' h (ap (λ (b : List ℕ). b ++ behind) whole) in
          (
            behind,
            stale,
            ap
                  (λ (enc : Enc).
                    if enc.magic == magic
                    then receive_payload inc (total_of enc) i p t
                      >>= decrypt o deckey inc
                      >>= deliver o deckey reg inc p
                    else ok t)
                  (ap (λ (b : List ℕ). read_enc b t.databuf) h
                    ∙ read_enc-enc_header gap gap' ptr envelope envelope-FitsEnc t.databuf)
                ∙ ap
                    (λ (r : Outcome Thread).
                      r >>= decrypt o deckey inc >>= deliver o deckey reg inc p)
                    got
                ∙ ap (λ (r : Outcome Thread). r >>= deliver o deckey reg inc p) opened
                ∙ deliver-envelope
                    (record t1 { decdata = wire e ++ stale; declen = length (wire e) }) stale refl,
          )

      header_stored :
          (t : Thread)
          → length t.encdata ≡ enc_size
          → (length (take enc_size arrived_header) ≡ enc_size)
            × ((stored_header (take enc_size arrived_header) t).encdata ≡ arrived_header)
      header_stored t size =
          let long = length-enc_header gap gap' ptr envelope envelope-FitsEnc in
          let all = take_all arrived_header enc_size long in
          (
            ap length all ∙ long,
            ap₂ (λ (got : List ℕ) (n : ℕ). got ++ drop n t.encdata) all (ap length all ∙ long)
                ∙ ap (λ (b : List ℕ). arrived_header ++ b)
                    (drop_all enc_size t.encdata (omega arith))
                ∙ append-nil arrived_header,
          )

      -- A peer's message as read_peer handles it.
      pub read_peer-envelope :
          (ready : FdSet) (i : ℕ) (t : Thread) (xss : List (List ℕ))
          → ready (recv_socket p.isock p.osock) ≡ true
          → inc.header ≡ bytes arrived_header
          → inc.payload ≡ map bytes xss
          → Nonempty xss
          → joined xss ≡ envelope.payload
          → length t.encdata ≡ enc_size
          → inc.buf_grows ≡ true
          → inc.dec_grows ≡ true
          → (behind stale : List ℕ) × (read_peer o deckey reg ready inc i p t
              ≡ ok (record (stored_header (take enc_size arrived_header) t) {
                databuf = joined xss ++ behind;
                decdata = wire e ++ stale;
                declen = length (wire e);
                actions = t.actions ++ dispatched_actions (restamped inc.dec_address p e stale) d;
              }))
      unfolding read_peer
      read_peer-envelope ready i t xss on h pieces ne whole size g g' =
          let (long, whole_header) = header_stored t size in
          let t0 : Thread = stored_header (take enc_size arrived_header) t in
          let (behind, stale, done) =
            read_payload-envelope i t0 xss whole_header pieces ne whole g g' in
          (
            behind,
            stale,
            ap (λ (b : Bool). if b then read_answer o deckey reg inc i p t inc.header else ok t) on
                ∙ ap (read_answer o deckey reg inc i p t) h
                ∙ ap
                    (λ (n : ℕ).
                      if n == 0
                      then drop_peer inc.node_junk i p t
                      else read_payload o deckey reg inc i p t0)
                    long
                ∙ done,
          )

    -- What one core sends another one handles. The sender: aes_encrypt_with_pass of the bytes of an
    -- event `e` of type `ty`, whose fields fit and whose data has its length, gives `envelope`. The
    -- receiver: when select finds its socket to that peer readable, recv delivers the header of
    -- the envelope at once and its payload in any non-empty pieces, and memory can be had,
    -- read_peer ends; it runs the one handler that `peer_handler` names for `ty`, or none, and sends
    -- the event to the pipes if `is_forwarded` says so; that event is `e` with its type and its data,
    -- with the address and the port of the peer that it came from, and with older memory behind
    -- the data; the sets and the list of peers to remove are as they were. The keys belong together,
    -- AES decryption undoes encryption under the derived key, and the lengths fit their fields
    -- and, with a block more, the ints of crypto/aes.c.
    pub read_peer-sealed :
        (pubkey : o.PublicKey) (before : Handler → ℕ) (config_ptr setupstatus_ptr : ℕ)
        (ty : EventType) (ready : FdSet) (i : ℕ) (t : Thread) (xss : List (List ℕ))
        → o.public_encrypt pubkey pw ≡ some encpass
        → e.type ≡ event_code ty
        → ready (recv_socket p.isock p.osock) ≡ true
        → inc.header ≡ bytes arrived_header
        → inc.payload ≡ map bytes xss
        → Nonempty xss
        → joined xss ≡ envelope.payload
        → length t.encdata ≡ enc_size
        → inc.buf_grows ≡ true
        → inc.dec_grows ≡ true
        → let reg = core_listeners before config_ptr setupstatus_ptr initial in
          (aes_encrypt_with_pass o salt (wire e) pw pubkey ≡ some envelope)
          × ((t' : Thread) × (stale : List ℕ) × (read_peer o deckey reg ready inc i p t ≡ ok t')
              × (t'.actions
                  ≡ t.actions
                    ++ (ran
                          (restamped inc.dec_address p e stale)
                          (handler_slots before (peer_handler ty))
                        ∷ (if is_forwarded ty
                            then to_pipes (restamped inc.dec_address p e stale) ∷ []
                            else [])))
              × (t'.sets ≡ t.sets)
              × (t'.delptrs ≡ t.delptrs))
    read_peer-sealed pubkey before c s ty ready i t xss encrypted is on h pieces ne whole size g
          g' =
        let reg : Registry = core_listeners before c s initial in
        let d : Dispatched = record {
          called = handler_slots before (peer_handler ty);
          forwarded = is_forwarded ty;
        } in
        let (behind, stale, done) =
          read_peer-envelope reg d (ap (dispatch reg) is ∙ dispatch-core_listeners before c s ty)
            ready i t xss on h pieces ne whole size g g' in
        (
          aes_encrypt_with_pass-sealed o salt (wire e) pw buf encpass pubkey derived encrypted
              bytes_small,
          (_, stale, done, refl, refl, refl),
        )
