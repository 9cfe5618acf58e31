-- ===== src/Core/Reading/Stages.antt =====
-- The stages of a message: room in databuf, the payload, the plaintext, and the stamp.
use mathlib.Core.List.{append_assoc, append-nil}
use tapi2p.Base.{
  ℕ, ◌+◌, ◌-◌, ◌^◌, ◌<◌, ◌≤◌, ◌≡◌, sym, ap, ap₂, ◌∙◌, inl, inr, List, [], ◌++◌, map, true, ltb,
  take, drop, length, length-append, length-take, length-replicate, replicate, take_all,
  drop-append_of_length, Bool-cases, arith,
}
use tapi2p.Event.Types.{Evt, ipv4_max, evt_size}
use tapi2p.Event.Wire.{wire, header_bytes}
use tapi2p.Event.Wire.RoundTrip.{Fits, read_header-append, length-header_bytes}
use tapi2p.Peer.Types.{Peer}
use tapi2p.Core.Receive.{Answer, bytes, receive_loop}
use tapi2p.Core.Receive.Laws.{joined, Nonempty, receive_loop-joined}
use tapi2p.Core.Reading.{
  Outcome, ok, ◌>>=◌, Thread, Incoming, grown, stored, receive_payload, kept_plain, stamped,
}

module _ (inc : Incoming) (t : Thread) where
  -- databuf has room for the payload.
  grown-room :
      (total : ℕ)
      → inc.buf_grows ≡ true
      → (room : List ℕ) × (grown inc total t ≡ ok (record t { databuf = room }))
        × (total ≤ length room)
  grown-room total g = elim (Bool-cases (ltb (length t.databuf) total)) [
    | inl less ↦ (
      t.databuf ++ take (total - length t.databuf) (inc.buf_junk ++ replicate total 0),
      rw (less, g),
      omega (
        arith,
        length-append t.databuf
            (take (total - length t.databuf) (inc.buf_junk ++ replicate total 0)),
        length-take (total - length t.databuf) (inc.buf_junk ++ replicate total 0),
        length-append inc.buf_junk (replicate total 0),
        length-replicate {A = ℕ} total 0,
      ),
    )
    | inr enough ↦ (t.databuf, rw enough, ground arith)
  ]

  pub receive_payload-joined :
      (total i : ℕ) (p : Peer) (xss : List (List ℕ))
      → inc.buf_grows ≡ true
      → inc.payload ≡ map bytes xss
      → Nonempty xss
      → length (joined xss) ≡ total
      → total < 2 ^ 32
      → (behind : List ℕ) × (receive_payload inc total i p t
          ≡ ok (record t { databuf = joined xss ++ behind }))
  unfolding receive_payload
  receive_payload-joined total i p xss g pieces ne e l =
      let (room, grows, fits) = grown-room total g in
      (
        drop total room,
        ap
              (λ (r : Outcome Thread). r >>= λ t1. stored inc i p t1 (
                receive_loop total (record { buf = t1.databuf; received = 0; removals = 0 })
                  inc.payload))
              grows
            ∙ ap
                (λ (as' : List Answer).
                  stored inc i p (record t { databuf = room })
                    (receive_loop total (record { buf = room; received = 0; removals = 0 }) as'))
                pieces
            ∙ ap (stored inc i p (record t { databuf = room }))
                (receive_loop-joined total xss room ne e fits l),
      )

  pub kept_plain-stale :
      (plain : List ℕ)
      → inc.dec_grows ≡ true
      → (stale : List ℕ) × (kept_plain inc plain t
          ≡ ok (record t { decdata = plain ++ stale; declen = length plain }))
  kept_plain-stale plain g = elim (Bool-cases (ltb t.declen (length plain))) [
    | inl longer ↦ (
      [],
      rw (longer, g)
          (ap (λ (d : List ℕ). ok (record t { decdata = d; declen = length plain }))
            (sym (append-nil plain))),
    )
    | inr fits ↦ (drop (length plain) (replicate t.declen 0 ++ drop t.declen t.decdata), rw fits)
  ]

-- What is left of the sender's struct under the receiver's stamp.
abbrev pub restamped : ℕ → Peer → Evt → List ℕ → Evt
restamped address p e stale = record e {
  addr = take ipv4_max p.addr;
  port = p.port;
  data_ptr = address + evt_size;
  body = e.body ++ stale;
}

pub stamped-wire :
    (address : ℕ) (p : Peer) (e : Evt) (stale : List ℕ)
    → Fits e
    → length e.body ≡ e.data_len
    → stamped address p (wire e ++ stale) ≡ restamped address p e stale
stamped-wire address p e stale f l =
    ap (stamped address p) (
      ap (λ (b : List ℕ). (header_bytes e ++ b) ++ stale) (take_all e.body e.data_len l)
      ∙ append_assoc (header_bytes e) e.body stale)
    ∙ ap₂
        (λ (b : List ℕ) (h : Evt). record h {
          addr = take ipv4_max p.addr;
          port = p.port;
          data_ptr = address + evt_size;
          body = b;
        })
        (drop-append_of_length evt_size (header_bytes e) (e.body ++ stale)
          (length-header_bytes e f.addr_full))
        (read_header-append e (e.body ++ stale) f)
