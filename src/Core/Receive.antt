-- ===== src/Core/Receive.antt =====
-- The inner loop of read_thread (core/core.c): the payload of a message, received piece by piece.
-- What recv returns is an argument, one answer for each call.
pub mod Laws
use tapi2p.Base.{
  ℕ, zero, suc, ◌+◌, ◌-◌, ◌%◌, ◌^◌, Option, none, some, List, [], ◌∷◌, ◌++◌, Bool, ltb, leb,
  if◌then◌else◌, take, length, overwrite,
}

-- recv's answer: some bytes, 0 (the peer has closed), or -1.
pub data Answer : Type 0 where
  bytes : List ℕ → Answer
  closed : Answer
  failed : Answer

-- `removals` counts how often the peer was put on the list of peers to remove.
pub record Progress : Type 0 where
  pub buf : List ℕ
  pub received : ℕ
  pub removals : ℕ

-- How the loop stands when the answers are used up: done, still waiting in recv, or it has written
-- outside databuf.
pub data Receiving : Type 0 where
  done : Progress → Receiving
  waiting : Progress → Receiving
  overrun : Receiving

-- One round: `received` is a uint32_t, to which recv's result is added, also when it is -1.
abbrev pub advanced : Progress → List ℕ → Progress
advanced p xs = record p {
  buf = overwrite p.received xs p.buf;
  received = (p.received + length xs) % 2 ^ 32;
}

abbrev pub refused : ℕ → Progress → Progress
refused minus p = record p {
  received = (p.received + (2 ^ 32 - minus)) % 2 ^ 32;
  removals = p.removals + 1;
}

-- `total` is m_PassLen + m_DataLen. Each call asks for `total` bytes, whatever came before; the
-- buffer has the length of `buf`.
unfoldable pub receive_loop : ℕ → Progress → List Answer → Receiving
receive_loop total p [] = if ltb p.received total then waiting p else done p
receive_loop total p (bytes xs ∷ more) =
    let got = take total xs in
    let rest = receive_loop total (advanced p got) more in
    if ltb p.received total
    then (if leb (p.received + length got) (length p.buf) then rest else overrun)
    else done p
receive_loop total p (closed ∷ more) =
    let rest = receive_loop total (refused 0 p) more in
    if ltb p.received total then rest else done p
receive_loop total p (failed ∷ more) =
    let rest = receive_loop total (refused 1 p) more in
    if ltb p.received total then rest else done p
