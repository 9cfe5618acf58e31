-- ===== src/Pipes.antt =====
-- core/pipemanager.c: the listeners on the core's unix socket. `none` is an access outside
-- `pipe_fds`.  The static `pipe_slot` is held as
-- `bound`, which is pipe_slot + 1: the loops run over i < bound.
pub mod Slots
pub mod Contract
pub mod Refinement
use tapi2p.Base.{
  FdSet, fd_set, fd_clr, ℕ, zero, suc, ◌+◌, ◌-◌, ℤ, pos, negsuc, eq_ℤ, ltb_ℤ, Option, none, some,
  List, [], ◌∷◌, Bool, true, false, not, ◌&&◌, ltb, ◌==◌, if◌then◌else◌, get_elem?, set, length,
  replicate, ◌++◌,
}

-- MAX_PIPE_LISTENERS
abbrev pub max_pipe_listeners : ℕ
max_pipe_listeners = 255

-- -1 in a cell of pipe_fds
abbrev pub no_fd : ℤ
no_fd = negsuc 0

pub record Pipes : Type 0 where
  pub pipeset : FdSet
  pub fds : List ℤ
  pub bound : ℕ
  pub fd_max : ℤ

-- `fd_max` is not touched.
abbrev pub pipe_init : Pipes → Pipes
pipe_init p = record {
  pipeset = λ x. false;
  fds = replicate max_pipe_listeners no_fd;
  bound = 1;
  fd_max = p.fd_max;
}

-- Whether one of the first cells is free.
unfoldable pub has_free : ℕ → List ℤ → Option Bool
has_free zero cells = some false
has_free (suc n) [] = none
has_free (suc n) (c ∷ cs) = let rest = has_free n cs in if eq_ℤ c no_fd then some true else rest

-- The descriptor goes to cell `pipe_slot`, whichever cell was found free.
abbrev pub added : Pipes → ℤ → Pipes
added p fd = record {
  pipeset = fd_set fd p.pipeset;
  fds = set p.fds (p.bound - 1) fd;
  bound = p.bound + 1;
  fd_max = if ltb_ℤ p.fd_max fd then fd else p.fd_max;
}

unfoldable pub pipe_add : Pipes → ℤ → Option Pipes
unfolding has_free
pipe_add p fd = elim (has_free p.bound p.fds) [
  | none ↦ none
  | some free ↦
      if free
      then (if ltb (p.bound - 1) (length p.fds) then some (added p fd) else none)
      else some p
]

-- What the loop of pipe_remove has changed, from its index on.
pub record Removal : Type 0 where
  pub cells : List ℤ
  pub bound : ℕ
  pub fd_max : ℤ
  pub cleared : Bool

abbrev pub behind : ℤ → Bool → Option Removal → Option Removal
behind c hit none = none
behind c hit (some r) =
    some (record r { cells = c ∷ r.cells; cleared = if hit then true else r.cleared })

-- `second` is secondmax, to which the code assigns an index.
unfoldable pub remove_loop : ℤ → ℕ → ℕ → ℤ → ℤ → List ℤ → Option Removal
remove_loop fd i bound max second [] =
    if ltb i bound
    then none
    else some (record { cells = []; bound = bound; fd_max = max; cleared = false })
remove_loop fd i bound max second (c ∷ cs) =
    let second' = if ltb_ℤ second c && ltb_ℤ c max then pos i else second in
    let hit = behind no_fd true (
      remove_loop fd (i + 1) (if i + 1 == bound then bound - 1 else bound)
        (if eq_ℤ fd max then second' else max) second' cs) in
    let miss = behind c false (remove_loop fd (i + 1) bound max second' cs) in
    if ltb i bound
    then (if eq_ℤ c fd then hit else miss)
    else some (record { cells = c ∷ cs; bound = bound; fd_max = max; cleared = false })

abbrev pub after_removal : Pipes → ℤ → Option Removal → Option Pipes
after_removal p fd none = none
after_removal p fd (some r) = some (record {
  pipeset = if r.cleared then fd_clr fd p.pipeset else p.pipeset;
  fds = r.cells;
  bound = r.bound;
  fd_max = r.fd_max;
})

unfoldable pub pipe_remove : Pipes → ℤ → Option Pipes
unfolding remove_loop
pipe_remove p fd = after_removal p fd (remove_loop fd 0 p.bound p.fd_max (pos 0) p.fds)

-- The loop of send_event_to_pipes and of send_event_to_pipes_simple, which differ in the call that
-- sends: `ready` is the set that select left, `send` what the sending returns on a descriptor. The
-- result has the descriptors that were sent to. There are `n` rounds left.
unfoldable pub send_loop : FdSet → (ℤ → ℤ) → ℕ → ℕ → Pipes → List ℤ → Option (Pipes × List ℤ)
unfolding pipe_remove
send_loop ready send zero i p sent = some (p, sent)
send_loop ready send (suc n) i p sent =
    let next = send_loop ready send n (i + 1) p in
    elim (ltb i p.bound) [
      | false ↦ some (p, sent)
      | true ↦ elim (get_elem? p.fds i) [
        | none ↦ none
        | some c ↦ elim (not (eq_ℤ c no_fd) && ready c) [
          | false ↦ next sent
          | true ↦ elim (ltb_ℤ (send c) (pos 0)) [
            | false ↦ next (sent ++ (c ∷ []))
            | true ↦ elim (pipe_remove p c) [
              | none ↦ none
              | some p' ↦ send_loop ready send n (i + 1) p' (sent ++ (c ∷ []))
            ]
          ]
        ]
      ]
    ]

-- select's count, the set that it left, and the send: nothing is sent unless some are ready.
unfoldable pub send_event_to_pipes : ℤ → FdSet → (ℤ → ℤ) → Pipes → Option (Pipes × List ℤ)
unfolding send_loop
send_event_to_pipes nfds ready send p =
    if ltb_ℤ (pos 0) nfds
    then send_loop ready send (max_pipe_listeners + 1) 0 p []
    else some (p, [])

-- What event_recv reports on a descriptor: an event, or NULL with a status.
pub data Polled {ℓ} (E : Type ℓ) : Type ℓ where
  event : E → Polled E
  status : ℤ → Polled E

-- The loop of poll_event_from_pipes: a listener that has closed (status 1) is removed and the next
-- is asked; any other answer ends the loop.
unfoldable pub poll_loop {ℓ} :
    {E : Type ℓ} → FdSet → (ℤ → Polled E) → ℕ → ℕ → Pipes → Option (Pipes × Option E)
unfolding pipe_remove
poll_loop ready recv zero i p = some (p, none)
poll_loop ready recv (suc n) i p =
    let next = poll_loop ready recv n (i + 1) p in
    elim (ltb i p.bound) [
      | false ↦ some (p, none)
      | true ↦ elim (get_elem? p.fds i) [
        | none ↦ none
        | some c ↦ elim (not (eq_ℤ c no_fd) && ready c) [
          | false ↦ next
          | true ↦ elim (recv c) [
            | event e ↦ some (p, some e)
            | status s ↦ elim (eq_ℤ s (pos 1)) [
              | false ↦ some (p, none)
              | true ↦ elim (pipe_remove p c) [
                | none ↦ none
                | some p' ↦ poll_loop ready recv n (i + 1) p'
              ]
            ]
          ]
        ]
      ]
    ]

unfoldable pub poll_event_from_pipes {ℓ} :
    {E : Type ℓ} → ℤ → FdSet → (ℤ → Polled E) → Pipes → Option (Pipes × Option E)
unfolding poll_loop
poll_event_from_pipes nfds ready recv p =
    if ltb_ℤ (pos 0) nfds then poll_loop ready recv (max_pipe_listeners + 1) 0 p else some (p, none)
