-- ===== src/Tests/Listeners.antt =====
-- The pipe listeners at concrete inputs.
use tapi2p.Event.Types.{EventType, event_code}
use tapi2p.Event.Callbacks.{initial, event_run_callbacks}
use tapi2p.Core.Routing.{core_listeners}
use tapi2p.Core.Startup.{core_start, running}
use tapi2p.Core.Startup.Laws.{after_setup, core_start-same}
use tapi2p.Core.UnixSocket.{Unix, UnixCalls, Waiting, pipe_accept}
use tapi2p.Core.UnixSocket.Laws.{pipe_accept-live}
use tapi2p.Pipes.Refinement.{joins, leaves, calls, calls-refine}
use tapi2p.Base.{
  ℤ, eq_ℤ, false, pos, negsuc, ◌≡◌, refl, some, [], ◌∷◌, ◌++◌, true, false, arith, replicate,
}
use tapi2p.Pipes.{Pipes, no_fd, pipe_init}
use tapi2p.Pipes.Slots.{live, member}
use tapi2p.Pipes.Contract.{Laid-replicate, IsPipes, pipe_init-IsPipes}

abbrev garbage : Pipes
garbage = record { pipeset = λ x. true; fds = []; bound = 0; fd_max = negsuc 0 }

abbrev empty : Pipes
empty = pipe_init garbage

empty-IsPipes : IsPipes empty
empty-IsPipes = (pipe_init-IsPipes garbage).0

-- One listener, in the first cell.
abbrev one : Pipes
one = record {
  pipeset = λ x. member x (pos 4 ∷ []);
  fds = pos 4 ∷ replicate 254 no_fd;
  bound = 2;
  fd_max = pos 4;
}

one-IsPipes : IsPipes one
one-IsPipes = record {
  full = refl;
  started = omega arith;
  inside = omega arith;
  laid = Laid-replicate 254;
  listed = λ x n. refl;
}

-- Listeners in all cells but the last.
abbrev most : Pipes
most = record {
  pipeset = λ x. member x (replicate 254 (pos 9));
  fds = replicate 254 (pos 9) ++ (no_fd ∷ []);
  bound = 255;
  fd_max = pos 9;
}

most-IsPipes : IsPipes most
most-IsPipes = record {
  full = refl;
  started = omega arith;
  inside = omega arith;
  laid = (refl, tt);
  listed = λ x n. refl;
}

calls-refine_example :
    (p' : Pipes) × (calls (joins (pos 4) ∷ joins (pos 7) ∷ leaves (pos 4) ∷ []) (pipe_init garbage)
      ≡ some p')
    × (live p'.fds ≡ pos 7 ∷ [])
    × ((x : ℤ) → eq_ℤ x no_fd ≡ false → p'.pipeset x ≡ member x (pos 7 ∷ []))
calls-refine_example =
    calls-refine (joins (pos 4) ∷ joins (pos 7) ∷ leaves (pos 4) ∷ []) garbage
      (refl, (refl, (refl, tt))) (omega arith)

abbrev socket_there : Unix
socket_there = record {
  os = record { opened = pos 3 ∷ []; nonblocking = λ fd. false; addrinfos = 0 };
  core_socket_fd = pos 3;
}

abbrev no_calls : UnixCalls
no_calls = record {
  socket = negsuc 0;
  bind = negsuc 0;
  listen = negsuc 0;
  connect = negsuc 0;
  writability = record { nfds = pos 0; ready = false; sockopt = pos 0; err = pos 0 };
}

abbrev waiting : Waiting
waiting = record { nfds = pos 1; ready = true; accepted = pos 4 }

pipe_accept-live_example :
    (p' : Pipes) × (pipe_accept no_calls waiting socket_there empty ≡ some (socket_there, p'))
    × (live p'.fds ≡ pos 4 ∷ [])
    × (p'.pipeset (pos 4) ≡ true)
    × IsPipes p'
pipe_accept-live_example =
    pipe_accept-live no_calls waiting socket_there empty refl refl refl refl empty-IsPipes
      (omega arith)

core_start-same_example :
    (core_start (λ h. 0) 7 9 (pos 0) true (1 ∷ []) initial
      ≡ running (core_listeners (λ h. 0) 7 9 initial) true)
    × (core_start (λ h. 0) 7 9 (pos 1) true (1 ∷ 1 ∷ 2 ∷ []) initial
        ≡ running (after_setup (λ h. 0) 7 9) true)
    × ((t : EventType)
        → event_run_callbacks (after_setup (λ h. 0) 7 9) (event_code t)
          ≡ event_run_callbacks (core_listeners (λ h. 0) 7 9 initial) (event_code t))
core_start-same_example = core_start-same (λ h. 0) 7 9 0 2 [] (1 ∷ [])
