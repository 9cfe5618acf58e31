-- ===== src/Core/UnixSocket/Laws.antt =====
-- The core's socket is made once, and its connections become listeners.
use tapi2p.Base.{
  ◌<◌, ◌≡◌, refl, ap, subst, ◌∙◌, arith, ℤ, pos, negsuc, eq_ℤ, ltb_ℤ, leb_ℤ, none, some, [], ◌∷◌,
  ◌++◌, Bool, true, false, ◌&&◌, if◌then◌else◌,
}
use tapi2p.Pipes.{max_pipe_listeners, no_fd, Pipes, pipe_add}
use tapi2p.Pipes.Slots.{live}
use tapi2p.Pipes.Contract.{IsPipes, pipe_add-live}
use tapi2p.Util.{open_fd}
use tapi2p.Core.UnixSocket.{
  Unix, UnixCalls, bind_and_listen, create_core_socket, Waiting, with_pipes, accept_pipe, accept_at,
  pipe_accept,
}

-- How create_core_socket ends: with the socket that it made before, with a new one that listens, or
-- with -1 and no socket, and then with at most one more descriptor.
pub data Created (k : UnixCalls) (s : Unix) : ℤ × Unix → Type 0 where
  kept : eq_ℤ s.core_socket_fd (negsuc 0) ≡ false → Created k s (s.core_socket_fd, s)
  made :
      eq_ℤ s.core_socket_fd (negsuc 0) ≡ true
      → leb_ℤ k.socket (pos 0) ≡ false
      → eq_ℤ k.bind (negsuc 0) ≡ false
      → eq_ℤ k.listen (negsuc 0) ≡ false
      → Created k s (k.socket, record s { os = open_fd k.socket s.os; core_socket_fd = k.socket })
  failed : leb_ℤ k.socket (pos 0) ≡ true → Created k s (negsuc 0, s)
  leaked :
      leb_ℤ k.socket (pos 0) ≡ false
      → Created k s (negsuc 0, record s { os = open_fd k.socket s.os })

create_core_socket-Created : (k : UnixCalls) (s : Unix) → Created k s (create_core_socket k s)
unfolding create_core_socket
create_core_socket-Created k s =
    by_tests (eq_ℤ s.core_socket_fd (negsuc 0)) (leb_ℤ k.socket (pos 0)) (eq_ℤ k.bind (negsuc 0))
      (eq_ℤ k.listen (negsuc 0)) refl refl refl refl
  where
    by_tests :
        (a b d l : Bool)
        → eq_ℤ s.core_socket_fd (negsuc 0) ≡ a
        → leb_ℤ k.socket (pos 0) ≡ b
        → eq_ℤ k.bind (negsuc 0) ≡ d
        → eq_ℤ k.listen (negsuc 0) ≡ l
        → Created k s (
            if a
            then (if b
                then (negsuc 0, s)
                else (if d
                    then (negsuc 0, record s { os = open_fd k.socket s.os })
                    else (if l then (negsuc 0, record s { os = open_fd k.socket s.os }) else (
                      k.socket,
                      record s { os = open_fd k.socket s.os; core_socket_fd = k.socket },
                    ))))
            else (s.core_socket_fd, s))
    by_tests false b d l p q r t = kept p
    by_tests true true d l p q r t = failed q
    by_tests true false true l p q r t = leaked q
    by_tests true false false true p q r t = leaked q
    by_tests true false false false p q r t = made p q r t

-- Another call that finds the socket there.
again :
    (k : UnixCalls) (s : Unix)
    → eq_ℤ s.core_socket_fd (negsuc 0) ≡ false
    → create_core_socket k s ≡ (s.core_socket_fd, s)
unfolding create_core_socket
again k s e =
    ap
      (λ (b : Bool).
        if◌then◌else◌ {A = ℤ × Unix} b
          (if leb_ℤ k.socket (pos 0) then (negsuc 0, s) else bind_and_listen k s)
          (s.core_socket_fd, s))
      e

positive : (z : ℤ) → leb_ℤ z (pos 0) ≡ false → eq_ℤ z (negsuc 0) ≡ false
positive (pos n) h = refl
positive (negsuc n) h = cc

not_negative : (z : ℤ) → ltb_ℤ z (pos 0) ≡ false → eq_ℤ z (negsuc 0) ≡ false
not_negative (pos n) h = refl
not_negative (negsuc n) h = cc

above : (z : ℤ) → ltb_ℤ (pos 0) z ≡ true → eq_ℤ z no_fd ≡ false
above (pos n) h = refl
above (negsuc n) h = cc

Created-again :
    (k k' : UnixCalls) (s : Unix) (o : ℤ × Unix)
    → Created k s o
    → ltb_ℤ o.0 (pos 0) ≡ false
    → create_core_socket k' o.1 ≡ o
Created-again k k' s o (kept p) h = again k' s p
Created-again k k' s o (made p q r t) h =
    again k' (record s { os = open_fd k.socket s.os; core_socket_fd = k.socket })
      (positive k.socket q)
Created-again k k' s o (failed p) h = cc
Created-again k k' s o (leaked p) h = cc

-- A descriptor that create_core_socket has returned, other than -1, is what every later call returns,
-- whatever the system calls would answer, and nothing more is opened.
pub create_core_socket_again :
    (k k' : UnixCalls) (s t : Unix) (fd : ℤ)
    → create_core_socket k s ≡ (fd, t)
    → ltb_ℤ fd (pos 0) ≡ false
    → create_core_socket k' t ≡ (fd, t)
create_core_socket_again k k' s t fd e h =
    Created-again k k' s (fd, t) (subst (Created k s) e (create_core_socket-Created k s)) h

-- With the core's socket made and `pipe_slot` below MAX_PIPE_LISTENERS - 1, pipe_accept of a connection
-- that select and accept report puts its descriptor behind the listeners, changes nothing of the
-- core's socket, and keeps the table of listeners well formed.
pub pipe_accept-live :
    (k : UnixCalls) (w : Waiting) (s : Unix) (p : Pipes)
    → ltb_ℤ s.core_socket_fd (pos 0) ≡ false
    → ltb_ℤ (pos 0) w.nfds ≡ true
    → w.ready ≡ true
    → ltb_ℤ (pos 0) w.accepted ≡ true
    → IsPipes p
    → p.bound < max_pipe_listeners
    → (p' : Pipes) × (pipe_accept k w s p ≡ some (s, p'))
      × (live p'.fds ≡ live p.fds ++ (w.accepted ∷ []))
      × (p'.pipeset w.accepted ≡ true)
      × IsPipes p'
unfolding pipe_accept
pipe_accept-live k w s p there n r a v room =
    finish (pipe_add-live p w.accepted v (above w.accepted a) room)
  where
    at_socket : ltb_ℤ s.core_socket_fd (pos 0) ≡ false → eq_ℤ s.core_socket_fd (negsuc 0) ≡ false
    at_socket h = not_negative s.core_socket_fd h

    waiting : (ltb_ℤ (pos 0) w.nfds && (w.ready && ltb_ℤ (pos 0) w.accepted)) ≡ true
    waiting = ground arith

    finish :
        (p' : Pipes) × (pipe_add p w.accepted ≡ some p')
          × (live p'.fds ≡ live p.fds ++ (w.accepted ∷ []))
          × (p'.pipeset w.accepted ≡ true)
          × IsPipes p'
        → (p' : Pipes) × (pipe_accept k w s p ≡ some (s, p'))
          × (live p'.fds ≡ live p.fds ++ (w.accepted ∷ []))
          × (p'.pipeset w.accepted ≡ true)
          × IsPipes p'
    finish (p', e, l, x, v') = (
      p',
      ap (accept_at w p) (again k s (at_socket there))
          ∙ ap (λ (b : Bool). if b then none else accept_pipe w s p) there
          ∙ ap (λ (b : Bool). if b then with_pipes s (pipe_add p w.accepted) else some (s, p))
              waiting
          ∙ ap (with_pipes s) e,
      l,
      x,
      v',
    )
