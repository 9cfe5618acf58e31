-- ===== src/Util/Outcome.antt =====
-- What new_socket leaves of the resources that it takes.
use tapi2p.Base.{
  ℕ, ◌+◌, ◌≡◌, refl, arith, ℤ, pos, negsuc, eq_ℤ, eq_ℤ-refl, ltb_ℤ, Option, none, some, List, ◌∷◌,
  Bool, true, false, not, ◌&&◌, if◌then◌else◌, atoi_u16,
}
use tapi2p.Util.{
  Os, Calls, set_nonblocking, set_blocking, check_writability, open_fd, close, without_fd,
  with_addrinfo, freeaddrinfo, connect_to, listen_on, new_socket,
}

-- getaddrinfo has given a list, and there is no socket: new_socket returns before it frees the list.
abbrev pub keeps_list : Calls → Option (List ℕ) → Option (List ℕ) → Bool
keeps_list k (some a) (some p) = eq_ℤ (k.getaddrinfo a p) (pos 0) && ltb_ℤ k.socket (pos 0)
keeps_list k (some a) none = false
keeps_list k none port = false

-- The ways in which new_socket ends: with a socket, blocking and open, that is connected or listens; with
-- an error and every resource given back; or, where socket fails after getaddrinfo, with the list
-- of getaddrinfo kept.
pub data SocketOutcome (k : Calls) (addr port : Option (List ℕ)) (s : Os) : ℤ × Os → Type 0 where
  connected :
      (a p : List ℕ) (t : Os)
      → addr ≡ some a
      → port ≡ some p
      → eq_ℤ (k.getaddrinfo a p) (pos 0) ≡ true
      → check_writability k.writability ≡ true
      → t.opened ≡ k.socket ∷ s.opened
      → t.addrinfos ≡ s.addrinfos
      → t.nonblocking k.socket ≡ false
      → ltb_ℤ k.socket (pos 0) ≡ false
      → SocketOutcome k addr port s (k.socket, t)
  listening :
      (p : List ℕ) (t : Os)
      → addr ≡ none
      → port ≡ some p
      → eq_ℤ (k.bind (atoi_u16 p)) (pos 0) ≡ true
      → eq_ℤ k.listen (pos 0) ≡ true
      → t.opened ≡ k.socket ∷ s.opened
      → t.addrinfos ≡ s.addrinfos
      → t.nonblocking k.socket ≡ false
      → ltb_ℤ k.socket (pos 0) ≡ false
      → SocketOutcome k addr port s (k.socket, t)
  failed :
      (r : ℤ) (t : Os)
      → keeps_list k addr port ≡ false
      → ltb_ℤ r (pos 0) ≡ true
      → t.opened ≡ s.opened
      → t.addrinfos ≡ s.addrinfos
      → SocketOutcome k addr port s (r, t)
  leaked :
      (a p : List ℕ) (t : Os)
      → addr ≡ some a
      → port ≡ some p
      → keeps_list k addr port ≡ true
      → t.opened ≡ s.opened
      → t.addrinfos ≡ s.addrinfos + 1
      → SocketOutcome k addr port s (k.socket, t)

without_fd_head : (fd : ℤ) (xs : List ℤ) → without_fd fd (fd ∷ xs) ≡ xs
without_fd_head fd xs = rw (eq_ℤ-refl fd) refl

module _ (k : Calls) (s : Os) where
  connect_to-SocketOutcome :
      (a p : List ℕ)
      → eq_ℤ (k.getaddrinfo a p) (pos 0) ≡ true
      → ltb_ℤ k.socket (pos 0) ≡ false
      → SocketOutcome k
          (some a)
          (some p)
          s
          (connect_to k k.socket (open_fd k.socket (with_addrinfo s)))
  unfolding set_nonblocking set_blocking
  connect_to-SocketOutcome a p g h =
      by_connect (ltb_ℤ k.connect.0 (pos 0) && not k.connect.1) (check_writability k.writability)
        refl
    where
      failure : SocketOutcome k (some a) (some p) s (
        negsuc 0,
        close k.socket
            (freeaddrinfo (set_nonblocking k.socket (open_fd k.socket (with_addrinfo s)))),
      )
      failure = failed _ _ (rw (g, h) refl) refl (without_fd_head k.socket s.opened) (omega arith)

      by_connect :
          (b w : Bool)
          → check_writability k.writability ≡ w
          → SocketOutcome k (some a) (some p) s (
              let s1 = set_nonblocking k.socket (open_fd k.socket (with_addrinfo s)) in
              if b
              then (negsuc 0, close k.socket (freeaddrinfo s1))
              else (if not w
                  then (negsuc 0, close k.socket (freeaddrinfo s1))
                  else (k.socket, freeaddrinfo (set_blocking k.socket s1))))
      by_connect true w e = failure
      by_connect false false e = failure
      by_connect false true e =
          connected a p _ refl refl g e refl (omega arith) (rw (eq_ℤ-refl k.socket) refl) h

  listen_on-SocketOutcome :
      (p : List ℕ)
      → ltb_ℤ k.socket (pos 0) ≡ false
      → SocketOutcome k none (some p) s (listen_on k p k.socket (open_fd k.socket s))
  listen_on-SocketOutcome p h =
      by_bind (eq_ℤ (k.bind (atoi_u16 p)) (pos 0)) (eq_ℤ k.listen (pos 0)) refl refl
    where
      failure : SocketOutcome k none (some p) s (negsuc 0, close k.socket (open_fd k.socket s))
      failure = failed _ _ refl refl (without_fd_head k.socket s.opened) refl

      by_bind :
          (b l : Bool)
          → eq_ℤ (k.bind (atoi_u16 p)) (pos 0) ≡ b
          → eq_ℤ k.listen (pos 0) ≡ l
          → SocketOutcome k none (some p) s (
              if not b
              then (negsuc 0, close k.socket (open_fd k.socket s))
              else (if not l
                  then (negsuc 0, close k.socket (open_fd k.socket s))
                  else (k.socket, open_fd k.socket s)))
      by_bind false l e f = failure
      by_bind true false e f = failure
      by_bind true true e f = listening p _ refl refl e f refl refl (rw (eq_ℤ-refl k.socket) refl) h

-- new_socket ends with a socket that is open, blocking, and writable after connect or bound and
-- listening; or, unless getaddrinfo has succeeded and socket fails, with a negative number and
-- no more descriptors and lists of getaddrinfo than before; exactly where getaddrinfo has succeeded
-- and socket fails, it returns what socket did and one more list of getaddrinfo is kept.
pub new_socket-SocketOutcome :
    (k : Calls) (addr port : Option (List ℕ)) (s : Os)
    → SocketOutcome k addr port s (new_socket k addr port s)
unfolding new_socket
new_socket-SocketOutcome k none none s = by_socket (ltb_ℤ k.socket (pos 0)) refl
  where
    by_socket :
        (b : Bool)
        → ltb_ℤ k.socket (pos 0) ≡ b
        → SocketOutcome k none none s
            (if b then (k.socket, s) else (negsuc 0, close k.socket (open_fd k.socket s)))
    by_socket true e = failed _ _ refl e refl refl
    by_socket false e = failed _ _ refl refl (without_fd_head k.socket s.opened) refl
new_socket-SocketOutcome k none (some p) s = by_socket (ltb_ℤ k.socket (pos 0)) refl
  where
    by_socket :
        (b : Bool)
        → ltb_ℤ k.socket (pos 0) ≡ b
        → SocketOutcome k none
            (some p)
            s
            (if b then (k.socket, s) else listen_on k p k.socket (open_fd k.socket s))
    by_socket true e = failed _ _ refl e refl refl
    by_socket false e = listen_on-SocketOutcome k s p e
new_socket-SocketOutcome k (some a) none s = by_socket (ltb_ℤ k.socket (pos 0)) refl
  where
    by_socket :
        (b : Bool)
        → ltb_ℤ k.socket (pos 0) ≡ b
        → SocketOutcome k
            (some a)
            none
            s
            (if b then (k.socket, s) else (negsuc 0, close k.socket (open_fd k.socket s)))
    by_socket true e = failed _ _ refl e refl refl
    by_socket false e = failed _ _ refl refl (without_fd_head k.socket s.opened) refl
new_socket-SocketOutcome k (some a) (some p) s =
    by_calls (eq_ℤ (k.getaddrinfo a p) (pos 0)) (ltb_ℤ k.socket (pos 0)) refl refl
  where
    by_calls :
        (g b : Bool)
        → eq_ℤ (k.getaddrinfo a p) (pos 0) ≡ g
        → ltb_ℤ k.socket (pos 0) ≡ b
        → SocketOutcome k (some a) (some p) s (
            if not g
            then (negsuc 0, s)
            else (if b
                then (k.socket, with_addrinfo s)
                else connect_to k k.socket (open_fd k.socket (with_addrinfo s))))
    by_calls false b l e = failed _ _ (rw l refl) refl refl refl
    by_calls true true l e = leaked a p _ refl refl (rw (l, e) refl) refl refl
    by_calls true false l e = connect_to-SocketOutcome k s a p l e
