-- ===== src/Peers/Sockets/Watching.antt =====
-- A peer in the sets is watched on the sockets that the threads use.
use tapi2p.Base.{
  FdSet, fd_set, fd_clr, ◌≡◌, ◌⊎◌, inl, inr, ℤ, pos, eq_ℤ, ltb_ℤ, leb_ℤ, true, false, if◌then◌else◌,
  some, eq_ℤ-refl, Bool-cases, arith,
}
use tapi2p.Peers.Sockets.{
  socket_oneway, Sets, watch_write, watch_read, watch_in, peer_addtoset, peer_removefromset,
  recv_socket, send_socket,
}

-- select(max + 1, …) covers every descriptor of the set.
abbrev pub Covers : ℤ → FdSet → Type 0
Covers max s = (x : ℤ) → s x ≡ true → leb_ℤ x max ≡ true

pub record IsCovered (s : Sets) : Type 0 where
  pub reads : Covers s.read_max s.readset
  pub writes : Covers s.write_max s.writeset

leb_ℤ-trans : (a b c : ℤ) → leb_ℤ a b ≡ true → leb_ℤ b c ≡ true → leb_ℤ a c ≡ true
leb_ℤ-trans a b c p q = ground arith

Covers-fd_set :
    (max fd : ℤ) (s : FdSet)
    → Covers max s
    → Covers (if ltb_ℤ max fd then fd else max) (fd_set fd s)
Covers-fd_set max fd s c x h = ground (arith, c x)

Covers-fd_clr : (max fd : ℤ) (s : FdSet) → Covers max s → Covers max (fd_clr fd s)
Covers-fd_clr max fd s c x h = ground (arith, c x)

-- A connected peer: each socket is open or SOCKET_ONEWAY, one is open, and they differ.
abbrev pub IsSocket : ℤ → Type 0
IsSocket fd = (leb_ℤ (pos 0) fd ≡ true) ⊎ (fd ≡ socket_oneway)

abbrev pub IsConnected : ℤ → ℤ → Type 0
IsConnected isock osock = IsSocket isock × IsSocket osock × (eq_ℤ isock osock ≡ false)

watch_read-IsCovered : (fd : ℤ) (s : Sets) → IsCovered s → IsCovered (watch_read fd s)
watch_read-IsCovered fd s c = record {
  reads = Covers-fd_set s.read_max fd s.readset c.reads;
  writes = c.writes;
}

watch_write-IsCovered : (fd : ℤ) (s : Sets) → IsCovered s → IsCovered (watch_write fd s)
watch_write-IsCovered fd s c = record {
  reads = c.reads;
  writes = Covers-fd_set s.write_max fd s.writeset c.writes;
}

watch_in-IsCovered : (isock osock : ℤ) (s : Sets) → IsCovered s → IsCovered (watch_in isock osock s)
watch_in-IsCovered isock osock s c = elim (Bool-cases (leb_ℤ (pos 0) isock)) [
  | inl y ↦ rw y (watch_read-IsCovered isock s c)
  | inr z ↦ rw z (watch_read-IsCovered osock s c)
]

-- The sets after peer_addtoset: the socket that read_thread reads is in the read set, the socket
-- that events are sent on is in the write set, and select covers both.
pub record IsWatched (isock osock : ℤ) (s : Sets) : Type 0 where
  pub read_watched : s.readset (recv_socket isock osock) ≡ true
  pub write_watched : s.writeset (send_socket isock osock) ≡ true
  pub covered : IsCovered s

module _ (isock osock : ℤ) (s : Sets) (c : IsCovered s) where
  added_both :
      leb_ℤ (pos 0) isock ≡ true
      → leb_ℤ (pos 0) osock ≡ true
      → IsWatched isock osock (watch_in isock osock (watch_write osock s))
  unfolding recv_socket send_socket
  added_both i o = record {
    read_watched = ground (arith, eq_ℤ-refl isock);
    write_watched = ground (arith, eq_ℤ-refl osock);
    covered = watch_in-IsCovered isock osock _ (watch_write-IsCovered osock s c);
  }

  added_out :
      isock ≡ socket_oneway
      → leb_ℤ (pos 0) osock ≡ true
      → IsWatched isock osock (watch_in isock osock (watch_write osock s))
  unfolding recv_socket send_socket
  added_out i o = record {
    read_watched = ground (arith, eq_ℤ-refl osock);
    write_watched = ground (arith, eq_ℤ-refl osock);
    covered = watch_in-IsCovered isock osock _ (watch_write-IsCovered osock s c);
  }

  added_in :
      leb_ℤ (pos 0) isock ≡ true
      → osock ≡ socket_oneway
      → IsWatched isock osock (watch_in isock osock (watch_write isock s))
  unfolding recv_socket send_socket
  added_in i o = record {
    read_watched = ground (arith, eq_ℤ-refl isock);
    write_watched = ground (arith, eq_ℤ-refl isock);
    covered = watch_in-IsCovered isock osock _ (watch_write-IsCovered isock s c);
  }

-- A connected peer that is added is watched for reading and for writing on the sockets that the
-- core reads from and sends on, also where the connection is one way, and the sets stay covered by
-- the maxima that select is given.
pub peer_addtoset-IsWatched :
    (isock osock : ℤ) (s : Sets)
    → IsCovered s
    → IsConnected isock osock
    → (s' : Sets) × (peer_addtoset isock osock s ≡ some (pos 0, s')) × IsWatched isock osock s'
unfolding peer_addtoset
peer_addtoset-IsWatched isock osock s c (inl i, inl o, ne) =
    (_, rw (ne, o), added_both isock osock s c i o)
peer_addtoset-IsWatched isock osock s c (inr i, inl o, ne) =
    (_, rw (ne, o), added_out isock osock s c i o)
peer_addtoset-IsWatched isock osock s c (inl i, inr o, ne) =
    (_, rw (ne, o) (rw i), added_in isock osock s c i o)
peer_addtoset-IsWatched isock osock s c (inr i, inr o, ne) = ground (arith, i, o, ne)

-- peer_removefromset takes a peer that has connected to us out of the read set, and both its
-- sockets out of the write set.
pub peer_removefromset-unwatched :
    (isock osock : ℤ) (s : Sets)
    → leb_ℤ (pos 0) isock ≡ true
    → ((peer_removefromset isock osock s).readset (recv_socket isock osock) ≡ false)
      × ((peer_removefromset isock osock s).writeset isock ≡ false)
      × ((peer_removefromset isock osock s).writeset osock ≡ false)
unfolding peer_removefromset recv_socket
peer_removefromset-unwatched isock osock s i = (
  ground (arith, eq_ℤ-refl isock),
  ground (arith, eq_ℤ-refl isock),
  ground (arith, eq_ℤ-refl isock, eq_ℤ-refl osock),
)

-- A peer that only we have connected to is still in the read set after peer_addtoset and
-- peer_removefromset: the socket that read_thread reads it on is cleared from the write set alone.
pub peer_removefromset-oneway :
    (isock osock : ℤ) (s s' : Sets)
    → isock ≡ socket_oneway
    → leb_ℤ (pos 0) osock ≡ true
    → peer_addtoset isock osock s ≡ some (pos 0, s')
    → ((peer_removefromset isock osock s').readset (recv_socket isock osock) ≡ true)
      × ((peer_removefromset isock osock s').writeset osock ≡ false)
unfolding peer_removefromset recv_socket peer_addtoset
peer_removefromset-oneway isock osock s s' i o e =
    (ground (arith, eq_ℤ-refl osock), ground (arith, eq_ℤ-refl osock))
