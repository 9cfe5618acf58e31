-- ===== src/Pipes/Slots.antt =====
-- The cells of `pipe_fds` as a list of listeners: what pipe_add and pipe_remove do to it.
use tapi2p.Base.{
  ℕ, zero, suc, ◌+◌, ◌<◌, ◌≤◌, ◌≡◌, refl, sym, ap, subst, ◌∙◌, inl, inr, ℤ, pos, eq_ℤ, ltb_ℤ,
  eq_ℤ→eq, Option, some, List, [], ◌∷◌, ◌++◌, map, Bool, true, false, ◌&&◌, ◌||◌, lt→ltb, ◌==◌,
  if◌then◌else◌, set, length, Bool-cases, arith,
}
use tapi2p.Pipes.{no_fd, has_free, Removal, behind, remove_loop}

-- The descriptors that listen.
abbrev pub live : List ℤ → List ℤ
live [] = []
live (c ∷ cs) = if eq_ℤ c no_fd then live cs else c ∷ live cs

abbrev pub member : ℤ → List ℤ → Bool
member x [] = false
member x (c ∷ cs) = eq_ℤ c x || member x cs

abbrev pub without : ℤ → List ℤ → List ℤ
without x [] = []
without x (c ∷ cs) = if eq_ℤ c x then without x cs else c ∷ without x cs

-- From cell `k` on all cells are free.
abbrev pub Laid : ℕ → List ℤ → Type 0
Laid zero [] = Unit {0}
Laid zero (c ∷ cs) = (c ≡ no_fd) × Laid zero cs
Laid (suc k) [] = Unit {0}
Laid (suc k) (c ∷ cs) = Laid k cs

pub has_free-Laid :
    (k : ℕ) (cs : List ℤ) → Laid k cs → k < length cs → has_free (suc k) cs ≡ some true
unfolding has_free
has_free-Laid k [] l h = absurd (omega arith)
has_free-Laid zero (c ∷ cs) l h = ground arith
has_free-Laid (suc k) (c ∷ cs) l h = ground (arith, has_free-Laid k cs l)

live-Laid : (cs : List ℤ) → Laid zero cs → live cs ≡ []
live-Laid [] l = refl
live-Laid (c ∷ cs) l = ground (arith, live-Laid cs l.1)

pub live-set :
    (k : ℕ) (cs : List ℤ) (fd : ℤ)
    → Laid k cs
    → k < length cs
    → eq_ℤ fd no_fd ≡ false
    → live (set cs k fd) ≡ live cs ++ (fd ∷ [])
live-set k [] fd l h n = absurd (omega arith)
live-set zero (c ∷ cs) fd l h n = ground (arith, live-Laid cs l.1)
live-set (suc k) (c ∷ cs) fd l h n = ground (arith, live-set k cs fd l)

pub Laid-set : (k : ℕ) (cs : List ℤ) (fd : ℤ) → Laid k cs → Laid (suc k) (set cs k fd)
Laid-set k [] fd l = tt
Laid-set zero (c ∷ cs) fd l = l.1
Laid-set (suc k) (c ∷ cs) fd l = Laid-set k cs fd l

abbrev pub clear_cell : ℤ → ℤ → ℤ
clear_cell fd c = if eq_ℤ c fd then no_fd else c

pub Laid-clear : (k : ℕ) (cs : List ℤ) (fd : ℤ) → Laid k cs → Laid k (map (clear_cell fd) cs)
Laid-clear zero [] fd l = tt
Laid-clear zero (c ∷ cs) fd l = (ground arith, Laid-clear zero cs fd l.1)
Laid-clear (suc k) [] fd l = tt
Laid-clear (suc k) (c ∷ cs) fd l = Laid-clear k cs fd l

clear-Laid : (cs : List ℤ) (fd : ℤ) → Laid zero cs → map (clear_cell fd) cs ≡ cs
clear-Laid [] fd l = refl
clear-Laid (c ∷ cs) fd l = ground (arith, clear-Laid cs fd l.1)

pub live-clear :
    (cs : List ℤ) (fd : ℤ)
    → eq_ℤ fd no_fd ≡ false
    → live (map (clear_cell fd) cs) ≡ without fd (live cs)
live-clear [] fd n = refl
live-clear (c ∷ cs) fd n = elim (Bool-cases (eq_ℤ c no_fd)) [
  | inl y ↦ rw (eq_ℤ→eq c no_fd y) (ground (arith, live-clear cs fd n))
  | inr z ↦ elim (Bool-cases (eq_ℤ c fd)) [
    | inl y ↦ rw (y, z) (rw y (live-clear cs fd n))
    | inr w ↦ rw (w, z) (rw w (ap (◌∷◌ c) (live-clear cs fd n)))
  ]
]

-- What the loop of pipe_remove leaves in front of free cells.
abbrev pub Removed : ℤ → List ℤ → ℕ → Option Removal → Type 0
Removed fd cs bound r =
    (m : ℤ) × (r
      ≡ some (record {
        cells = map (clear_cell fd) cs;
        bound = bound;
        fd_max = m;
        cleared = member fd cs;
      }))

member-Laid : (cs : List ℤ) (fd : ℤ) → Laid zero cs → eq_ℤ fd no_fd ≡ false → member fd cs ≡ false
member-Laid [] fd l n = refl
member-Laid (c ∷ cs) fd l n = ground (arith, member-Laid cs fd l.1 n)

remove_loop-end :
    (fd : ℤ) (i bound : ℕ) (max second : ℤ) (cs : List ℤ)
    → bound ≤ i
    → remove_loop fd i bound max second cs
      ≡ some (record { cells = cs; bound = bound; fd_max = max; cleared = false })
unfolding remove_loop
remove_loop-end fd i bound max second [] h = ground arith
remove_loop-end fd i bound max second (c ∷ cs) h = ground arith

Removed-hit :
    (fd c : ℤ) (cs : List ℤ) (bound : ℕ) (r : Option Removal)
    → eq_ℤ c fd ≡ true
    → Removed fd cs bound r
    → Removed fd (c ∷ cs) bound (behind no_fd true r)
Removed-hit fd c cs bound r e (m, q) = (m, ap (behind no_fd true) q ∙ rw e)

Removed-miss :
    (fd c : ℤ) (cs : List ℤ) (bound : ℕ) (r : Option Removal)
    → eq_ℤ c fd ≡ false
    → Removed fd cs bound r
    → Removed fd (c ∷ cs) bound (behind c false r)
Removed-miss fd c cs bound r e (m, q) = (m, ap (behind c false) q ∙ rw e)

module _ (fd c : ℤ) (i bound : ℕ) (max second : ℤ) (cs : List ℤ) (inside : i + 1 < bound) where
  abbrev second_next : ℤ
  second_next = if ltb_ℤ second c && ltb_ℤ c max then pos i else second

  remove_loop-hit :
      eq_ℤ c fd ≡ true
      → remove_loop fd i bound max second (c ∷ cs)
        ≡ behind no_fd true
            (remove_loop fd (i + 1) bound (if eq_ℤ fd max then second_next else max) second_next cs)
  unfolding remove_loop
  remove_loop-hit e = rw (lt→ltb i bound (omega arith), e) (rw (not_last))
    where
      not_last : (i + 1 == bound) ≡ false
      not_last = ground arith

  remove_loop-miss :
      i < bound
      → eq_ℤ c fd ≡ false
      → remove_loop fd i bound max second (c ∷ cs)
        ≡ behind c false (remove_loop fd (i + 1) bound max second_next cs)
  unfolding remove_loop
  remove_loop-miss h e = rw (lt→ltb i bound h, e)

pub remove_loop-Removed :
    (k : ℕ) (fd : ℤ) (i bound : ℕ) (max second : ℤ) (cs : List ℤ)
    → Laid k cs
    → k < length cs
    → eq_ℤ fd no_fd ≡ false
    → bound ≡ i + suc k
    → Removed fd cs bound (remove_loop fd i bound max second cs)
unfolding remove_loop
remove_loop-Removed k fd i bound max second [] l h n b = absurd (omega arith)
remove_loop-Removed zero fd i bound max second (c ∷ cs) l h n b = (
  max,
  rw (lt→ltb i bound (omega arith), free_cell)
      (ap (behind c false) (remove_loop-end fd (i + 1) bound max _ cs (omega arith))
        ∙ rw (clear-Laid cs fd l.1, member-Laid cs fd l.1 n)),
)
  where
    free_cell : eq_ℤ c fd ≡ false
    free_cell = ground arith
remove_loop-Removed (suc k) fd i bound max second (c ∷ cs) l h n b = elim (Bool-cases (eq_ℤ c fd)) [
  | inl e ↦
      subst (Removed fd (c ∷ cs) bound)
        (sym (remove_loop-hit fd c i bound max second cs (omega arith) e))
        (Removed-hit fd c cs bound _ e
          (remove_loop-Removed k fd (i + 1) bound _ _ cs l (omega arith) n (omega arith)))
  | inr e ↦
      subst (Removed fd (c ∷ cs) bound)
        (sym (remove_loop-miss fd c i bound max second cs (omega arith) (omega arith) e))
        (Removed-miss fd c cs bound _ e
          (remove_loop-Removed k fd (i + 1) bound max _ cs l (omega arith) n (omega arith)))
]
