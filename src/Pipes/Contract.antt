-- ===== src/Pipes/Contract.antt =====
-- The listener table against the list of its live descriptors.
use tapi2p.Base.{
  ℕ, zero, suc, ◌+◌, ◌-◌, ◌<◌, ◌≤◌, ◌≡◌, ◌⊎◌, refl, sym, ap, subst, ◌∙◌, inl, inr, ℤ, pos, eq_ℤ,
  eq_ℤ-refl, eq_ℤ→eq, none, some, List, [], ◌∷◌, ◌++◌, map, Bool, true, false, ◌||◌, lt→ltb,
  if◌then◌else◌, set, length, length-set, length-map, Bool-cases, arith, replicate,
}
use tapi2p.Pipes.{
  max_pipe_listeners, no_fd, fd_clr, Pipes, pipe_init, has_free, added, pipe_add, remove_loop,
  after_removal, pipe_remove,
}
use tapi2p.Pipes.Slots.{
  live, member, without, Laid, has_free-Laid, live-set, Laid-set, clear_cell, Laid-clear,
  live-clear, remove_loop-Removed,
}

-- `pipe_fds` has its MAX_PIPE_LISTENERS cells, `pipe_slot` is one of them, it and all cells behind
-- it are free, and `pipeset` holds the descriptors that listen.
pub record IsPipes (p : Pipes) : Type 0 where
  pub full : length p.fds ≡ max_pipe_listeners
  pub started : 0 < p.bound
  pub inside : p.bound ≤ max_pipe_listeners
  pub laid : Laid (p.bound - 1) p.fds
  pub listed : (x : ℤ) → eq_ℤ x no_fd ≡ false → p.pipeset x ≡ member x (live p.fds)

eq_ℤ-sym : (a b : ℤ) → eq_ℤ a b ≡ eq_ℤ b a
eq_ℤ-sym a b = ground arith

member-append : (x c : ℤ) (cs : List ℤ) → member x (cs ++ (c ∷ [])) ≡ (member x cs || eq_ℤ c x)
member-append x c [] = ground arith
member-append x c (d ∷ cs) = ground (arith, member-append x c cs)

member-live : (x : ℤ) (cs : List ℤ) → eq_ℤ x no_fd ≡ false → member x (live cs) ≡ member x cs
member-live x [] n = refl
member-live x (c ∷ cs) n = elim (Bool-cases (eq_ℤ c no_fd)) [
  | inl y ↦ rw y (
      member-live x cs n
      ∙ sym (
          ap (λ (b : Bool). b || member x cs)
            (ap (λ (z : ℤ). eq_ℤ z x) (eq_ℤ→eq c no_fd y) ∙ eq_ℤ-sym no_fd x ∙ n)))
  | inr z ↦ rw z (ap (λ (b : Bool). eq_ℤ c x || b) (member-live x cs n))
]

member-without :
    (x fd : ℤ) (cs : List ℤ) → member x (without fd cs) ≡ (if eq_ℤ x fd then false else member x cs)
member-without x fd [] = ground arith
member-without x fd (c ∷ cs) = ground (arith, member-without x fd cs)

pub Laid-replicate : (n : ℕ) → Laid 0 (replicate n no_fd)
Laid-replicate zero = tt
Laid-replicate (suc n) = (refl, Laid-replicate n)

-- pipe_init leaves no listener.
pub pipe_init-IsPipes : (p : Pipes) → IsPipes (pipe_init p) × (live (pipe_init p).fds ≡ [])
pipe_init-IsPipes p = (
  record {
    full = refl;
    started = omega arith;
    inside = omega arith;
    laid = Laid-replicate max_pipe_listeners;
    listed = λ x n. refl;
  },
  refl,
)

pub pipe_add-added : (p : Pipes) (fd : ℤ) → IsPipes p → pipe_add p fd ≡ some (added p fd)
unfolding pipe_add
pipe_add-added p fd v = rw (pipe_add, free, lt→ltb (p.bound - 1) (length p.fds) (omega arith))
  where
    open v use {full, started, inside, laid}

    index : p.bound ≡ suc (p.bound - 1)
    index = omega arith

    free : has_free p.bound p.fds ≡ some true
    free =
        ap (λ (n : ℕ). has_free n p.fds) index
        ∙ has_free-Laid (p.bound - 1) p.fds laid (omega arith)

-- While `pipe_slot` has a cell to go to, pipe_add puts the descriptor behind the others, whatever
-- cells have come free before, and select watches it.
pub pipe_add-live :
    (p : Pipes) (fd : ℤ)
    → IsPipes p
    → eq_ℤ fd no_fd ≡ false
    → p.bound < max_pipe_listeners
    → (p' : Pipes) × (pipe_add p fd ≡ some p')
      × (live p'.fds ≡ live p.fds ++ (fd ∷ []))
      × (p'.pipeset fd ≡ true)
      × IsPipes p'
pipe_add-live p fd v n room = (
  added p fd,
  pipe_add-added p fd v,
  more,
  rw (eq_ℤ-refl fd),
  record {
    full = length-set p.fds (p.bound - 1) fd ∙ v.full;
    started = omega arith;
    inside = omega arith;
    laid =
        subst (λ k. Laid k (set p.fds (p.bound - 1) fd)) index
          (Laid-set (p.bound - 1) p.fds fd v.laid);
    listed = λ x m. sym (
        ap (member x) more
        ∙ member-append x fd (live p.fds)
        ∙ ground (arith, v.listed x m, eq_ℤ-sym x fd));
  },
)
  where
    index : suc (p.bound - 1) ≡ p.bound + 1 - 1
    index = omega (arith, v.started)

    more : live (added p fd).fds ≡ live p.fds ++ (fd ∷ [])
    more = live-set (p.bound - 1) p.fds fd v.laid (omega (arith, v.full, v.started, v.inside)) n

has_free-short :
    (n : ℕ) (cs : List ℤ) → length cs < n → (has_free n cs ≡ none) ⊎ (has_free n cs ≡ some true)
unfolding has_free
has_free-short zero cs h = elim h [ ]
has_free-short (suc n) [] h = inl refl
has_free-short (suc n) (c ∷ cs) h = elim (Bool-cases (eq_ℤ c no_fd)) [
  | inl y ↦ inr (rw y)
  | inr z ↦ rw z (has_free-short n cs (omega arith))
]

pipe_add-short :
    (p : Pipes) (fd : ℤ)
    → length p.fds ≡ max_pipe_listeners
    → p.bound ≡ max_pipe_listeners + 1
    → pipe_add p fd ≡ none
unfolding pipe_add
pipe_add-short p fd l b = elim (has_free-short p.bound p.fds (omega arith)) [
  | inl e ↦ rw (pipe_add, e)
  | inr e ↦ ground (arith, e)
]

-- Once `pipe_slot` has passed the last cell, every call of pipe_add goes outside `pipe_fds`,
-- however many cells have come free.
pub pipe_add_last :
    (p : Pipes) (fd other : ℤ)
    → IsPipes p
    → p.bound ≡ max_pipe_listeners
    → (p' : Pipes) × (pipe_add p fd ≡ some p') × (pipe_add p' other ≡ none)
pipe_add_last p fd other v b = (
  added p fd,
  pipe_add-added p fd v,
  pipe_add-short (added p fd) other (length-set p.fds (p.bound - 1) fd ∙ v.full)
      (ap (λ (n : ℕ). n + 1) b),
)

-- pipe_remove takes every occurrence of the descriptor out of the listeners and out of the set that
-- select watches, and leaves the others in their order.
pub pipe_remove-live :
    (p : Pipes) (fd : ℤ)
    → IsPipes p
    → eq_ℤ fd no_fd ≡ false
    → (p' : Pipes) × (pipe_remove p fd ≡ some p')
      × (live p'.fds ≡ without fd (live p.fds))
      × (p'.pipeset fd ≡ false)
      × IsPipes p'
unfolding pipe_remove
pipe_remove-live p fd v n = finish (
    remove_loop-Removed (p.bound - 1) fd 0 p.bound p.fd_max (pos 0) p.fds laid (omega arith) n
      (omega arith))
  where
    open v use {full, started, inside, laid, listed}

    cleared_set : ℤ → Bool
    cleared_set = if member fd p.fds then fd_clr fd p.pipeset else p.pipeset

    cleared_set-lem :
        (x : ℤ)
        → eq_ℤ x no_fd ≡ false
        → cleared_set x ≡ (if eq_ℤ x fd then false else member x (live p.fds))
    cleared_set-lem x m = elim (Bool-cases (member fd p.fds)) [
      | inl y ↦ rw y (ap (λ (b : Bool). if eq_ℤ x fd then false else b) (listed x m))
      | inr z ↦ rw z (elim (Bool-cases (eq_ℤ x fd)) [
        | inl w ↦ rw w (ap p.pipeset (eq_ℤ→eq x fd w) ∙ listed fd n ∙ member-live fd p.fds n ∙ z)
        | inr w ↦ rw w (listed x m)
      ])
    ]

    finish :
        (m : ℤ) × (remove_loop fd 0 p.bound p.fd_max (pos 0) p.fds
            ≡ some (record {
              cells = map (clear_cell fd) p.fds;
              bound = p.bound;
              fd_max = m;
              cleared = member fd p.fds;
            }))
        → (p' : Pipes) × (after_removal p fd (remove_loop fd 0 p.bound p.fd_max (pos 0) p.fds)
            ≡ some p')
          × (live p'.fds ≡ without fd (live p.fds))
          × (p'.pipeset fd ≡ false)
          × IsPipes p'
    finish (m, e) = (
      record {
        pipeset = cleared_set;
        fds = map (clear_cell fd) p.fds;
        bound = p.bound;
        fd_max = m;
      },
      ap (after_removal p fd) e,
      live-clear p.fds fd n,
      cleared_set-lem fd n
          ∙ ap (λ (b : Bool). if b then false else member fd (live p.fds)) (eq_ℤ-refl fd),
      record {
        full = length-map p.fds (clear_cell fd) ∙ full;
        started = started;
        inside = inside;
        laid = Laid-clear (p.bound - 1) p.fds fd laid;
        listed = λ x k.
            cleared_set-lem x k
            ∙ sym (ap (member x) (live-clear p.fds fd n) ∙ member-without x fd (live p.fds));
      },
    )
