-- ===== src/Pipes/Refinement.antt =====
-- Sequences of calls of pipe_add and pipe_remove, against the list of listeners that they stand for.
use tapi2p.Base.{
  ℕ, suc, ◌+◌, ◌-◌, ◌≤◌, ◌<◌, ◌≡◌, sym, ap, subst, ◌∙◌, refl, arith, ℤ, pos, eq_ℤ, Option, none,
  some, List, [], ◌∷◌, ◌++◌, true, false,
}
use tapi2p.Pipes.{
  max_pipe_listeners, no_fd, Pipes, pipe_init, added, pipe_add, remove_loop, after_removal,
  pipe_remove,
}
use tapi2p.Pipes.Slots.{live, member, without, Removed, remove_loop-Removed}
use tapi2p.Pipes.Contract.{
  IsPipes, pipe_init-IsPipes, pipe_add-added, pipe_add-live, pipe_remove-live,
}

-- A listener connects, or goes.
pub data Call : Type 0 where
  joins : ℤ → Call
  leaves : ℤ → Call

abbrev pub call : Call → Pipes → Option Pipes
call (joins fd) p = pipe_add p fd
call (leaves fd) p = pipe_remove p fd

abbrev pub then_calls : (Pipes → Option Pipes) → Option Pipes → Option Pipes
then_calls f none = none
then_calls f (some p) = f p

unfoldable pub calls : List Call → Pipes → Option Pipes
unfolding pipe_add pipe_remove
calls [] p = some p
calls (c ∷ cs) p = then_calls (calls cs) (call c p)

-- What the calls do to the list of listeners.
abbrev pub on_list : Call → List ℤ → List ℤ
on_list (joins fd) fds = fds ++ (fd ∷ [])
on_list (leaves fd) fds = without fd fds

abbrev pub on_lists : List Call → List ℤ → List ℤ
on_lists [] fds = fds
on_lists (c ∷ cs) fds = on_lists cs (on_list c fds)

abbrev pub joined : List Call → ℕ
joined [] = 0
joined (joins fd ∷ cs) = suc (joined cs)
joined (leaves fd ∷ cs) = joined cs

abbrev fd_of : Call → ℤ
fd_of (joins fd) = fd
fd_of (leaves fd) = fd

abbrev pub AreFds : List Call → Type 0
AreFds [] = Unit {0}
AreFds (c ∷ cs) = (eq_ℤ (fd_of c) no_fd ≡ false) × AreFds cs

pipe_add-bound :
    (p p' : Pipes) (fd : ℤ) → IsPipes p → pipe_add p fd ≡ some p' → p'.bound ≡ p.bound + 1
pipe_add-bound p p' fd v e =
    let same : some (added p fd) ≡ some p' = sym (pipe_add-added p fd v) ∙ e in
    let same' : added p fd ≡ p' = cc in ap (λ (q : Pipes). q.bound) (sym same')

abbrev Bounded : ℕ → Option Pipes → Type 0
Bounded n none = Unit {0}
Bounded n (some p) = p.bound ≡ n

pipe_remove-bound :
    (p p' : Pipes) (fd : ℤ)
    → IsPipes p
    → eq_ℤ fd no_fd ≡ false
    → pipe_remove p fd ≡ some p'
    → p'.bound ≡ p.bound
unfolding pipe_remove
pipe_remove-bound p p' fd v n e = by_loop (
    remove_loop-Removed (p.bound - 1) fd 0 p.bound p.fd_max (pos 0) p.fds v.laid
      (omega (arith, v.full, v.started, v.inside)) n (omega (arith, v.started)))
  where
    same_bound : (o : Option Pipes) → Bounded p.bound o → o ≡ some p' → p'.bound ≡ p.bound
    same_bound o h w = subst (Bounded p.bound) w h

    by_loop :
        Removed fd p.fds p.bound (remove_loop fd 0 p.bound p.fd_max (pos 0) p.fds)
        → p'.bound ≡ p.bound
    by_loop (m, q) =
        same_bound (after_removal p fd (some _)) refl (sym (ap (after_removal p fd) q) ∙ e)

-- One call, with room for it if it is a pipe_add.
call-on_list :
    (c : Call) (cs : List Call) (p : Pipes)
    → IsPipes p
    → eq_ℤ (fd_of c) no_fd ≡ false
    → p.bound + joined (c ∷ cs) ≤ max_pipe_listeners
    → (p' : Pipes) × (call c p ≡ some p')
      × (live p'.fds ≡ on_list c (live p.fds))
      × IsPipes p'
      × (p'.bound + joined cs ≤ max_pipe_listeners)
call-on_list (joins fd) cs p v n room = finish (pipe_add-live p fd v n (omega arith))
  where
    finish :
        (p' : Pipes) × (pipe_add p fd ≡ some p')
          × (live p'.fds ≡ live p.fds ++ (fd ∷ []))
          × (p'.pipeset fd ≡ true)
          × IsPipes p'
        → (p' : Pipes) × (pipe_add p fd ≡ some p')
          × (live p'.fds ≡ live p.fds ++ (fd ∷ []))
          × IsPipes p'
          × (p'.bound + joined cs ≤ max_pipe_listeners)
    finish (p', e, l, w, v') = (p', e, l, v', omega (arith, pipe_add-bound p p' fd v e))
call-on_list (leaves fd) cs p v n room = finish (pipe_remove-live p fd v n)
  where
    finish :
        (p' : Pipes) × (pipe_remove p fd ≡ some p')
          × (live p'.fds ≡ without fd (live p.fds))
          × (p'.pipeset fd ≡ false)
          × IsPipes p'
        → (p' : Pipes) × (pipe_remove p fd ≡ some p')
          × (live p'.fds ≡ without fd (live p.fds))
          × IsPipes p'
          × (p'.bound + joined cs ≤ max_pipe_listeners)
    finish (p', e, l, w, v') = (p', e, l, v', omega (arith, pipe_remove-bound p p' fd v n e))

calls-on_lists :
    (cs : List Call) (p : Pipes)
    → IsPipes p
    → AreFds cs
    → p.bound + joined cs ≤ max_pipe_listeners
    → (p' : Pipes) × (calls cs p ≡ some p') × (live p'.fds ≡ on_lists cs (live p.fds)) × IsPipes p'
unfolding calls
calls-on_lists [] p v n room = (p, refl, refl, v)
calls-on_lists (c ∷ cs) p v n room =
    rest (λ q w r. calls-on_lists cs q w n.1 r) (call-on_list c cs p v n.0 room)
  where
    rest :
        ((q : Pipes)
          → IsPipes q
          → q.bound + joined cs ≤ max_pipe_listeners
          → (p' : Pipes) × (calls cs q ≡ some p')
            × (live p'.fds ≡ on_lists cs (live q.fds))
            × IsPipes p')
        → (p' : Pipes) × (call c p ≡ some p')
          × (live p'.fds ≡ on_list c (live p.fds))
          × IsPipes p'
          × (p'.bound + joined cs ≤ max_pipe_listeners)
        → (q : Pipes) × (calls (c ∷ cs) p ≡ some q)
          × (live q.fds ≡ on_lists (c ∷ cs) (live p.fds))
          × IsPipes q
    rest k (p', e, l, v', room') = finish (k p' v' room')
      where
        finish :
            (q : Pipes) × (calls cs p' ≡ some q)
              × (live q.fds ≡ on_lists cs (live p'.fds))
              × IsPipes q
            → (q : Pipes) × (calls (c ∷ cs) p ≡ some q)
              × (live q.fds ≡ on_lists (c ∷ cs) (live p.fds))
              × IsPipes q
        finish (q, e', l', v'') =
            (q, ap (then_calls (calls cs)) e ∙ e', l' ∙ ap (on_lists cs) l, v'')

-- After pipe_init, calls of pipe_add and pipe_remove in any order on descriptors other than -1, with
-- fewer than MAX_PIPE_LISTENERS calls of pipe_add, stay inside `pipe_fds` and implement the list of
-- listeners: the cells in use are the descriptors that the same calls leave in a list, in its
-- order, and the set that select is given holds exactly these. The bound fd_max that select is given with
-- it is left out.
pub calls-refine :
    (cs : List Call) (p : Pipes)
    → AreFds cs
    → joined cs < max_pipe_listeners
    → (p' : Pipes) × (calls cs (pipe_init p) ≡ some p')
      × (live p'.fds ≡ on_lists cs [])
      × ((x : ℤ) → eq_ℤ x no_fd ≡ false → p'.pipeset x ≡ member x (on_lists cs []))
calls-refine cs p n room =
    finish (calls-on_lists cs (pipe_init p) (pipe_init-IsPipes p).0 n (omega arith))
  where
    finish :
        (p' : Pipes) × (calls cs (pipe_init p) ≡ some p')
          × (live p'.fds ≡ on_lists cs (live (pipe_init p).fds))
          × IsPipes p'
        → (p' : Pipes) × (calls cs (pipe_init p) ≡ some p')
          × (live p'.fds ≡ on_lists cs [])
          × ((x : ℤ) → eq_ℤ x no_fd ≡ false → p'.pipeset x ≡ member x (on_lists cs []))
    finish (p', e, l, v) =
        let l' = l ∙ ap (on_lists cs) (pipe_init-IsPipes p).1 in
        (p', e, l', λ x m. v.listed x m ∙ ap (member x) l')
