-- ===== src/Core/Receive/Laws.antt =====
-- When the payload arrives in pieces, it is put together; when the peer closes, the loop never ends.
use mathlib.Core.List.{append_assoc}
use tapi2p.Base.{
  ℕ, zero, suc, ◌+◌, ◌%◌, ◌^◌, ◌<◌, ◌≤◌, ◌≡◌, refl, sym, ap, ap₂, ◌∙◌, List, [], ◌∷◌, ◌++◌, map,
  lt→ltb, drop, length, length-append, replicate, take_ge, drop-drop, length-drop, not_less, le→leb,
  overwrite-front, arith,
}
use tapi2p.Core.Receive.{bytes, closed, Progress, done, waiting, refused, receive_loop}

-- The pieces in order.
abbrev pub joined : List (List ℕ) → List ℕ
joined [] = []
joined (xs ∷ xss) = xs ++ joined xss

abbrev pub Nonempty : List (List ℕ) → Type 0
Nonempty [] = Unit {0}
Nonempty (xs ∷ xss) = (0 < length xs) × Nonempty xss

-- A connection that the peer closes in the middle of a payload keeps read_thread in the loop: for
-- every number of recv calls, all of which return 0, it is still waiting for the same bytes.
pub receive_loop-closed :
    (total n : ℕ) (p : Progress)
    → p.received < total
    → total < 2 ^ 32
    → (q : Progress) × (receive_loop total p (replicate n closed) ≡ waiting q)
      × (q.received ≡ p.received)
      × (q.removals ≡ p.removals + n)
unfolding receive_loop
receive_loop-closed total zero p h l = (p, rw (lt→ltb p.received total h), refl, omega arith)
receive_loop-closed total (suc n) p h l =
    extend (receive_loop-closed total n (refused 0 p) (omega arith) l)
  where
    extend :
        ((q : Progress) × (receive_loop total (refused 0 p) (replicate n closed) ≡ waiting q)
          × (q.received ≡ (refused 0 p).received)
          × (q.removals ≡ (refused 0 p).removals + n))
        → (q : Progress) × (receive_loop total p (replicate (suc n) closed) ≡ waiting q)
          × (q.received ≡ p.received)
          × (q.removals ≡ p.removals + suc n)
    extend (q, e, r, k) = (q, rw (lt→ltb p.received total h) e, omega arith, omega arith)

-- The buffer holds `front` already and has room for the pieces: the loop puts them behind it.
filled :
    (total k : ℕ) (front : List ℕ) (xss : List (List ℕ)) (room : List ℕ)
    → Nonempty xss
    → length front + length (joined xss) ≡ total
    → length (joined xss) ≤ length room
    → total < 2 ^ 32
    → receive_loop total
        (record { buf = front ++ room; received = length front; removals = k })
        (map bytes xss)
      ≡ done (record {
        buf = front ++ (joined xss ++ drop (length (joined xss)) room);
        received = total;
        removals = k;
      })
unfolding receive_loop
filled total k front [] room ne e r l = rw (not_less (length front) total (omega arith)) (
    ap (λ (n : ℕ). done (record { buf = front ++ room; received = n; removals = k })) (omega arith))
filled total k front (xs ∷ xss) room ne e r l =
    rw
      (
        lt→ltb (length front) total (omega (arith, length-append xs (joined xss))),
        take_ge total xs (omega (arith, length-append xs (joined xss))),
        le→leb (length front + length xs) (length (front ++ room))
            (omega (arith, length-append front room, length-append xs (joined xss))),
      )
      (ap₂
          (λ (b : List ℕ) (n : ℕ).
            receive_loop total (record { buf = b; received = n; removals = k }) (map bytes xss))
          (overwrite-front front xs room) size
        ∙ filled total k (front ++ xs) xss (drop (length xs) room) ne.1
            (omega (arith, length-append front xs, length-append xs (joined xss)))
            (omega (arith, length-drop (length xs) room, length-append xs (joined xss))) l
        ∙ ap (λ (b : List ℕ). done (record { buf = b; received = total; removals = k })) tidy)
  where
    size : (length front + length xs) % 2 ^ 32 ≡ length (front ++ xs)
    size = omega (arith, length-append front xs, length-append xs (joined xss))

    tidy :
        (front ++ xs) ++ (joined xss ++ drop (length (joined xss)) (drop (length xs) room))
        ≡ front ++ ((xs ++ joined xss) ++ drop (length (xs ++ joined xss)) room)
    tidy =
        append_assoc front xs _
        ∙ ap (◌++◌ front) (
            sym (append_assoc xs (joined xss) _)
            ∙ ap (◌++◌ (xs ++ joined xss)) (
                drop-drop (length xs) (length (joined xss)) room
                ∙ ap (λ (n : ℕ). drop n room) (sym (length-append xs (joined xss)))))

-- When recv delivers the payload in any non-empty pieces that make it up exactly, the loop ends with
-- the payload at the start of the buffer, what lay behind it untouched, and the peer not removed.
pub receive_loop-joined :
    (total : ℕ) (xss : List (List ℕ)) (room : List ℕ)
    → Nonempty xss
    → length (joined xss) ≡ total
    → total ≤ length room
    → total < 2 ^ 32
    → receive_loop total (record { buf = room; received = 0; removals = 0 }) (map bytes xss)
      ≡ done (record { buf = joined xss ++ drop total room; received = total; removals = 0 })
receive_loop-joined total xss room ne e r l =
    filled total 0 [] xss room ne (omega arith) (omega arith) l
    ∙ ap
        (λ (n : ℕ).
          done (record { buf = joined xss ++ drop n room; received = total; removals = 0 }))
        e
