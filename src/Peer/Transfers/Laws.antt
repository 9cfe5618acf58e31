-- ===== src/Peer/Transfers/Laws.antt =====
-- What create_file_transfer does to the slots and to their mutexes.
use tapi2p.Base.{
  zero, suc, get_elem?, set, ℕ, ◌≡◌, refl, sym, ap, subst, ◌∙◌, ◌⊎◌, inl, inr, Option, none, some,
  List, [], ◌∷◌, Bool, true, false, if◌then◌else◌, Bool-cases, arith,
}
use tapi2p.Peer.Types.{Metadata, FileTransfer}
use tapi2p.Peer.Transfers.{
  prepend, after_open, after_lock, get_and_lock_new_filetransfer, unlock_with, begun,
  create_file_transfer,
}

-- The change `f` made to the first slot that is not locked.
abbrev pub on_first_free : (FileTransfer → FileTransfer) → List FileTransfer → List FileTransfer
on_first_free f [] = []
on_first_free f (t ∷ ts) =
    if t.locked then t ∷ on_first_free f ts else record (f t) { locked = false } ∷ ts

abbrev pub HasUnlocked : List FileTransfer → Type 0
HasUnlocked [] = ⊥
HasUnlocked (t ∷ ts) = (t.locked ≡ false) ⊎ HasUnlocked ts

-- The states of the mutexes.
abbrev pub locks : List FileTransfer → List Bool
locks [] = []
locks (t ∷ ts) = t.locked ∷ locks ts

-- A slot that is free, is taken, and is released again, whatever was done to it in between.
pub locks-unlock_with :
    (g : FileTransfer → FileTransfer) (ts : List FileTransfer) (i : ℕ) (t a : FileTransfer)
    → get_elem? ts i ≡ some t
    → t.locked ≡ false
    → locks (unlock_with g i (set ts i a)) ≡ locks ts
unfolding unlock_with
locks-unlock_with g [] i t a e f = refl
locks-unlock_with g (x ∷ xs) zero t a e f =
    let same : x ≡ t = cc in
    ap (λ (b : Bool). b ∷ locks xs) (sym (ap (λ (y : FileTransfer). y.locked) same ∙ f))
locks-unlock_with g (x ∷ xs) (suc i) t a e f = ap (◌∷◌ x.locked) (locks-unlock_with g xs i t a e f)

-- The change does not look at the mutex.
abbrev pub Oblivious : (FileTransfer → FileTransfer) → Type 0
Oblivious f =
    (t : FileTransfer)
    → record (f (record t { locked = true })) { locked = false } ≡ record (f t) { locked = false }

abbrev Released :
    (FileTransfer → FileTransfer) → Option (ℕ × List FileTransfer) → List FileTransfer → Type 0
Released f none ts = on_first_free f ts ≡ ts
Released f (some (i, ts')) ts = unlock_with f i ts' ≡ on_first_free f ts

on_first_free-locked :
    (f : FileTransfer → FileTransfer) (t : FileTransfer) (ts : List FileTransfer)
    → t.locked ≡ true
    → on_first_free f (t ∷ ts) ≡ t ∷ on_first_free f ts
on_first_free-locked f t ts e =
    ap (λ (b : Bool). if b then t ∷ on_first_free f ts else record (f t) { locked = false } ∷ ts) e

on_first_free-unlocked :
    (f : FileTransfer → FileTransfer) (t : FileTransfer) (ts : List FileTransfer)
    → t.locked ≡ false
    → on_first_free f (t ∷ ts) ≡ record (f t) { locked = false } ∷ ts
on_first_free-unlocked f t ts e =
    ap (λ (b : Bool). if b then t ∷ on_first_free f ts else record (f t) { locked = false } ∷ ts) e

Released-prepend :
    (f : FileTransfer → FileTransfer) (r : Option (ℕ × List FileTransfer)) (t : FileTransfer)
    (ts : List FileTransfer)
    → t.locked ≡ true
    → Released f r ts
    → Released f (prepend t r) (t ∷ ts)
unfolding unlock_with
Released-prepend f none t ts e h = on_first_free-locked f t ts e ∙ ap (◌∷◌ t) h
Released-prepend f (some (i, ts')) t ts e h = ap (◌∷◌ t) h ∙ sym (on_first_free-locked f t ts e)

locked_then-Released :
    (f : FileTransfer → FileTransfer) (ts : List FileTransfer)
    → Oblivious f
    → Released f (get_and_lock_new_filetransfer ts) ts
unfolding get_and_lock_new_filetransfer unlock_with
locked_then-Released f [] o = refl
locked_then-Released f (t ∷ ts) o = elim (Bool-cases t.locked) [
  | inl e ↦
      subst (λ r. Released f r (t ∷ ts)) (step e)
        (Released-prepend f (get_and_lock_new_filetransfer ts) t ts e (locked_then-Released f ts o))
  | inr e ↦
      subst (λ r. Released f r (t ∷ ts)) (take_it e)
        (ap (λ (x : FileTransfer). x ∷ ts) (o t) ∙ first e)
]
  where
    step :
        t.locked ≡ true
        → prepend t (get_and_lock_new_filetransfer ts) ≡ get_and_lock_new_filetransfer (t ∷ ts)
    step e = ground arith

    take_it :
        t.locked ≡ false
        → some (0, record t { locked = true } ∷ ts) ≡ get_and_lock_new_filetransfer (t ∷ ts)
    take_it e = ground arith

    first : t.locked ≡ false → record (f t) { locked = false } ∷ ts ≡ on_first_free f (t ∷ ts)
    first e = sym (on_first_free-unlocked f t ts e)

locks-on_first_free :
    (f : FileTransfer → FileTransfer) (ts : List FileTransfer)
    → locks (on_first_free f ts) ≡ locks ts
locks-on_first_free f [] = refl
locks-on_first_free f (t ∷ ts) = ground (arith, locks-on_first_free f ts)

-- What create_file_transfer makes of the slots, by how the configuration and fopen answer.
abbrev pub outcome :
    Option (List ℕ) → (List ℕ → Option ℕ) → List ℕ → Metadata → FileTransfer → FileTransfer
outcome none opened sha md t = t
outcome (some path) opened sha md t = begun sha md (opened path) t

outcome-Oblivious :
    (name : Option (List ℕ)) (opened : List ℕ → Option ℕ) (sha : List ℕ) (md : Metadata)
    → Oblivious (outcome name opened sha md)
outcome-Oblivious none opened sha md t = refl
outcome-Oblivious (some path) opened sha md t = refl

after_open-unlock_with :
    (sha : List ℕ) (md : Metadata) (i : ℕ) (ts : List FileTransfer) (o : Option ℕ)
    → (after_open sha md i ts o).1 ≡ unlock_with (begun sha md o) i ts
after_open-unlock_with sha md i ts none = refl
after_open-unlock_with sha md i ts (some f) = refl

after_lock-Released :
    (name : Option (List ℕ)) (opened : List ℕ → Option ℕ) (ts : List FileTransfer) (sha : List ℕ)
    (md : Metadata) (r : Option (ℕ × List FileTransfer))
    → Released (outcome name opened sha md) r ts
    → (after_lock name opened ts sha md r).1 ≡ on_first_free (outcome name opened sha md) ts
after_lock-Released name opened ts sha md none h = sym h
after_lock-Released none opened ts sha md (some (i, ts')) h = h
after_lock-Released (some path) opened ts sha md (some (i, ts')) h =
    after_open-unlock_with sha md i ts' (opened path) ∙ h

-- Where create_file returns, which it does if the file can be read or made, create_file_transfer changes
-- the first unlocked slot alone, and leaves every mutex as it found it, on its error paths too:
-- without a free slot or an item in the configuration, and where the file does not open.
pub create_file_transfer-on_first_free :
    (name : Option (List ℕ)) (opened : List ℕ → Option ℕ) (ts : List FileTransfer) (sha : List ℕ)
    (md : Metadata)
    → ((create_file_transfer name opened ts sha md).1
        ≡ on_first_free (outcome name opened sha md) ts)
      × (locks (create_file_transfer name opened ts sha md).1 ≡ locks ts)
unfolding create_file_transfer
create_file_transfer-on_first_free name opened ts sha md =
    (changed, ap locks changed ∙ locks-on_first_free (outcome name opened sha md) ts)
  where
    changed :
        (create_file_transfer name opened ts sha md).1
        ≡ on_first_free (outcome name opened sha md) ts
    changed = after_lock-Released name opened ts sha md (get_and_lock_new_filetransfer ts) (
        locked_then-Released (outcome name opened sha md) ts (outcome-Oblivious name opened sha md))

on_first_free_twice :
    (f g : FileTransfer → FileTransfer) (ts : List FileTransfer)
    → ((t : FileTransfer)
        → record (g (record (f t) { locked = false })) { locked = false }
          ≡ record (g t) { locked = false })
    → on_first_free g (on_first_free f ts) ≡ on_first_free g ts
on_first_free_twice f g [] h = refl
on_first_free_twice f g (t ∷ ts) h = elim (Bool-cases t.locked) [
  | inl e ↦
      ap (on_first_free g) (on_first_free-locked f t ts e)
      ∙ on_first_free-locked g t (on_first_free f ts) e
      ∙ ap (◌∷◌ t) (on_first_free_twice f g ts h)
      ∙ sym (on_first_free-locked g t ts e)
  | inr e ↦
      ap (on_first_free g) (on_first_free-unlocked f t ts e)
      ∙ ap (λ (x : FileTransfer). x ∷ ts) (h t)
      ∙ sym (on_first_free-unlocked g t ts e)
]

-- Since create_file_transfer unlocks its slot when it returns, a second transfer takes the slot of
-- the first: where both have an entry in the configuration, what is left is the second alone, as if
-- the first had never been made.
pub create_file_transfer_twice :
    (path path' : List ℕ) (opened : List ℕ → Option ℕ) (ts : List FileTransfer) (sha sha' : List ℕ)
    (md md' : Metadata)
    → (create_file_transfer
        (some path')
        opened
        (create_file_transfer (some path) opened ts sha md).1
        sha'
        md').1
      ≡ (create_file_transfer (some path') opened ts sha' md').1
create_file_transfer_twice path path' opened ts sha sha' md md' =
    (create_file_transfer-on_first_free (some path') opened _ sha' md').0
    ∙ ap (on_first_free (outcome (some path') opened sha' md'))
        (create_file_transfer-on_first_free (some path) opened ts sha md).0
    ∙ on_first_free_twice (outcome (some path) opened sha md) (outcome (some path') opened sha' md')
        ts (λ t. refl)
    ∙ sym (create_file_transfer-on_first_free (some path') opened ts sha' md').0
