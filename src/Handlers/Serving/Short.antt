-- ===== src/Handlers/Serving/Short.antt =====
-- Slots that are taken and released, and the sending of a file that is shorter than a part.
use tapi2p.Base.{
  ℕ, zero, suc, ◌+◌, ◌-◌, ◌*◌, ◌/◌, ◌%◌, ◌^◌, ◌<◌, ◌≡◌, refl, ap, ◌∙◌, arith, not_less, lt→ltb, ℤ,
  pos, negsuc, Option, none, some, List, [], ◌∷◌, ◌++◌, Bool, true, false, ltb, leb, ==_iff,
  if◌then◌else◌, length, take, drop, get_elem?, get_elem?-lt, get_elem?-set_self, set,
}
use tapi2p.Files.{file_part_bytes}
use tapi2p.Peer.Types.{FileTransfer, Metadata}
use tapi2p.Peer.Transfers.{prepend, get_and_lock_new_filetransfer}
use tapi2p.Peer.Transfers.Laws.{locks}
use tapi2p.Handlers.World.{Configs}
use tapi2p.Handlers.Sending.{
  Job, Message, message_of, last_sent, send_read, is_outside, send_file_part,
  calculate_sizes_to_metadata, add_sent, continue_loop, send_loop,
}
use tapi2p.Handlers.Serving.{Serving, close_file, at_slot}

-- The slot that get_and_lock_new_filetransfer gets was free.
abbrev pub Taken : List FileTransfer → Option (ℕ × List FileTransfer) → Type 0
Taken ts none = Unit {0}
Taken ts (some (i, locked)) =
    (t : FileTransfer) × (get_elem? ts i ≡ some t)
    × (t.locked ≡ false)
    × (locked ≡ set ts i (record t { locked = true }))

pub get_and_lock_new_filetransfer-Taken :
    (ts : List FileTransfer) → Taken ts (get_and_lock_new_filetransfer ts)
unfolding get_and_lock_new_filetransfer
get_and_lock_new_filetransfer-Taken [] = tt
get_and_lock_new_filetransfer-Taken (t ∷ ts) =
    by_lock t.locked refl (get_and_lock_new_filetransfer ts)
      (get_and_lock_new_filetransfer-Taken ts)
  where
    by_lock :
        (b : Bool)
        → t.locked ≡ b
        → (r : Option (ℕ × List FileTransfer)) → Taken ts r
        → Taken (t ∷ ts) (if b then prepend t r else some (0, record t { locked = true } ∷ ts))
    by_lock false e r h = (t, refl, e, refl)
    by_lock true e none h = tt
    by_lock true e (some (i, locked)) (x, at, free, l) = (x, at, free, ap (◌∷◌ t) l)

pub set-set {ℓ} : {A : Type ℓ} (xs : List A) (i : ℕ) (a b : A) → set (set xs i a) i b ≡ set xs i b
set-set [] i a b = refl
set-set (x ∷ xs) zero a b = refl
set-set (x ∷ xs) (suc i) a b = ap (◌∷◌ x) (set-set xs i a b)

take-append_length {ℓ} : {A : Type ℓ} (xs ys : List A) → take (length xs) (xs ++ ys) ≡ xs
take-append_length [] ys = refl
take-append_length (x ∷ xs) ys = ap (◌∷◌ x) (take-append_length xs ys)

pub close_file_head : (f : ℕ) (fs : List ℕ) → close_file f (f ∷ fs) ≡ fs
close_file_head f fs = rw ((==_iff f f).1 refl) refl

not_leb : (a b : ℕ) → b < a → leb a b ≡ false
not_leb a b h = ground arith

short_read :
    (limit size : ℕ) (td : Job) (t : FileTransfer) (rest behind : List ℕ) (r : ℤ) (d : List ℕ)
    → size ≡ length rest
    → length rest < limit
    → ◌≡◌ {A = Option (Message × ℤ × List ℕ)}
        (if ltb limit size then none else some (message_of td t (take size (rest ++ behind)), r, d))
        (some (message_of td t rest, r, d))
short_read limit size td t rest behind r d e h = rw (not_less limit size (omega arith)) (
    ap (λ (xs : List ℕ). some (message_of td t xs, r, d))
      (ap (λ (n : ℕ). take n (rest ++ behind)) e ∙ take-append_length rest behind))

-- The only part of a short file is sent whole.
pub send_file_part-whole :
    (sends : Bool) (behind : List ℕ) (td : Job) (t : FileTransfer) (rest : List ℕ)
    → td.partnum ≡ 0
    → t.metadata.file_size ≡ length rest
    → length rest < file_part_bytes
    → send_file_part (some sends) behind td t rest
      ≡ some (
        message_of td t rest,
        (if sends then pos (last_sent t.metadata) else negsuc 0),
        drop file_part_bytes rest,
      )
unfolding send_file_part
send_file_part-whole sends behind td t rest p l h =
    ap (λ (b : Bool). send_read (some sends) behind td t rest b (leb file_part_bytes (length rest)))
      (ap (λ (n : ℕ). is_outside n rest) p)
    ∙ ap (send_read (some sends) behind td t rest false) (not_leb file_part_bytes (length rest) h)
    ∙ short_read file_part_bytes t.metadata.file_size td t rest behind
        (if sends then pos (last_sent t.metadata) else negsuc 0) (drop file_part_bytes rest) l h

-- A message, and what is left of the peer's state.
pub record Served (s t : Serving) (m : Message) : Type 0 where
  pub delivered : t.sent ≡ m ∷ s.sent
  pub closed : t.files ≡ s.files
  pub ended : t.jobs ≡ s.jobs
  pub unlocked : locks t.slots ≡ locks s.slots

pub at_slot-taken :
    (c : Configs) (conf : c.Config) (opens opens_metadata : List ℕ → Option ℕ)
    (contents : ℕ → List ℕ) (g : FileTransfer → FileTransfer) (ts locked : List FileTransfer)
    (i : ℕ) (t : FileTransfer)
    → get_elem? ts i ≡ some t
    → locked ≡ set ts i (record t { locked = true })
    → (at_slot c conf opens opens_metadata contents g i locked
        ≡ set ts i (g (record t { locked = true })))
      × (get_elem? (at_slot c conf opens opens_metadata contents g i locked) i
          ≡ some (g (record t { locked = true })))
at_slot-taken c conf opens opens_metadata contents g ts locked i t at l = (
  whole,
  ap (λ (xs : List FileTransfer). get_elem? xs i) whole
      ∙ get_elem?-set_self ts i _ (get_elem?-lt ts i at),
)
  where
    there : get_elem? locked i ≡ some (record t { locked = true })
    there =
        ap (λ (xs : List FileTransfer). get_elem? xs i) l
        ∙ get_elem?-set_self ts i _ (get_elem?-lt ts i at)

    whole :
        at_slot c conf opens opens_metadata contents g i locked
        ≡ set ts i (g (record t { locked = true }))
    whole =
        ap
          (λ (o : Option FileTransfer). elim o as (λ x. List FileTransfer) [
            | none ↦ locked
            | some x ↦ set locked i (g x)
          ])
          there
        ∙ ap (λ (xs : List FileTransfer). set xs i (g (record t { locked = true }))) l
        ∙ set-set ts i _ _

-- calculate_sizes_to_metadata of a short file gives one part, and its last part is the whole file.
last_sent-short :
    (n : ℕ) (m : Metadata) → n < file_part_bytes → last_sent (calculate_sizes_to_metadata n m) ≡ n
last_sent-short n m h =
    ap
      (λ (k : ℕ).
        let before = (k + 1) % 2 ^ 32 * file_part_bytes % 2 ^ 32 in
        if ltb n before then n else n - before)
      first
    ∙ rw (lt→ltb n file_part_bytes h) refl
  where
    first : n / file_part_bytes ≡ 0
    first = omega arith

not_more :
    (sends : Bool) (n r : ℕ)
    → n < file_part_bytes
    → r ≡ n
    → ltb (add_sent 0 (if sends then pos r else negsuc 0)) n ≡ false
not_more true n r h e = not_less _ n (omega arith)
not_more false n r h e = not_less _ n (omega arith)

-- sendmetadata's loop ends after one round on a short file.
pub send_loop-short :
    (sends : ℕ → Bool) (behind : List ℕ) (td : Job) (t : FileTransfer) (fuel : ℕ) (rest : List ℕ)
    (m : Metadata)
    → td.partnum ≡ 0
    → length rest < file_part_bytes
    → send_loop
        (λ n. some (sends n))
        behind
        td
        (record t { metadata = calculate_sizes_to_metadata (length rest) m })
        (suc fuel)
        0
        rest
      ≡ some (message_of td t rest ∷ [])
unfolding send_loop
send_loop-short sends behind td t fuel rest m p h =
    ap (continue_loop (send_loop (λ n. some (sends n)) behind td t' fuel) (length rest) 0)
      (send_file_part-whole (sends fuel) behind td t' rest p refl h)
    ∙ ap
        (λ (b : Bool).
          if b
          then (elim (send_loop (λ n. some (sends n)) behind td t' fuel
                (add_sent 0 (if sends fuel then pos (last_sent t'.metadata) else negsuc 0))
                (drop file_part_bytes rest))
              as (λ x. Option (List Message)) [
                | none ↦ none
                | some ms ↦ some (message_of td t rest ∷ ms)
              ])
          else some (message_of td t rest ∷ []))
        (not_more (sends fuel) (length rest) (last_sent t'.metadata) h
          (last_sent-short (length rest) m h))
  where
    t' : FileTransfer
    t' = record t { metadata = calculate_sizes_to_metadata (length rest) m }
