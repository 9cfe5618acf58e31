-- ===== src/Web/Queue.antt =====
-- The queue of messages to the browser, from coreeventhandler to the writeable callback.
use tapi2p.Base.{
  ℕ, ◌+◌, ◌<◌, ◌≤◌, ◌≡◌, refl, sym, ap, ◌∙◌, arith, lt→ltb, not_less, not, if◌then◌else◌, ℤ, negsuc,
  eq_ℤ, Option, none, some, List, [], ◌∷◌, Bool, true, false, ltb, length, length-set, map,
  get_elem?, get_elem?-set_self, get_elem?-set_ne, set,
}
use tapi2p.Event.Types.{Evt}
use tapi2p.Handlers.World.{Configs, Jansson, Writer}
use tapi2p.Web.{Server, quiet, flush, flushed, message_of, queued, coreeventhandler, writeable}

-- data_to_send has 16 cells, and the first ones hold the texts, the last one of which is the newest.
abbrev Holds : List (List ℕ) → List (Option (List ℕ)) → Type 0
Holds [] cells = Unit {0}
Holds (t ∷ ts) cells = (get_elem? cells (length ts) ≡ some (some t)) × Holds ts cells

abbrev pub max_unsent : ℕ
max_unsent = 16

-- A queue of these texts, the newest first.
pub record IsQueue (s : Server) (texts : List (List ℕ)) : Type 0 where
  pub full : length s.cells ≡ max_unsent
  pub counted : s.unsent_data ≡ length texts
  pub held : Holds texts s.cells

Holds-set :
    (ts : List (List ℕ)) (cells : List (Option (List ℕ))) (i : ℕ) (v : Option (List ℕ))
    → length ts ≤ i
    → Holds ts cells
    → Holds ts (set cells i v)
Holds-set [] cells i v l h = tt
Holds-set (t ∷ ts) cells i v l h = (
  get_elem?-set_ne cells v (λ (e : i ≡ length ts). omega arith) ∙ h.0,
  Holds-set ts cells i v (omega arith) h.1,
)

queued-IsQueue :
    (c : Configs) (j : Jansson) (w : Writer j.Json) (s : Server) (ts : List (List ℕ)) (t : List ℕ)
    → IsQueue s ts
    → length ts < max_unsent
    → (s' : Server) × (queued c j w s (some t) ≡ some s')
      × IsQueue s' (t ∷ ts)
      × (s'.corefd ≡ s.corefd)
      × (s'.welcome_message_sent ≡ s.welcome_message_sent)
queued-IsQueue c j w s ts t q room = (
  record s { cells = set s.cells s.unsent_data (some t); unsent_data = s.unsent_data + 1 },
  rw (lt→ltb s.unsent_data (length s.cells) (omega (arith, q.full, q.counted))) refl,
  record {
    full = length-set s.cells s.unsent_data (some t) ∙ q.full;
    counted = omega (arith, q.counted);
    held = (
      ap (get_elem? (set s.cells s.unsent_data (some t))) (sym q.counted)
          ∙ get_elem?-set_self s.cells s.unsent_data (some t) (omega (arith, q.full, q.counted)),
      Holds-set ts s.cells s.unsent_data (some t) (omega (arith, q.counted)) q.held,
    );
  },
  refl,
  refl,
)

flush-Holds :
    (ts : List (List ℕ)) (cells : List (Option (List ℕ)))
    → Holds ts cells
    → flush (length ts) cells ≡ some ts
unfolding flush
flush-Holds [] cells h = refl
flush-Holds (t ∷ ts) cells h = rw (h.0, flush) (rw (flush-Holds ts cells h.1) refl)

-- The texts that are queued, the newest first.
abbrev pub newest_first : List (Option (List ℕ)) → List (List ℕ) → List (List ℕ)
newest_first [] ts = ts
newest_first (none ∷ ms) ts = newest_first ms ts
newest_first (some t ∷ ms) ts = newest_first ms (t ∷ ts)

newest_first-length :
    (ms : List (Option (List ℕ))) (ts : List (List ℕ)) → length ts ≤ length (newest_first ms ts)
newest_first-length [] ts = omega arith
newest_first-length (none ∷ ms) ts = newest_first-length ms ts
newest_first-length (some t ∷ ms) ts = omega (arith, newest_first-length ms (t ∷ ts))

module _ (c : Configs) (j : Jansson) (w : Writer j.Json) where
  -- Events from the core, one after the other.
  abbrev pub handled : (Server → Option Server) → Option Server → Option Server
  handled f none = none
  handled f (some s) = f s

  unfoldable pub coreeventhandlers : List Evt → Server → Option Server
  unfolding coreeventhandler
  coreeventhandlers [] s = some s
  coreeventhandlers (e ∷ es) s = handled (coreeventhandlers es) (coreeventhandler c j w s e)

  abbrev queue_all : List (Option (List ℕ)) → Server → Option Server
  queue_all [] s = some s
  queue_all (m ∷ ms) s = handled (queue_all ms) (queued c j w s m)

  coreeventhandlers-queue_all :
      (es : List Evt) (s : Server)
      → coreeventhandlers es s ≡ queue_all (map (message_of c j w) es) s
  unfolding coreeventhandlers coreeventhandler
  coreeventhandlers-queue_all [] s = refl
  coreeventhandlers-queue_all (e ∷ es) s =
      same (λ t. coreeventhandlers-queue_all es t) (queued c j w s (message_of c j w e))
    where
      same :
          ((t : Server) → coreeventhandlers es t ≡ queue_all (map (message_of c j w) es) t)
          → (o : Option Server)
          → handled (coreeventhandlers es) o ≡ handled (queue_all (map (message_of c j w) es)) o
      same f none = refl
      same f (some t) = f t

  abbrev AllQueued : Server → List (List ℕ) → List (Option (List ℕ)) → Option Server → Type 0
  AllQueued s ts ms o =
      (s' : Server) × (o ≡ some s')
      × IsQueue s' (newest_first ms ts)
      × (s'.corefd ≡ s.corefd)
      × (s'.welcome_message_sent ≡ s.welcome_message_sent)

  -- Messages whose texts all have a cell are queued.
  queue_all-AllQueued :
      (ms : List (Option (List ℕ))) (s : Server) (ts : List (List ℕ))
      → IsQueue s ts
      → length (newest_first ms ts) ≤ max_unsent
      → AllQueued s ts ms (queue_all ms s)
  queue_all-AllQueued [] s ts q room = (s, refl, q, refl, refl)
  queue_all-AllQueued (none ∷ ms) s ts q room = queue_all-AllQueued ms s ts q room
  queue_all-AllQueued (some t ∷ ms) s ts q room =
      first (queued-IsQueue c j w s ts t q (omega (arith, newest_first-length ms (t ∷ ts))))
        (λ s1 q1. queue_all-AllQueued ms s1 (t ∷ ts) q1 room)
    where
      first :
          (s1 : Server) × (queued c j w s (some t) ≡ some s1)
            × IsQueue s1 (t ∷ ts)
            × (s1.corefd ≡ s.corefd)
            × (s1.welcome_message_sent ≡ s.welcome_message_sent)
          → ((s1 : Server) → IsQueue s1 (t ∷ ts) → AllQueued s1 (t ∷ ts) ms (queue_all ms s1))
          → AllQueued s ts (some t ∷ ms) (queue_all (some t ∷ ms) s)
      first (s1, e, q1, fd, sent) k = rest (k s1 q1)
        where
          rest :
              AllQueued s1 (t ∷ ts) ms (queue_all ms s1)
              → AllQueued s ts (some t ∷ ms) (queue_all (some t ∷ ms) s)
          rest (s', e', q', fd', sent') =
              (s', ap (handled (queue_all ms)) e ∙ e', q', fd' ∙ fd, sent' ∙ sent)

  choice :
      {A : Type 0} (a b d : Bool) (x y z v : A)
      → a ≡ false
      → b ≡ true
      → (if a then x else (if not b then y else (if d then z else v))) ≡ (if d then z else v)
  choice a b d x y z v p q = rw (p, q) refl

  writeable-IsQueue :
      (conf : Option c.Config) (s : Server) (ts : List (List ℕ))
      → IsQueue s ts
      → eq_ℤ s.corefd (negsuc 0) ≡ false
      → s.welcome_message_sent ≡ true
      → (t : Server) × (writeable c j w conf s ≡ some (record quiet { to_client = ts }, t))
        × IsQueue t []
  unfolding writeable
  writeable-IsQueue conf s [] q up sent = (
    s,
    choice _ _ (ltb 0 s.unsent_data) _ _ (flushed s (flush s.unsent_data s.cells)) (some (quiet, s))
          up sent
        ∙ rw q.counted refl,
    q,
  )
  writeable-IsQueue conf s (t ∷ ts) q up sent = (
    record s { unsent_data = 0 },
    choice _ _ (ltb 0 s.unsent_data) _ _ (flushed s (flush s.unsent_data s.cells)) (some (quiet, s))
          up sent
        ∙ rw (lt→ltb 0 s.unsent_data (omega (arith, q.counted))) (
            ap (flushed s)
              (ap (λ (n : ℕ). flush n s.cells) q.counted ∙ flush-Holds (t ∷ ts) s.cells q.held)),
    record { full = q.full; counted = refl; held = tt },
  )

  -- With the core connected, the welcome message sent and nothing queued, events from the core that
  -- make at most 16 texts are queued, and the next writeable callback sends their texts to the
  -- browser, each once and the newest first, and leaves nothing queued.
  pub writeable-newest_first :
      (conf : Option c.Config) (es : List Evt) (s : Server)
      → IsQueue s []
      → eq_ℤ s.corefd (negsuc 0) ≡ false
      → s.welcome_message_sent ≡ true
      → length (newest_first (map (message_of c j w) es) []) ≤ max_unsent
      → (s' t : Server) × (coreeventhandlers es s ≡ some s')
        × (writeable c j w conf s'
            ≡ some (record quiet { to_client = newest_first (map (message_of c j w) es) [] }, t))
        × IsQueue t []
  writeable-newest_first conf es s q up sent room =
      finish (queue_all-AllQueued (map (message_of c j w) es) s [] q room)
    where
      finish :
          AllQueued s [] (map (message_of c j w) es) (queue_all (map (message_of c j w) es) s)
          → (s' t : Server) × (coreeventhandlers es s ≡ some s')
            × (writeable c j w conf s'
                ≡ some
                    (record quiet { to_client = newest_first (map (message_of c j w) es) [] }, t))
            × IsQueue t []
      finish (s', e, q', fd, sent') = send (
          writeable-IsQueue conf s' (newest_first (map (message_of c j w) es) []) q'
            (ap (λ (x : ℤ). eq_ℤ x (negsuc 0)) fd ∙ up) (sent' ∙ sent))
        where
          send :
              (t : Server) × (writeable c j w conf s'
                  ≡ some
                      (record quiet { to_client = newest_first (map (message_of c j w) es) [] }, t))
                × IsQueue t []
              → (s' t : Server) × (coreeventhandlers es s ≡ some s')
                × (writeable c j w conf s'
                    ≡ some (
                      record quiet { to_client = newest_first (map (message_of c j w) es) [] },
                      t,
                    ))
                × IsQueue t []
          send (t, e', q'') = (s', t, coreeventhandlers-queue_all es s ∙ e, e', q'')

  -- With 16 texts queued, the next event from the core that makes a text is written behind
  -- data_to_send.
  pub coreeventhandler_overflow :
      (s : Server) (ts : List (List ℕ)) (e : Evt) (t : List ℕ)
      → IsQueue s ts
      → length ts ≡ max_unsent
      → message_of c j w e ≡ some t
      → coreeventhandler c j w s e ≡ none
  unfolding coreeventhandler
  coreeventhandler_overflow s ts e t q l h =
      ap (queued c j w s) h
      ∙ rw (not_less s.unsent_data (length s.cells) (omega (arith, q.full, q.counted))) refl
