-- ===== src/Handlers/Listing/Laws.antt =====
-- What the answering handlers answer.
use tapi2p.FileTransfers.{FtStatus, Transfers}
use tapi2p.FileTransfers.Laws.{IsPacked, used_statuses}
use tapi2p.FileTransfers.Laws.Statuses.{filetransfer_get_statuses-IsPacked}
use tapi2p.Base.{
  ℕ, ◌+◌, ◌<◌, ◌≡◌, refl, ap, ◌∙◌, Option, none, some, List, [], ◌∷◌, Bool, true, false, map, codes,
  c_string, if◌then◌else◌,
}
use tapi2p.Event.Types.{Evt, Alloc}
use tapi2p.Peer.Types.{Peer}
use tapi2p.Peers.Table.{Manager, count}
use tapi2p.Peers.ForEach.{collected, both, finished, for_each_peer-collected}
use tapi2p.Handlers.World.{set_new, Configs, Jansson, Writer}
use tapi2p.Handlers.Listing.{
  answer, peer_object, peers_text, peers_listed, handlelistpeers, status_object, status_objects,
  statuses_answer, statuses_of, handlefiletransferstatus, array_of, add_files, add_root,
  handleaddfile,
}

module _ (c : Configs) (j : Jansson) (w : Writer j.Json) (conf : c.Config) where
  open j use {Json, loads, is_object, is_array, is_string, object_get, elements, string_value}

  collected-peer_object :
      (i : ℕ) (ps : List Peer)
      → collected (λ k p. some (peer_object c j w conf p ∷ [])) i ps
        ≡ some (map (peer_object c j w conf) ps)
  collected-peer_object i [] = refl
  collected-peer_object i (p ∷ ps) =
      ap (both (some (peer_object c j w conf p ∷ []))) (collected-peer_object (i + 1) ps)

  -- With the iterator at the start, handlelistpeers ends, answers with the text of an array that has
  -- the object of each peer of the table, in the table's order, and leaves the table as it was; it
  -- faults only if the text cannot be made.
  pub handlelistpeers-peer_object :
      (a : Alloc) (fuel : ℕ) (m : Manager) (e : Evt)
      → m.iterator ≡ 0
      → count m < fuel
      → handlelistpeers c j w conf a fuel m e
        ≡ elim (answer a e (peers_text c j w conf (map (peer_object c j w conf) m.peers)))
            as (λ x. Option (Evt × Manager)) [
              | none ↦ none
              | some reply ↦ some (reply, record m { iterator = 0 })
            ]
  unfolding handlelistpeers
  handlelistpeers-peer_object a fuel m e start enough = ap (peers_listed c j w conf a e) (
      for_each_peer-collected (λ i p. some (peer_object c j w conf p ∷ [])) fuel m start enough
      ∙ ap (finished m) (collected-peer_object 0 m.peers))

  -- The texts in front of the first element that is not a string.
  abbrev pub leading : List Json → List (List ℕ)
  leading [] = []
  leading (v ∷ vs) = let rest = leading vs in if is_string v then string_value v ∷ rest else []

  abbrev pub with_files : c.Config → List (List ℕ) → c.Config
  with_files k [] = k
  with_files k (t ∷ ts) = with_files (c.add k (codes "Metadata") t none) ts

  abbrev pub some_files : List (List ℕ) → Bool
  some_files [] = false
  some_files (t ∷ ts) = true

  add_files-some_files :
      (k : c.Config) (vs : List Json) → (add_files c j w conf k vs).0 ≡ some_files (leading vs)
  add_files-some_files k [] = refl
  add_files-some_files k (v ∷ vs) = by_string (is_string v)
    where
      by_string :
          (b : Bool)
          → (if◌then◌else◌ {A = Bool × c.Config} b
              (true, (add_files c j w conf (c.add k (codes "Metadata") (string_value v) none) vs).1)
              (false, k)).0
            ≡ some_files (if b then string_value v ∷ leading vs else [])
      by_string true = refl
      by_string false = refl

  add_files-with_files :
      (k : c.Config) (vs : List Json) → (add_files c j w conf k vs).1 ≡ with_files k (leading vs)
  add_files-with_files k [] = refl
  add_files-with_files k (v ∷ vs) =
      by_string (is_string v)
        (add_files-with_files (c.add k (codes "Metadata") (string_value v) none) vs)
    where
      by_string :
          (b : Bool)
          → (add_files c j w conf (c.add k (codes "Metadata") (string_value v) none) vs).1
            ≡ with_files (c.add k (codes "Metadata") (string_value v) none) (leading vs)
          → (if◌then◌else◌ {A = Bool × c.Config} b
              (true, (add_files c j w conf (c.add k (codes "Metadata") (string_value v) none) vs).1)
              (false, k)).1
            ≡ with_files k (if b then string_value v ∷ leading vs else [])
      by_string true h = h
      by_string false h = refl

  saved_once :
      (k : c.Config) (saved : List c.Config) (b : Bool) (k' : c.Config) (ts : List (List ℕ))
      → b ≡ some_files ts
      → k' ≡ with_files k ts
      → ◌≡◌ {A = c.Config × List c.Config}
          (if b then (k', k' ∷ saved) else (k, saved))
          (with_files k ts, (if some_files ts then with_files k ts ∷ saved else saved))
  saved_once k saved b k' [] p q = rw p refl
  saved_once k saved b k' (t ∷ ts) p q = rw p (ap (λ (x : c.Config). (x, x ∷ saved)) q)

  -- For an event that is the text of an object with an array `files`, handleaddfile adds an item to
  -- "Metadata" for each string in front of the first element that is not one, and saves the
  -- configuration once if there is such a string; else it saves nothing.
  pub handleaddfile-leading :
      (k : c.Config) (saved : List c.Config) (e : Evt) (root files : Json)
      → loads (c_string e.body) ≡ some root
      → is_object root ≡ true
      → object_get root (codes "files") ≡ some files
      → is_array files ≡ true
      → handleaddfile c j w conf k saved e ≡ (
        with_files k (leading (elements files)),
        (if some_files (leading (elements files))
            then with_files k (leading (elements files)) ∷ saved
            else saved),
      )
  unfolding handleaddfile
  handleaddfile-leading k saved e root files l o f a =
      ap (add_root c j w conf k saved) l
      ∙ rw o (
          rw f (
            rw a (
              saved_once k saved _ _ (leading (elements files))
                (add_files-some_files k (elements files))
                (add_files-with_files k (elements files)))))

  -- The objects of the slots in use, in order.
  abbrev pub used_objects : Transfers → List Json
  used_objects [] = []
  used_objects (h ∷ hs) = elim h.sha_str as (λ x. List Json) [
    | none ↦ used_objects hs
    | some s ↦ status_object c j w conf h.status ∷ used_objects hs
  ]

  status_objects-used_statuses :
      (ts : Transfers) → status_objects c j w conf (used_statuses ts) ≡ some (used_objects ts)
  status_objects-used_statuses [] = refl
  status_objects-used_statuses (h ∷ hs) = by_use h.sha_str (status_objects-used_statuses hs)
    where
      by_use :
          (o : Option (List ℕ))
          → status_objects c j w conf (used_statuses hs) ≡ some (used_objects hs)
          → status_objects c j w conf (elim o as (λ x. List (Option FtStatus)) [
            | none ↦ used_statuses hs
            | some s ↦ some h.status ∷ used_statuses hs
          ])
            ≡ some (elim o as (λ x. List Json) [
              | none ↦ used_objects hs
              | some s ↦ status_object c j w conf h.status ∷ used_objects hs
            ])
      by_use none e = e
      by_use (some s) e =
          ap
            (λ (o : Option (List Json)). elim o as (λ x. Option (List Json)) [
              | none ↦ none
              | some objs ↦ some (status_object c j w conf h.status ∷ objs)
            ])
            e

  -- While the slots in use come before the free ones, handlefiletransferstatus answers with the
  -- text of an array that has the status of each slot in use, in order.
  pub handlefiletransferstatus-used_objects :
      (a : Alloc) (ts : Transfers) (e : Evt)
      → IsPacked ts
      → handlefiletransferstatus c j w conf a ts e
        ≡ answer a e (
            w.dumps (
              set_new w w.object
                (codes "statuses")
                (some (array_of c j w conf (used_objects ts) w.array))))
  unfolding handlefiletransferstatus
  handlefiletransferstatus-used_objects a ts e p = ap (statuses_answer c j w conf a e) (
      ap (λ (x : ℕ × Option (List (Option FtStatus))). statuses_of c j w conf x.1)
        (filetransfer_get_statuses-IsPacked ts p)
      ∙ status_objects-used_statuses ts)
