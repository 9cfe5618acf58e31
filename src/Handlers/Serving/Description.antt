-- ===== src/Handlers/Serving/Description.antt =====
-- What a request for the metadata leads to, from the handler to the end of the thread that it starts.
use tapi2p.Base.{ℕ, ◌≡◌, ap, ap₂, ◌∙◌, Option, none, some, List, ◌∷◌, true, codes}
use tapi2p.Peer.Transfers.{get_and_lock_new_filetransfer}
use tapi2p.Handlers.World.{Configs}
use tapi2p.Handlers.Serving.{Serving, open_item, with_metadata, handlefiletransfer}

module _ (c : Configs) (conf : c.Config) (opens opens_metadata : List ℕ → Option ℕ)
    (contents : ℕ → List ℕ) where
  -- With all slots in use, handlefiletransfer leaves the metadata file open that it has opened.
  pub handlefiletransfer_full :
      (s : Serving) (sha path : List ℕ) (f : ℕ)
      → c.find_item conf (codes "Filename") sha ≡ some (some path)
      → opens_metadata sha ≡ some f
      → get_and_lock_new_filetransfer s.slots ≡ none
      → handlefiletransfer c conf opens opens_metadata contents true s sha
        ≡ some (record s { files = f ∷ s.files })
  unfolding handlefiletransfer
  handlefiletransfer_full s sha path f item meta slot =
      ap₂ (λ x y. with_metadata c conf opens opens_metadata contents s sha x y)
        (ap (open_item c conf opens opens_metadata contents (λ p. opens_metadata sha)) item ∙ meta)
        slot
