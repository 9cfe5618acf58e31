-- ===== src/Keys/Generate/Written.antt =====
-- generate of crypto/keygen.c, asked for both keys.
use tapi2p.Base.{
  ◌&&◌, ℕ, suc, ◌≡◌, refl, ap, ◌∙◌, ℤ, pos, Option, none, some, List, [], ◌∷◌, true, arith,
}
use tapi2p.Keys.{Object, bio, Heap, Effect, go_on, ◌>>=◌}
use tapi2p.Keys.Generate.{
  is_set, Statics, no_objects, Results, opened, wrote_public, wrote_private, Step, public_path,
  generate, keygen_init, keygen_free, keygen_bio_init, write_part, and_then, end_generate,
}

-- What generate returns, what it does to the files, the static pointers, and the objects.
abbrev pub summary : Option (Step × Heap) → Option (Step × List (ℕ × Object))
summary none = none
summary (some (s, h)) = some (s, h.objects)

abbrev with_bio : Heap → Heap
with_bio h1 = record h1 { objects = (h1.fresh, bio) ∷ h1.objects; fresh = suc h1.fresh }

-- Freeing what keygen_init made, and the BIO, leaves the objects as they were.
abbrev CanFree : Heap → Option ((ℤ × Statics) × Heap) → Type 0
CanFree h none = ⊥
CanFree h (some ((code, s1), h1)) =
    (s1.file ≡ none)
    × (is_set s1.rsa ≡ true)
    × (is_set s1.p8info ≡ true)
    × (keygen_free (record s1 { file = some h1.fresh }) (with_bio h1)
        ≡ some (no_objects, record h { fresh = suc h1.fresh }))

module _ (r : Results) (path : List ℕ) (h : Heap) (file : r.bio_new ≡ true)
    (opens_public : r.opens (public_path path) ≡ true) (public : r.writes_public ≡ true)
    (opens_private : r.opens path ≡ true) (private : r.writes_private ≡ true) (bn : r.bn_new ≡ true)
    (rsa : r.rsa_new ≡ true) (made : r.generated ≡ true) (converted : r.converted ≡ true)
    (pkcs8 : r.pkcs8 ≡ true) where
  -- Both files, and nothing left.
  abbrev pub BothWritten : Type 0
  BothWritten =
      summary (generate r path 3 no_objects h)
      ≡ some (
        (
          pos 0,
          opened (public_path path)
              ∷ wrote_public (public_path path)
              ∷ opened path
              ∷ wrote_private path
              ∷ [],
          no_objects,
        ),
        h.objects,
      )

  -- What follows keygen_init.
  abbrev tail : Statics → Effect Step
  tail s1 = do
    first ←
        write_part r true (r.writes_public && is_set s1.rsa) (wrote_public (public_path path))
          (public_path path) [] s1
    and_then first λ acts s2. do
      second ←
          write_part r true (r.writes_private && is_set s2.p8info) (wrote_private path) path acts s2
      and_then second end_generate

  abbrev finished : Option (Statics × Heap) → Option (Step × Heap)
  finished none = none
  finished (some (s, h')) = some (
    (
      pos 0,
      opened (public_path path)
          ∷ wrote_public (public_path path)
          ∷ opened path
          ∷ wrote_private path
          ∷ [],
      s,
    ),
    h',
  )

  tail-finished :
      (s1 : Statics) (h1 : Heap)
      → s1.file ≡ none
      → is_set s1.rsa ≡ true
      → is_set s1.p8info ≡ true
      → tail s1 h1 ≡ finished (keygen_free (record s1 { file = some h1.fresh }) (with_bio h1))
  unfolding keygen_bio_init
  tail-finished s1 h1 e e1 e2 = ground arith

  by_init : CanFree h (keygen_init r no_objects h)
  unfolding keygen_init keygen_free
  by_init = rw (bn, rsa, made, converted, pkcs8) (refl, refl, refl, ground arith)

  combined :
      (o : Option ((ℤ × Statics) × Heap))
      → CanFree h o
      → summary (go_on (λ (code, s1). tail s1) o)
        ≡ some (
          (
            pos 0,
            opened (public_path path)
                ∷ wrote_public (public_path path)
                ∷ opened path
                ∷ wrote_private path
                ∷ [],
            no_objects,
          ),
          h.objects,
        )
  combined none f = elim f [ ]
  combined (some ((code, s1), h1)) (none_open, has_rsa, has_p8, freed) =
      ap summary (tail-finished s1 h1 none_open has_rsa has_p8)
      ∙ ap (λ (o : Option (Statics × Heap)). summary (finished o)) freed

  -- generate of both keys, where the two files open and OpenSSL makes the key and
  -- writes to them: it creates path.pub and then path and writes each its key, returns 0, and gives
  -- back all the objects that it took; the static pointers are NULL again.
  pub generate-BothWritten : BothWritten
  unfolding generate
  generate-BothWritten = combined (keygen_init r no_objects h) by_init
