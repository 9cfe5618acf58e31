-- ===== src/Tests/Keys.antt =====
-- Keys at concrete inputs: a cipher that puts a byte in front, with the key's own byte.
use tapi2p.Base.{◌≡◌, refl, arith, pos, none, some, [], ◌∷◌, true, false, ltb, codes, drop, length}
use tapi2p.Keys.{Evp, Heap, zeroed, memory}
use tapi2p.Keys.Laws.{exchange, load_and_encrypt, exchange-freed, session_refused}
use tapi2p.Keys.Generate.{Results, no_objects, generate, opened, wrote_public, wrote_private}
use tapi2p.Keys.Generate.Written.{summary, generate-BothWritten}

abbrev toy : Evp
toy = record {
  is_public = λ key. ltb 0 (length key);
  is_private = λ key. ltb 0 (length key);
  size_of = length;
  encrypt = λ key xs. some (7 ∷ xs);
  decrypt = λ key xs. some (drop 1 xs);
}

abbrev one_object : Heap
one_object = record { objects = (3, memory []) ∷ []; fresh = 10 }

exchange-freed_example :
    exchange toy zeroed (codes "pub") (codes "priv") (codes "hi") (7 ∷ codes "hi") one_object
    ≡ some (
      (some 14, some 18),
      record {
        objects = (18, memory (codes "hi")) ∷ (14, memory (7 ∷ codes "hi")) ∷ one_object.objects;
        fresh = 19;
      },
    )
exchange-freed_example =
    exchange-freed toy zeroed (codes "pub") (codes "priv") (codes "hi") (7 ∷ codes "hi") one_object
      refl refl refl refl refl

session_refused_example :
    load_and_encrypt toy false zeroed (codes "pub") (codes "hi") one_object ≡ none
session_refused_example =
    session_refused toy zeroed (codes "pub") (codes "hi") one_object refl refl (omega arith, tt)

-- All goes well.
abbrev all_made : Results
all_made = record {
  bn_new = true;
  rsa_new = true;
  generated = true;
  converted = true;
  pkcs8 = true;
  bio_new = true;
  opens = λ path. true;
  writes_public = true;
  writes_private = true;
}

generate-BothWritten_example :
    summary (generate all_made (codes "k") 3 no_objects one_object)
    ≡ some (
      (
        pos 0,
        opened (codes "k.pub")
            ∷ wrote_public (codes "k.pub")
            ∷ opened (codes "k")
            ∷ wrote_private (codes "k")
            ∷ [],
        no_objects,
      ),
      one_object.objects,
    )
generate-BothWritten_example =
    generate-BothWritten all_made (codes "k") one_object refl refl refl refl refl refl refl refl
      refl refl
