-- ===== src/Cli/ImportKey/Stored.antt =====
-- The import of a key in main of ui/cli/cli.c: what becomes of stdin.
use tapi2p.Base.{
  ℕ, ◌+◌, ◌<◌, ◌≤◌, ◌≡◌, refl, sym, ap, ap₂, ◌∙◌, negsuc, pos, codes, some, Option, none, List, [],
  ◌∷◌, ◌++◌, Bool, true, ◌&&◌, if◌then◌else◌, take, drop, length, length-take, length-drop,
  c_string, bytes_eq, take_ge, take-append-drop, drop-append_of_length, not_less, lt→ltb,
  take-append_of_length, arith, subst,
}
use mathlib.Core.List.{append_assoc}
use tapi2p.Handlers.World.{Configs}
use tapi2p.Paths.{path_max}
use tapi2p.Cli.ImportKey.{
  pubkey_size, read_key, begin_line, end_line, is_key, Keys, Imported, quit, stored, faulty,
  key_path, keybuf, write_key, checked_key, import_for, peer_section, import_key,
}
use tapi2p.Cli.ImportKey.Laws.{NoNul, NoNul-append, read_key-first}

-- The key's first and last line are those of a public key.
abbrev pub is_framed : List ℕ → Bool
is_framed key = bytes_eq (take 27 key) begin_line && bytes_eq (drop 775 key) end_line

c_string-nul : (xs : List ℕ) → NoNul xs → c_string (xs ++ (0 ∷ [])) ≡ xs
c_string-nul [] h = refl
c_string-nul (x ∷ xs) h = let e = c_string-nul xs h.1 in let p = h.0 in ground arith

module _ (key : List ℕ) (size : length key ≡ pubkey_size) (clean : NoNul key) where
  clean_end : NoNul (drop 775 key)
  clean_end =
      (NoNul-append (take 775 key) (drop 775 key)
        (subst NoNul (sym (take-append-drop 775 key)) clean)).1

  -- The last line in the buffer.
  drop-key : drop 775 (key ++ (0 ∷ [])) ≡ drop 775 key ++ (0 ∷ [])
  drop-key =
      ap (λ (t : List ℕ). drop 775 (t ++ (0 ∷ []))) (sym (take-append-drop 775 key))
      ∙ ap (drop 775) (append_assoc (take 775 key) (drop 775 key) (0 ∷ []))
      ∙ drop-append_of_length 775 (take 775 key) (drop 775 key ++ (0 ∷ []))
          (omega (arith, length-take 775 key))

  is_key-is_framed : is_key (key ++ (0 ∷ [])) ≡ is_framed key
  unfolding is_key
  is_key-is_framed =
      ap₂ (λ (a b : List ℕ). bytes_eq (take 27 a) begin_line && bytes_eq b end_line)
        (c_string-nul key clean)
        (ap (λ (t : List ℕ). take 25 (c_string t)) drop-key
          ∙ ap (take 25) (c_string-nul (drop 775 key) clean_end)
          ∙ take_ge 25 (drop 775 key) (omega (arith, length-drop 775 key)))

-- Importing a key for a peer that the configuration has, by its section's name or its nick, with
-- a path that fits and a file that can be written: of any stdin with 800 bytes and no NUL, exactly
-- the first 800 are stored, under the name of the peer's section, if they begin and end with the
-- lines of a public key; if not, nothing is stored and main returns -1.
pub import_key-stored :
    (c : Configs) (conf : c.Config) (item_maxlen : ℕ) (k : Keys) (self option name section : List ℕ)
    → peer_section c conf item_maxlen name ≡ some section
    → length (key_path k section) < path_max
    → k.opens ≡ true
    → k.writes ≡ true
    → pubkey_size ≤ length k.stdin
    → NoNul k.stdin
    → import_key c conf item_maxlen k (self ∷ option ∷ name ∷ []) ≡ (
        if is_framed (take pubkey_size k.stdin)
        then stored (record {
          path = k.keypath ++ (codes "public_key_" ++ section);
          bytes = take pubkey_size k.stdin;
        })
        else quit (negsuc 0))
unfolding import_key import_for
import_key-stored c conf item_maxlen k self option name section found fits opens writes enough
      clean =
    ap
      (λ (s : Option (List ℕ)). elim s as (λ s'. Imported) [
        | none ↦ quit (pos 0)
        | some name' ↦ import_for k name'
      ])
      found
    ∙ ap
        (λ (b : Bool).
          if b
          then quit (negsuc 0)
          else checked_key k section (read_key (length k.stdin + 1) 0 (keybuf k) k.stdin))
        (not_less path_max (length (key_path k section)) (omega arith))
    ∙ ap (checked_key k section) (read_key-first k k.stdin enough clean)
    ∙ ap₂ (λ (b : Bool) (r : Imported). if b then r else quit (negsuc 0))
        (is_key-is_framed key key_size clean_key) written
  where
    key : List ℕ
    key = take pubkey_size k.stdin

    key_size : length key ≡ pubkey_size
    key_size = omega (arith, length-take pubkey_size k.stdin)

    clean_key : NoNul key
    clean_key =
        (NoNul-append key (drop pubkey_size k.stdin)
          (subst NoNul (sym (take-append-drop pubkey_size k.stdin)) clean)).0

    written :
        write_key k section (key ++ (0 ∷ []))
        ≡ stored (record { path = key_path k section; bytes = key })
    written =
        ap
          (λ (b : Bool).
            if b
            then (if k.opens
                then (if k.writes
                    then stored (record {
                      path = key_path k section;
                      bytes = take pubkey_size (key ++ (0 ∷ []));
                    })
                    else quit (negsuc 0))
                else faulty)
            else faulty)
          (lt→ltb _ _ fits)
        ∙ ap₂
            (λ (b b' : Bool).
              if b
              then (if b'
                  then stored (record {
                    path = key_path k section;
                    bytes = take pubkey_size (key ++ (0 ∷ []));
                  })
                  else quit (negsuc 0))
              else faulty)
            opens writes
        ∙ ap (λ (b : List ℕ). stored (record { path = key_path k section; bytes = b }))
            (take-append_of_length pubkey_size key (0 ∷ []) key_size)
