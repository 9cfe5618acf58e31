-- ===== src/Cli/ImportKey.antt =====
-- Importing a peer's public key in main of ui/cli/cli.c: the peer in the configuration, the key from
-- stdin, and its file. dtgconf is an argument.
pub mod Laws
pub mod Stored
use tapi2p.Base.{
  ℕ, zero, suc, ◌+◌, ◌-◌, ℤ, pos, negsuc, Option, none, some, List, [], ◌∷◌, ◌++◌, Bool, true,
  false, ltb, ◌==◌, ◌&&◌, if◌then◌else◌, take, drop, length, codes, strncmp_eq, c_string, replicate,
  overwrite,
}
use tapi2p.Handlers.World.{Configs}
use tapi2p.Paths.{path_max}

-- pubkey_size
abbrev pub pubkey_size : ℕ
pubkey_size = 800

-- fgets of at most `n` bytes, 0 < n, a newline among them the last: the line and the rest.
unfoldable pub line_of : ℕ → List ℕ → List ℕ × List ℕ
line_of zero input = ([], input)
line_of (suc n) [] = ([], [])
line_of (suc n) (c ∷ cs) =
    let (line, rest) = line_of n cs in if c == 10 then (c ∷ [], cs) else (c ∷ line, rest)

-- How the reading ends: the buffer and the rest of stdin, at the end of stdin, or by a write behind
-- the buffer.
pub data Reading : Type 0 where
  complete : List ℕ → List ℕ → Reading
  too_short : Reading
  overrun : Reading
  unfinished : Reading

-- The loop over fgets, with fuel: `read` bytes of the key are there. strnlen counts up to the first
-- NUL of the line.
unfoldable pub read_key : ℕ → ℕ → List ℕ → List ℕ → Reading
unfolding line_of
read_key zero read buf input = unfinished
read_key (suc fuel) read buf input =
    let (line, rest) = line_of (pubkey_size - read) input in
    let next =
      read_key fuel (read + length (c_string line)) (overwrite read (line ++ (0 ∷ [])) buf) rest in
    if read == pubkey_size
    then complete buf input
    else if length input == 0
    then too_short
    else if ltb (length buf) (read + length line + 1)
    then overrun
    else next

-- The first and the last line of a key's text.
abbrev pub begin_line : List ℕ
begin_line = codes "-----BEGIN PUBLIC KEY-----" ++ (10 ∷ [])

abbrev pub end_line : List ℕ
end_line = codes "-----END PUBLIC KEY-----" ++ (10 ∷ [])

-- The two calls of strncmp.
unfoldable pub is_key : List ℕ → Bool
is_key buf =
    strncmp_eq 27 (c_string buf) begin_line && strncmp_eq 25 (c_string (drop 775 buf)) end_line

-- The file that the key is written to.
pub record KeyFile : Type 0 where
  pub path : List ℕ
  pub bytes : List ℕ

-- keypath(), stdin, what the stack holds behind the 800 bytes that memset clears, and whether fopen
-- and fwrite succeed.
pub record Keys : Type 0 where
  pub keypath : List ℕ
  pub stdin : List ℕ
  pub stack : ℕ
  pub opens : Bool
  pub writes : Bool

-- How importing ends: main returns, the file of the key included if it was written, or it writes
-- outside an array or through NULL.
pub data Imported : Type 0 where
  quit : ℤ → Imported
  stored : KeyFile → Imported
  faulty : Imported

abbrev pub key_path : Keys → List ℕ → List ℕ
key_path k name = k.keypath ++ (codes "public_key_" ++ name)

-- fopen of the path in an array of PATH_MAX bytes, and fwrite through what fopen returned.
abbrev pub write_key : Keys → List ℕ → List ℕ → Imported
write_key k name buf =
    if ltb (length (key_path k name)) path_max
    then (if k.opens
        then (if k.writes
            then stored (record { path = key_path k name; bytes = take pubkey_size buf })
            else quit (negsuc 0))
        else faulty)
    else faulty

abbrev pub checked_key : Keys → List ℕ → Reading → Imported
checked_key k name (complete buf rest) =
    if is_key buf then write_key k name buf else quit (negsuc 0)
checked_key k name too_short = quit (negsuc 0)
checked_key k name overrun = faulty
checked_key k name unfinished = faulty

-- keybuf as memset leaves it.
abbrev pub keybuf : Keys → List ℕ
keybuf k = replicate pubkey_size 0 ++ (k.stack ∷ [])

-- What follows the search for the peer's section: every round of the loop takes a byte of stdin.
unfoldable pub import_for : Keys → List ℕ → Imported
unfolding read_key is_key
import_for k name =
    if ltb path_max (length (key_path k name))
    then quit (negsuc 0)
    else checked_key k name (read_key (length k.stdin + 1) 0 (keybuf k) k.stdin)

module _ (c : Configs) (conf : c.Config) (item_maxlen : ℕ) where
  abbrev pub has_section : List ℕ → Bool
  has_section name = elim (c.find_section conf name) [ none ↦ false | some items ↦ true ]

  abbrev pub nick_is : List ℕ → Option (Option (List ℕ)) → Bool
  nick_is name none = false
  nick_is name (some none) = false
  nick_is name (some (some nick)) = strncmp_eq item_maxlen nick name

  -- The section of the first peer with that nick, which may be missing.
  unfoldable pub by_nick : List ℕ → List (List ℕ × Option (List ℕ)) → Option (List ℕ)
  by_nick name [] = none
  by_nick name ((key, val) ∷ items) =
      let rest = by_nick name items in
      if nick_is name (c.find_item conf (codes "Nick") key)
      then (if has_section key then some key else none)
      else rest

  -- The name of the section of the peer that argv[2] names, if the peer is found.
  unfoldable pub peer_section : List ℕ → Option (List ℕ)
  unfolding by_nick
  peer_section name = elim (c.find_section conf (codes "Peers")) [
    | none ↦ none
    | some items ↦ if has_section name then some name else by_nick name items
  ]

  -- The case for the option, by argv.
  unfoldable pub import_key : Keys → List (List ℕ) → Imported
  unfolding peer_section import_for
  import_key k (self ∷ option ∷ name ∷ []) = elim (peer_section name) [
    | none ↦ quit (pos 0)
    | some section ↦ import_for k section
  ]
  import_key k argv = quit (pos 0)
