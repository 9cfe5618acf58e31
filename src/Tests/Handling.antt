-- ===== src/Tests/Handling.antt =====
-- The handlers at concrete inputs, with a configuration that is the list of its items and JSON
-- that is one object.
use tapi2p.Base.{
  ℕ, ℤ, pos, Option, none, some, List, [], ◌∷◌, ◌++◌, Bool, true, false, codes, replicate,
  if◌then◌else◌, bytes_eq,
}
use tapi2p.Handlers.World.{Configs, Jansson}
use tapi2p.Handlers.Setup.{Core}
use tapi2p.Handlers.AddPeer.{State, Disk, handleaddpeer, begin_public_key, end_public_key}
use tapi2p.Handlers.AddPeer.Laws.{Outcome, handleaddpeer-Outcome}

abbrev Item : Type 0
Item = List ℕ × (List ℕ × Option (List ℕ))

abbrev items : Configs
items = record {
  Config = List Item;
  add = λ c s k v. (s, (k, v)) ∷ c;
  find_item = λ c k s. none;
  find_section = λ c s. none;
}

-- Values, or an object of three strings and an integer.
data Value : Type 0 where
  object : List ℕ → ℤ → List ℕ → Value
  text : List ℕ → Value
  number : ℤ → Value

abbrev get : Value → List ℕ → Option Value
get (object a n k) name =
    if bytes_eq name (codes "peer_ip")
    then some (text a)
    else (if bytes_eq name (codes "nick")
        then some (text a)
        else (if bytes_eq name (codes "peer_key") then some (text k) else some (number n)))
get v name = none

abbrev is_object_value : Value → Bool
is_object_value (object a n k) = true
is_object_value v = false

abbrev is_text : Value → Bool
is_text (text s) = true
is_text v = false

abbrev is_number : Value → Bool
is_number (number n) = true
is_number v = false

abbrev text_of : Value → List ℕ
text_of (text s) = s
text_of v = []

abbrev number_of : Value → ℤ
number_of (number n) = n
number_of v = pos 0

-- Every text is read as the one object.
abbrev reads : Value → Jansson
reads v = record {
  Json = Value;
  loads = λ bytes. some v;
  is_object = is_object_value;
  is_array = λ x. false;
  is_string = is_text;
  is_integer = is_number;
  is_null = λ x. false;
  object_get = get;
  elements = λ x. [];
  string_value = text_of;
  integer_value = number_of;
}

abbrev account : Jansson
account = reads (object (codes "me") (pos 5000) [])

abbrev unset : Core items account
unset = record { config = []; flushed = []; run_threads = 1 }

abbrev named : List Item
named =
    (codes "Account", (codes "Port", some (codes "5000")))
    ∷ (codes "Account", (codes "Nick", some (codes "me")))
    ∷ []

abbrev set_up : Core items account
set_up = record { config = named; flushed = named ∷ []; run_threads = 2 }

abbrev key : List ℕ
key = begin_public_key ++ (replicate 748 65 ++ end_public_key)

abbrev request : Jansson
request = reads (object (codes "10.0.0.1") (pos 5000) key)

abbrev disk : Disk
disk = record { key_opens = true; key_writes = true; config_opens = true }

abbrev no_keys : State items request (λ ip. true) (codes "k/")
no_keys = record { config = []; flushed = []; key_files = []; replies = [] }

handleaddpeer-Outcome_example :
    Outcome items request
      (λ ip. true)
      (codes "k/")
      disk
      []
      no_keys
      (handleaddpeer items request (λ ip. true) (codes "k/") disk no_keys [])
handleaddpeer-Outcome_example =
    handleaddpeer-Outcome items request (λ ip. true) (codes "k/") disk no_keys []
