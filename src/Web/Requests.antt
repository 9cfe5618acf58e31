-- ===== src/Web/Requests.antt =====
-- What send_json makes of a text from the browser.
use tapi2p.Base.{
  ℕ, ◌+◌, ◌<◌, ◌≡◌, ℤ, negsuc, eq_ℤ, Option, none, some, List, [], ◌∷◌, true, false, ◌||◌, length,
  codes,
}
use tapi2p.Event.Types.{ipv4_max, Evt, Alloc}
use tapi2p.Handlers.World.{Configs, Jansson, Writer}
use tapi2p.Web.{frees_twice, Server, Out, quiet, low_bits, int_of, is_some_integer, event_to}

module _ (c : Configs) (j : Jansson) (w : Writer j.Json) where
  open j use {
    Json, loads, is_object, is_string, is_integer, is_null, object_get, string_value, integer_value,
  }

  -- The length that the browser gives.
  abbrev pub data_len_of : Json → ℕ
  data_len_of root = low_bits 32 (int_of c j w (object_get root (codes "data_len")))

  -- The text is an object with an integer command and with data that is a string or null.
  abbrev pub IsCommand : List ℕ → Json → ℤ → Json → Type 0
  IsCommand text root t v =
      (loads text ≡ some root)
      × (is_object root ≡ true)
      × (is_some_integer c j w (object_get root (codes "cmd")) ≡ true)
      × (t ≡ int_of c j w (object_get root (codes "cmd")))
      × (object_get root (codes "data") ≡ some v)
      × ((is_null v || is_string v) ≡ true)

  -- A port and a string that is shorter, with its NUL, than the address of an event.
  abbrev pub HasShortAddress : Json → Type 0
  HasShortAddress root =
      (ip : Json) × (port : Json) × (object_get root (codes "ip") ≡ some ip)
      × (object_get root (codes "port") ≡ some port)
      × (is_string ip ≡ true)
      × (is_integer port ≡ true)
      × (length (string_value ip) + 1 < ipv4_max)

  -- A fault is a value freed twice, an address or a string that is shorter than its length; an event is that of a command other than
  -- -1, and the command -1 asks for the welcome message.
  pub data Served (s : Server) (text : List ℕ) : Option (Out × Server) → Type 0 where
    ignored : Served s text (some (quiet, s))
    asked :
        (root v : Json)
        → IsCommand text root (negsuc 0) v
        → frees_twice c j w root ≡ false
        → Served s text (some (quiet, record s { welcome_message_sent = false }))
    sent :
        (root v : Json) (t : ℤ) (e : Evt)
        → IsCommand text root t v
        → eq_ℤ t (negsuc 0) ≡ false
        → frees_twice c j w root ≡ false
        → e.type ≡ low_bits 8 t
        → e.data_len ≡ data_len_of root
        → Served s text (some (record { to_client = []; to_core = e ∷ [] }, s))
    freed_twice :
        (root v : Json) (t : ℤ)
        → IsCommand text root t v
        → frees_twice c j w root ≡ true
        → Served s text none
    over_read :
        (root v : Json) (t : ℤ)
        → IsCommand text root t v
        → eq_ℤ t (negsuc 0) ≡ false
        → is_string v ≡ true
        → length (string_value v) + 1 < data_len_of root
        → Served s text none
    short_address :
        (root v : Json) (t : ℤ)
        → IsCommand text root t v
        → eq_ℤ t (negsuc 0) ≡ false
        → HasShortAddress root
        → Served s text none

  abbrev HasLength : ℕ → Evt → Type 0
  HasLength n e = e.data_len ≡ n

  -- The event, with its length, or a short address.
  abbrev Addressed : Json → ℕ → Option Evt → Type 0
  Addressed root n none = HasShortAddress root
  Addressed root n (some e) = HasLength n e

  module _ (s : Server) (text : List ℕ) (m : Alloc) (root v : Json) where
    abbrev event_of : Option (List ℕ) → Option Evt
    event_of =
        event_to c j w m (data_len_of root) (object_get root (codes "ip"))
          (object_get root (codes "port"))
