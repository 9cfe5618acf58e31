-- ===== src/Tests/Web.antt =====
-- The websocket server at concrete inputs, with JSON texts that stand for one object.
use tapi2p.Base.{
  ℕ, ◌≡◌, refl, arith, ℤ, pos, Option, none, some, List, [], ◌∷◌, Bool, true, false, codes,
  bytes_eq, if◌then◌else◌, replicate,
}
use tapi2p.Event.Types.{Evt, Alloc}
use tapi2p.Handlers.World.{Configs, Jansson, Writer}
use tapi2p.Web.{Server, quiet, writeable, message_of}
use tapi2p.Web.Queue.{IsQueue, coreeventhandlers, writeable-newest_first, max_unsent}

-- A value is a number or a text, and every object has the command 8 and its text.
pub data Value : Type 0 where
  number : ℤ → Value
  text : List ℕ → Value

abbrev pub is_number : Value → Bool
is_number (number n) = true
is_number (text t) = false

abbrev pub is_text : Value → Bool
is_text (number n) = false
is_text (text t) = true

abbrev pub number_of : Value → ℤ
number_of (number n) = n
number_of (text t) = pos 0

abbrev pub text_of : Value → List ℕ
text_of (number n) = []
text_of (text t) = t

abbrev pub field : Value → List ℕ → Option Value
field v name =
    if bytes_eq name (codes "cmd")
    then some (number (pos 8))
    else (if bytes_eq name (codes "data_len")
        then some (number (pos 2))
        else (if bytes_eq name (codes "data") then some v else none))

abbrev pub reader : Jansson
reader = record {
  Json = Value;
  loads = λ bytes. if bytes_eq bytes (codes "{}") then some (text (codes "a")) else none;
  is_object = λ v. true;
  is_array = λ v. false;
  is_string = is_text;
  is_integer = is_number;
  is_null = λ v. false;
  object_get = field;
  elements = λ v. [];
  string_value = text_of;
  integer_value = number_of;
}

-- An object is printed as the last text that was set in it.
abbrev pub last_text : Value → List ℕ → Value → Value
last_text v key (number n) = v
last_text v key (text t) = if bytes_eq key (codes "data") then text t else v

abbrev pub writer : Writer Value
writer = record {
  object = text [];
  array = text [];
  integer = number;
  boolean = λ b. number (pos 1);
  string = λ t. some (text t);
  object_set = last_text;
  array_append = λ v x. v;
  dumps = λ v. some (text_of v);
  is_constant = λ v. false;
}

abbrev pub no_conf : Configs
no_conf = record {
  Config = Unit {0};
  add = λ c s k v. c;
  find_item = λ c k s. none;
  find_section = λ c s. none;
}

abbrev pub event_of : List ℕ → Evt
event_of t = record {
  type = 8;
  fd_from = 0;
  addr = [];
  port = 0;
  data_len = 1;
  data_ptr = 99;
  body = t;
}

abbrev server : Server
server = record {
  corefd = pos 3;
  welcome_message_sent = true;
  unsent_data = 0;
  cells = replicate max_unsent none;
}

server-IsQueue : IsQueue server []
server-IsQueue = record { full = refl; counted = refl; held = tt }

writeable-newest_first_example :
    (s t : Server) × (coreeventhandlers no_conf reader writer
        (event_of (codes "a") ∷ event_of (codes "b") ∷ [])
        server
      ≡ some s)
    × (writeable no_conf reader writer (some tt) s
        ≡ some (record quiet { to_client = codes "b" ∷ codes "a" ∷ [] }, t))
    × IsQueue t []
unfolding message_of
writeable-newest_first_example =
    writeable-newest_first no_conf reader writer (some tt)
      (event_of (codes "a") ∷ event_of (codes "b") ∷ []) server server-IsQueue refl refl
      (omega arith)

abbrev full_server : Server
full_server = record server { unsent_data = 16; cells = replicate max_unsent (some (codes "a")) }

abbrev pub memory : Alloc
memory = record { address = 64; leftover = 0; garbage = [] }
