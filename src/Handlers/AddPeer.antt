-- ===== src/Handlers/AddPeer.antt =====
-- handleaddpeer, check_ip and check_key of core/handlers.c.
pub mod Laws
use tapi2p.Base.{
  ℕ, ◌+◌, ℤ, pos, negsuc, ltb_ℤ, leb_ℤ, Option, none, some, List, [], ◌∷◌, ◌++◌, Bool, true, false,
  not, ◌&&◌, ◌||◌, ltb, leb, if◌then◌else◌, take, drop, length, codes, decimal, strncmp_eq,
}
use tapi2p.Handlers.World.{Configs, Jansson, to_int32}

-- The values of `errstr`.
pub data AddPeerError : Type 0 where
  not_object bad_peer_ip bad_peer_port bad_peer_key invalid_ip invalid_port : AddPeerError
  invalid_key no_key_file no_write : AddPeerError

-- How far handleaddpeer has come: a value, or the jump to its label with an error's text.
pub data Checked {ℓ} (V : Type ℓ) : Type ℓ where
  goto_err : AddPeerError → Checked V
  allowed : V → Checked V

infixl 5 ◌>>=◌ ◌>>◌
abbrev pub ◌>>=◌ {μ ν} : {V : Type μ} {W : Type ν} → Checked V → (V → Checked W) → Checked W
goto_err why >>= next = goto_err why
allowed v >>= next = next v

abbrev pub ◌>>◌ {μ} : {W : Type μ} → Checked (Unit {0}) → Checked W → Checked W
goto_err why >> next = goto_err why
allowed u >> next = next

abbrev pub require : Bool → AddPeerError → Checked (Unit {0})
require holds why = if holds then allowed tt else goto_err why

abbrev pub begin_public_key : List ℕ
begin_public_key = codes "-----BEGIN PUBLIC KEY-----\n"

abbrev pub end_public_key : List ℕ
end_public_key = codes "-----END PUBLIC KEY-----\n"

-- At least 800 bytes, the marks at the start and from byte 775 on.
unfoldable pub check_key : List ℕ → Bool
check_key key =
    leb 800 (length key)
    && strncmp_eq 27 key begin_public_key
    && strncmp_eq 25 (drop 775 key) end_public_key

-- What the checks let through.
pub record Request : Type 0 where
  pub ip : List ℕ
  pub port : ℤ
  pub nick : Option (List ℕ)
  pub key : List ℕ

abbrev pub peer_key_str : Request → List ℕ
peer_key_str r = codes "public_key_" ++ r.ip

-- The port as snprintf "%d" writes it; handleaddpeer has refused the negative ones.
abbrev pub port_str : ℤ → List ℕ
port_str (pos n) = decimal 5 n
port_str (negsuc n) = []

-- How opening and writing the key's file, and opening the configuration's, turn out.
pub record Disk : Type 0 where
  pub key_opens : Bool
  pub key_writes : Bool
  pub config_opens : Bool

-- A reply to the caller: success, or the error's text.
pub data Reply : Type 0 where
  success : Reply
  failure : AddPeerError → Reply

-- `resolves` says whether getaddrinfo accepts an address, `keys` is keypath().
module _ (c : Configs) (j : Jansson) (resolves : List ℕ → Bool) (keys : List ℕ) where
  open c use {Config, add}
  open j use {
    Json, loads, is_object, is_string, is_integer, object_get, string_value, integer_value,
  }

  pub record State : Type 0 where
    pub config : Config
    pub flushed : List Config
    pub key_files : List (List ℕ × List ℕ)
    pub replies : List Reply

  -- An item of the object that passes a test of its kind.
  abbrev pub required : Json → List ℕ → (Json → Bool) → AddPeerError → Checked Json
  required root name test e = elim (object_get root name) [
    | none ↦ goto_err e
    | some v ↦ if test v then allowed v else goto_err e
  ]

  -- json_string_value is NULL for an item that is no string; then no nick is stored.
  abbrev pub optional_nick : Option Json → Option (List ℕ)
  optional_nick none = none
  optional_nick (some v) = if is_string v then some (string_value v) else none

  -- The shape of the data: an object whose items are of the kinds the code asks for.
  unfoldable pub check_fields : Json → Checked Request
  check_fields root = do
    require (is_object root) not_object
    peer_ip ← required root (codes "peer_ip") is_string bad_peer_ip
    peer_port ← required root (codes "peer_port") is_integer bad_peer_port
    peer_key ← required root (codes "peer_key") is_string bad_peer_key
    allowed (record {
      ip = string_value peer_ip;
      port = to_int32 (integer_value peer_port);
      nick = optional_nick (object_get root (codes "peer_nick"));
      key = string_value peer_key;
    })

  -- check_ip, the port's range, check_key.
  unfoldable pub check_values : Request → Checked Request
  unfolding check_key
  check_values r = do
    require (resolves r.ip) invalid_ip
    require (leb_ℤ (pos 0) r.port && leb_ℤ r.port (pos 65535)) invalid_port
    require (check_key r.key) invalid_key
    allowed r

  unfoldable pub check_request : Json → Checked Request
  unfolding check_fields check_values
  check_request root = check_fields root >>= check_values

  abbrev pub with_nick : Config → Request → Config
  with_nick conf r = elim r.nick [
    | none ↦ conf
    | some nick ↦ add conf r.ip (codes "Nick") (some nick)
  ]

  -- The items that handleaddpeer adds.
  abbrev pub with_peer : Config → Request → Config
  with_peer conf r =
      with_nick
        (add (add (add conf (codes "Peers") r.ip none) r.ip (codes "Port") (some (port_str r.port)))
          r.ip (codes "Key") (some (peer_key_str r)))
        r

  abbrev pub replied : Reply → State → State
  replied reply s = record s { replies = reply ∷ s.replies }

  -- After the key is stored. Without the configuration's file there is no reply.
  abbrev pub store_peer : Disk → State → Request → State
  store_peer d s r =
      let conf = with_peer s.config r in
      let named = record s {
        config = conf;
        key_files = (keys ++ peer_key_str r, r.key) ∷ s.key_files;
      } in
      if d.config_opens
      then replied success (record named { flushed = conf ∷ s.flushed })
      else named

  abbrev pub store_request : Disk → State → Checked Request → State
  store_request d s (goto_err e) = replied (failure e) s
  store_request d s (allowed r) =
      if d.key_opens
      then (if d.key_writes
          then store_peer d s r
          else replied (failure no_write)
              (record s { key_files = (keys ++ peer_key_str r, []) ∷ s.key_files }))
      else replied (failure no_key_file) s

  -- handleaddpeer of an event with this data; data that is no JSON gets no reply.
  unfoldable pub handleaddpeer : Disk → State → List ℕ → State
  unfolding check_request
  handleaddpeer d s bytes = elim (loads bytes) [
    | none ↦ s
    | some root ↦ store_request d s (check_request root)
  ]
