-- ===== src/Handlers/AddPeer/Laws.antt =====
-- Which peers handleaddpeer adds, and what it changes when it refuses.
use tapi2p.Base.{
  Option, sym, ap, ◌∙◌, if◌then◌else◌, codes, ℕ, ◌≡◌, refl, subst, pos, leb_ℤ, none, some, List,
  ◌∷◌, ◌++◌, Bool, true, false, ◌&&◌,
}
use tapi2p.Handlers.World.{to_int32, Configs, Jansson}
use tapi2p.Handlers.AddPeer.{
  AddPeerError, not_object, no_key_file, no_write, failure, required, optional_nick, Checked,
  allowed, goto_err, ◌>>=◌, ◌>>◌, invalid_ip, invalid_port, invalid_key, require, check_key,
  Request, peer_key_str, Disk, success, State, check_fields, check_values, check_request, with_peer,
  store_request, handleaddpeer,
}

-- Inversion of a chain of checks.
>>=-eq-allowed {ℓ κ} :
    {A : Type ℓ} {B : Type κ} (m : Checked A) (f : A → Checked B) {b : B}
    → (m >>= f) ≡ allowed b
    → (a : A) × (m ≡ allowed a) × (f a ≡ allowed b)
>>=-eq-allowed (allowed a) f h = (a, refl, h)
>>=-eq-allowed (goto_err e) f h = cc

>>-eq-allowed {ℓ} :
    {A : Type ℓ} (m : Checked (Unit {0})) (n : Checked A) {b : A}
    → (m >> n) ≡ allowed b
    → (u : Unit {0}) × (m ≡ allowed u) × (n ≡ allowed b)
>>-eq-allowed (allowed u) n h = (u, refl, h)
>>-eq-allowed (goto_err e) n h = cc

allowed-injective {ℓ} : {A : Type ℓ} {a b : A} → allowed a ≡ allowed b → a ≡ b
allowed-injective h = cc

require_three :
    (p q k : Bool) (a r : Request)
    → (require p invalid_ip >> (require q invalid_port >> (require k invalid_key >> allowed a)))
      ≡ allowed r
    → (p ≡ true) × ((q ≡ true) × ((k ≡ true) × (a ≡ r)))
require_three true true true a r h = (refl, (refl, (refl, cc)))
require_three true true false a r h = cc
require_three true false k a r h = cc
require_three false q k a r h = cc

module _ (c : Configs) (j : Jansson) (resolves : List ℕ → Bool) (keys : List ℕ) where
  open c use {Config}
  open j use {Json, loads}

  -- What the checks promise of a request.
  pub record IsValid (r : Request) : Type 0 where
    pub resolved : resolves r.ip ≡ true
    pub in_range : (leb_ℤ (pos 0) r.port && leb_ℤ r.port (pos 65535)) ≡ true
    pub keyed : check_key r.key ≡ true

  -- The object has an item that passes a test of its kind.
  pub record Item (root : Json) (name : List ℕ) (test : Json → Bool) (v : Json) : Type 0 where
    pub found : j.object_get root name ≡ some v
    pub is_kind : test v ≡ true

  -- The request is what the event asks for: its data parses, and each field is that of an item.
  pub record IsAsked (bytes : List ℕ) (r : Request) : Type 0 where
    pub root : Json
    pub ip : Json
    pub port : Json
    pub key : Json
    pub parsed : loads bytes ≡ some root
    pub ip_item : Item root (codes "peer_ip") j.is_string ip
    pub port_item : Item root (codes "peer_port") j.is_integer port
    pub key_item : Item root (codes "peer_key") j.is_string key
    pub ip_read : r.ip ≡ j.string_value ip
    pub port_read : r.port ≡ to_int32 (j.integer_value port)
    pub key_read : r.key ≡ j.string_value key
    pub nick_read : r.nick ≡ optional_nick c j resolves keys (j.object_get root (codes "peer_nick"))

  required-Item :
      (root : Json) (name : List ℕ) (test : Json → Bool) (e : AddPeerError) (v : Json)
      → required c j resolves keys root name test e ≡ allowed v
      → Item root name test v
  required-Item root name test e v h = by_item (j.object_get root name) refl h
    where
      by_item :
          (o : Option Json)
          → j.object_get root name ≡ o
          → (elim o [ none ↦ goto_err e | some x ↦ if test x then allowed x else goto_err e ])
            ≡ allowed v
          → Item root name test v
      by_item none f g = cc
      by_item (some x) f g = by_kind (test x) refl g
        where
          by_kind :
              (b : Bool)
              → test x ≡ b
              → (if b then allowed x else goto_err e) ≡ allowed v
              → Item root name test v
          by_kind true k p =
              let same : x ≡ v = cc in
              record { found = f ∙ ap some same; is_kind = ap test (sym same) ∙ k }
          by_kind false k p = cc

  check_fields-IsAsked :
      (bytes : List ℕ) (root : Json) (r : Request)
      → loads bytes ≡ some root
      → check_fields c j resolves keys root ≡ allowed r
      → IsAsked bytes r
  unfolding check_fields
  check_fields-IsAsked bytes root r parsed e =
      let (u, e0, f0) = >>-eq-allowed (require (j.is_object root) not_object) _ e in
      let (ip, e1, f1) = >>=-eq-allowed _ _ f0 in
      let (port, e2, f2) = >>=-eq-allowed _ _ f1 in
      let (key, e3, f3) = >>=-eq-allowed _ _ f2 in
      subst (IsAsked bytes) (allowed-injective f3) (record {
        root = root;
        ip = ip;
        port = port;
        key = key;
        parsed = parsed;
        ip_item = required-Item root _ _ _ ip e1;
        port_item = required-Item root _ _ _ port e2;
        key_item = required-Item root _ _ _ key e3;
        ip_read = refl;
        port_read = refl;
        key_read = refl;
        nick_read = refl;
      })

  check_values-allowed :
      (a r : Request)
      → check_values c j resolves keys a ≡ allowed r
      → (resolves a.ip ≡ true)
        × (((leb_ℤ (pos 0) a.port && leb_ℤ a.port (pos 65535)) ≡ true)
            × ((check_key a.key ≡ true) × (a ≡ r)))
  unfolding check_values
  check_values-allowed a r e = require_three _ _ _ a r e

  check_request-IsValid :
      (root : Json) (r : Request)
      → check_request c j resolves keys root ≡ allowed r
      → IsValid r × ((bytes : List ℕ) → loads bytes ≡ some root → IsAsked bytes r)
  unfolding check_request
  check_request-IsValid root r e =
      let (a, e0, f0) =
        >>=-eq-allowed (check_fields c j resolves keys root) (check_values c j resolves keys) e in
      let (x, (y, (z, w))) = check_values-allowed a r f0 in
      (
        subst IsValid w (record { resolved = x; in_range = y; keyed = z }),
        λ bytes parsed. subst (IsAsked bytes) w (check_fields-IsAsked bytes root a parsed e0),
      )

  -- The reply and the configuration's file, by whether that file could be opened.
  abbrev pub Saved : Bool → State c j resolves keys → State c j resolves keys → Type 0
  Saved true s t = (t.flushed ≡ t.config ∷ s.flushed) × (t.replies ≡ success ∷ s.replies)
  Saved false s t = (t.flushed ≡ s.flushed) × (t.replies ≡ s.replies)

  -- What handleaddpeer did to the state: without JSON nothing, with an error it answers with it, and
  -- else the peer of the event is added.
  pub data Outcome (d : Disk) (bytes : List ℕ) (s t : State c j resolves keys) : Type 0 where
    no_json : loads bytes ≡ none → t ≡ s → Outcome d bytes s t
    refused :
        (e : AddPeerError)
        → t.replies ≡ failure e ∷ s.replies
        → t.config ≡ s.config
        → t.flushed ≡ s.flushed
        → Outcome d bytes s t
    peer_added :
        (r : Request)
        → IsAsked bytes r
        → IsValid r
        → d.key_opens ≡ true
        → d.key_writes ≡ true
        → t.config ≡ with_peer c j resolves keys s.config r
        → t.key_files ≡ (keys ++ peer_key_str r, r.key) ∷ s.key_files
        → Saved d.config_opens s t
        → Outcome d bytes s t

  store_request-Outcome :
      (opens writes saves : Bool) (bytes : List ℕ) (s : State c j resolves keys)
      (m : Checked Request)
      → ((r : Request) → m ≡ allowed r → IsAsked bytes r × IsValid r)
      → let d : Disk = record { key_opens = opens; key_writes = writes; config_opens = saves } in
        Outcome d bytes s (store_request c j resolves keys d s m)
  store_request-Outcome opens writes saves bytes s (goto_err e) valid = refused e refl refl refl
  store_request-Outcome false writes saves bytes s (allowed r) valid =
      refused no_key_file refl refl refl
  store_request-Outcome true false saves bytes s (allowed r) valid = refused no_write refl refl refl
  store_request-Outcome true true false bytes s (allowed r) valid =
      peer_added r (valid r refl).0 (valid r refl).1 refl refl refl refl (refl, refl)
  store_request-Outcome true true true bytes s (allowed r) valid =
      peer_added r (valid r refl).0 (valid r refl).1 refl refl refl refl (refl, refl)

  -- handleaddpeer leaves the state alone if the event's data is no JSON; or it answers with an error
  -- and leaves the configuration and its file alone; or it adds the peer whose address, port (as an
  -- int holds it), key and nick are the event's items peer_ip, peer_port, peer_key and peer_nick.
  -- The address of such a peer resolves, its port is in range, its key has the marks of one and has
  -- been stored under keypath(), in a file that could be opened and written; the configuration's
  -- file is then written and the answer is success if that file opens, and otherwise it is neither
  -- written nor is there an answer.
  pub handleaddpeer-Outcome :
      (d : Disk) (s : State c j resolves keys) (bytes : List ℕ)
      → Outcome d bytes s (handleaddpeer c j resolves keys d s bytes)
  unfolding handleaddpeer
  handleaddpeer-Outcome d s bytes = by_root (loads bytes) refl
    where
      by_root :
          (o : Option Json)
          → loads bytes ≡ o
          → Outcome d bytes s (elim o [
            | none ↦ s
            | some root ↦ store_request c j resolves keys d s (check_request c j resolves keys root)
          ])
      by_root none e = no_json e refl
      by_root (some root) e =
          store_request-Outcome d.key_opens d.key_writes d.config_opens bytes s
            (check_request c j resolves keys root)
            λ r f. let (valid, asked) = check_request-IsValid root r f in (asked bytes e, valid)
