-- ===== src/Handlers/Setup.antt =====
-- handlesetup and setup of core/handlers.c.
pub mod Laws
use tapi2p.Base.{
  ℕ, ◌+◌, ◌-◌, ℤ, pos, negsuc, leb_ℤ, ltb_ℤ, Option, none, some, List, [], ◌∷◌, Bool, true, false,
  not, ◌&&◌, ◌||◌, ltb, leb, if◌then◌else◌, length, codes, decimal,
}
use tapi2p.Handlers.World.{Configs, Jansson, to_int32}

module _ (c : Configs) (j : Jansson) where
  open c use {Config, add}
  open j use {
    Json, loads, is_object, is_string, is_integer, object_get, string_value, integer_value,
  }

  -- The configuration, what has been flushed to its file, and the core's run_threads.
  pub record Core : Type 0 where
    pub config : Config
    pub flushed : List Config
    pub run_threads : ℕ

  -- sprintf(portstr, "%hu", port16)
  abbrev pub port_str : ℕ → List ℕ
  port_str port = decimal 5 port

  -- The two items that setup adds.
  abbrev pub with_account : Config → List ℕ → ℕ → Config
  with_account conf nick port =
      add (add conf (codes "Account") (codes "Nick") (some nick)) (codes "Account") (codes "Port")
        (some (port_str port))

  -- setup, with a port in range: `opens` is whether fopen opens the configuration's file.
  abbrev pub store_account : Bool → Core → List ℕ → ℕ → Bool × Core
  store_account opens s nick port =
      let conf = with_account s.config nick port in
      if opens
      then (true, record s { config = conf; flushed = conf ∷ s.flushed })
      else (false, record s { config = conf })

  -- setup; `none` where sprintf writes past the five bytes of portstr, the NUL included.
  unfoldable pub setup : Bool → Core → List ℕ → ℤ → Option (Bool × Core)
  setup opens s nick (negsuc n) = some (false, s)
  setup opens s nick (pos port) =
      if leb port 0 || ltb 65535 port
      then some (false, s)
      else (if leb (length (port_str port) + 1) 5
          then some (store_account opens s nick port)
          else none)

  abbrev pub after_setup : Option (Bool × Core) → Option Core
  after_setup none = none
  after_setup (some (ready, s)) = some (if ready then record s { run_threads = 2 } else s)

  abbrev pub handlesetup_fields : Bool → Core → Option Json → Option Json → Option Core
  handlesetup_fields opens s none port = some s
  handlesetup_fields opens s (some nick) none = some s
  handlesetup_fields opens s (some nick) (some port) =
      let next = after_setup (setup opens s (string_value nick) (to_int32 (integer_value port))) in
      if is_string nick && is_integer port then next else some s

  abbrev pub handlesetup_json : Bool → Core → Option Json → Option Core
  handlesetup_json opens s none = some s
  handlesetup_json opens s (some root) =
      if is_object root
      then handlesetup_fields opens s (object_get root (codes "nick"))
          (object_get root (codes "port"))
      else some s

  -- handlesetup of an event with this data.
  unfoldable pub handlesetup : Bool → Core → List ℕ → Option Core
  unfolding setup
  handlesetup opens s bytes = handlesetup_json opens s (loads bytes)
