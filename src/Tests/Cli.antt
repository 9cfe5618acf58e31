-- ===== src/Tests/Cli.antt =====
-- The command line client at concrete inputs.
use tapi2p.Base.{
  ℕ, ◌≡◌, refl, arith, pos, none, some, List, [], ◌∷◌, ◌++◌, true, false, codes, bytes_eq,
  replicate, length, if◌then◌else◌,
}
use tapi2p.Event.Types.{setup}
use tapi2p.Handlers.World.{Configs}
use tapi2p.Handlers.Setup.{Core, handlesetup}
use tapi2p.Cli.{
  atoll, Given, opt_a, opt_p, Setting, sent, showed, usage_help, event_bytes, returned,
}
use tapi2p.Cli.Main.{main, setup_root}
use tapi2p.Cli.ImportKey.{Keys, peer_section, import_key, stored, begin_line, end_line}
use tapi2p.Cli.ImportKey.Stored.{import_key-stored}
use tapi2p.Cli.AddingPeers.{AllIgnored, main-AllIgnored}
use tapi2p.Cli.SettingUp.{setup_options, port_first, main-handlesetup}
use tapi2p.Tests.Json.{tags, tag_writer, tags-Agrees, txt, print}

-- A peer with a section of its own, and a nick in it.
abbrev friends : Configs
friends = record {
  Config = Unit {0};
  add = λ c s k v. tt;
  find_item = λ c k s. if bytes_eq k (codes "Nick") then some (some (codes "bo")) else none;
  find_section =
      λ c s. if bytes_eq s (codes "bo") then none else some ((codes "10.0.0.1", none) ∷ []);
}

abbrev key_text : List ℕ
key_text = begin_line ++ (replicate 748 65 ++ end_line)

abbrev keys : Keys
keys = record {
  keypath = codes "/k/";
  stdin = key_text ++ (66 ∷ []);
  stack = 9;
  opens = true;
  writes = true;
}

abbrev setting : Setting
setting = record {
  socket_fd = pos 5;
  connect_fails = false;
  incoming = record { bytes = []; fails = false; at_once = 64 };
  malloc = record { address = 1000; leftover = 0; garbage = [] };
  argv = replicate 5 (codes "x");
  behind_argv = [];
  own_key = none;
  keys = keys;
}

abbrev core : Core friends tags
core = record { config = tt; flushed = []; run_threads = 1 }

abbrev setup_text : List ℕ
setup_text = print (setup_root friends tt 256 tag_writer setting (codes "me") (codes "5000"))

main-handlesetup_example :
    (main friends tt 256 tag_writer setting (setup_options (codes "me") (codes "5000")) ≡ (
      sent (event_bytes setting setup (some setup_text) (length setup_text)) ∷ [],
      returned (pos 0),
    ))
    × (handlesetup friends tags true core setup_text
        ≡ some (record core { flushed = tt ∷ []; run_threads = 2 }))
    × (main friends tt 256 tag_writer setting (port_first (codes "me") (codes "5000"))
        ≡ (showed usage_help ∷ [], returned (pos 0)))
unfolding atoll
main-handlesetup_example =
    main-handlesetup friends tt 256 tags tag_writer tags-Agrees setting (codes "me") (codes "5000")
      core 5000 (omega arith) (omega arith) (txt (codes "me")) refl refl setup_text refl
      (omega arith) refl refl

abbrev add_options : List Given
add_options =
    record { letter = opt_p; arg = codes "5000" }
    ∷ record { letter = opt_a; arg = codes "10.0.0.1" }
    ∷ []

main-AllIgnored_example :
    AllIgnored friends tt 256 tags tag_writer tags-Agrees setting true core
      (main friends tt 256 tag_writer setting add_options).0
main-AllIgnored_example =
    main-AllIgnored friends tt 256 tags tag_writer tags-Agrees setting true core add_options
      (tt, (tt, tt))

import_key-stored_example :
    import_key friends tt 256 keys (codes "tapi2p" ∷ codes "-i" ∷ codes "bo" ∷ [])
    ≡ stored (record { path = codes "/k/public_key_10.0.0.1"; bytes = key_text })
unfolding peer_section
import_key-stored_example =
    import_key-stored friends tt 256 keys (codes "tapi2p") (codes "-i") (codes "bo")
      (codes "10.0.0.1") refl (omega arith) refl refl (omega arith) (omega arith)
