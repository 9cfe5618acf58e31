-- ===== src/Cli/SettingUp.antt =====
-- tapi2p --setup: what the client sends, and what handlesetup of core/handlers.c makes of it.
use tapi2p.Base.{
  ℕ, ◌<◌, ◌≤◌, ◌≡◌, refl, ap, ap₂, ◌∙◌, ℤ, pos, ltb_ℤ, Option, some, List, [], ◌∷◌, Bool, true,
  false, ◌&&◌, length, if◌then◌else◌, codes, not_less, arith,
}
use tapi2p.Event.Types.{setup}
use tapi2p.Handlers.World.{
  Configs, Jansson, Writer, Agrees, get-set_new_other, get-set_new_self, set_new, to_int32,
}
use tapi2p.Handlers.Setup
use tapi2p.Handlers.Setup.{
  Core, port_str, with_account, store_account, handlesetup, handlesetup_json, handlesetup_fields,
  after_setup,
}
use tapi2p.Handlers.Setup.Laws.{few_digits}
use tapi2p.Cli.{
  opt_p, opt_s, Given, showed, usage_help, sent, no_args, Setting, event_bytes, atoll, fd_of, argc,
  core_socket, returned,
}
use tapi2p.Cli.Main.{setup_root, send_text, step, main_from, main, too_many, next, after_step}

abbrev pub setup_options : List ℕ → List ℕ → List Given
setup_options nick port =
    record { letter = opt_s; arg = nick } ∷ record { letter = opt_p; arg = port } ∷ []

abbrev pub port_first : List ℕ → List ℕ → List Given
port_first nick port =
    record { letter = opt_p; arg = port } ∷ record { letter = opt_s; arg = nick } ∷ []

to_int32-small : (n : ℕ) → n < 10000 → to_int32 (pos n) ≡ pos n
to_int32-small n h = ground arith

module _ (c : Configs) (conf : c.Config) (item_maxlen : ℕ) (j : Jansson) (w : Writer j.Json)
    (agrees : Agrees j w) (e : Setting) (nick port : List ℕ) where
  connected :
      ltb_ℤ (pos 0) e.socket_fd ≡ true → e.connect_fails ≡ false → ltb_ℤ (fd_of e) (pos 0) ≡ false
  unfolding core_socket
  connected made connects = ground arith

  -- handlesetup of the text, once the values are read.
  module _ (core : Core c j) (q : ℕ) (positive : 0 < q) (few : q < 10000) where
    abbrev pub set_up : Core c j
    set_up = record core {
      config = with_account c j core.config nick q;
      flushed = with_account c j core.config nick q ∷ core.flushed;
      run_threads = 2;
    }

    stored_lem : after_setup c j (Setup.setup c j true core nick (to_int32 (pos q))) ≡ some set_up
    unfolding Setup.setup
    stored_lem =
        ap (λ (n : ℤ). after_setup c j (Setup.setup c j true core nick n)) (to_int32-small q few)
        ∙ ground (arith, few_digits q few)

    module _ (v : j.Json) (texted : w.string nick ≡ some v) (read : atoll port ≡ pos q) where
      root : j.Json
      root = setup_root c conf item_maxlen w e nick port

      nick_lem : j.object_get root (codes "nick") ≡ some v
      unfolding root
      nick_lem =
          get-set_new_other j w agrees _ (some _) (codes "port") (codes "nick") refl
          ∙ ap
              (λ (o : Option j.Json).
                j.object_get (set_new w w.object (codes "nick") o) (codes "nick"))
              texted
          ∙ get-set_new_self j w agrees w.object v (codes "nick")

      port_lem : j.object_get root (codes "port") ≡ some (w.integer (pos q))
      unfolding root
      port_lem =
          get-set_new_self j w agrees _ (w.integer (atoll port)) (codes "port")
          ∙ ap (λ (n : ℤ). some (w.integer n)) read

      root-object : j.is_object root ≡ true
      unfolding root
      root-object =
          agrees.object_set_lem _ _ (codes "port")
          ∙ ap (λ (o : Option j.Json). j.is_object (set_new w w.object (codes "nick") o)) texted
          ∙ agrees.object_set_lem w.object v (codes "nick")
          ∙ agrees.object_lem

      handled :
          (text : List ℕ) → w.dumps root ≡ some text → handlesetup c j true core text ≡ some set_up
      unfolding handlesetup
      handled text d =
          ap (handlesetup_json c j true core) (agrees.loads-dumps root text d)
          ∙ ap
              (λ (b : Bool).
                if b
                then handlesetup_fields c j true core (j.object_get root (codes "nick"))
                    (j.object_get root (codes "port"))
                else some core)
              root-object
          ∙ ap₂ (handlesetup_fields c j true core) nick_lem port_lem
          ∙ ap₂
              (λ (b b' : Bool).
                if b && b'
                then after_setup c j (
                    Setup.setup c j true core (j.string_value v)
                      (to_int32 (j.integer_value (w.integer (pos q)))))
                else some core)
              (agrees.string_lem nick v texted).0 (agrees.integer_lem (pos q)).0
          ∙ ap₂ (λ (t : List ℕ) (n : ℤ). after_setup c j (Setup.setup c j true core t (to_int32 n)))
              (agrees.string_lem nick v texted).1 (agrees.integer_lem (pos q)).1
          ∙ stored_lem

      -- tapi2p --setup nick --port port, with a nick that jansson takes, a port of one to four
      -- digits and a core that listens: main sends one event and returns 0; when handlesetup gets
      -- its text, it stores the nick and the port, flushes the configuration, whose file opens,
      -- and sets run_threads to 2. With --port before --setup main sends nothing and shows the
      -- help.
      pub main-handlesetup :
          (text : List ℕ)
          → w.dumps (setup_root c conf item_maxlen w e nick port) ≡ some text
          → argc e ≤ 5
          → ltb_ℤ (pos 0) e.socket_fd ≡ true
          → e.connect_fails ≡ false
          → (main c conf item_maxlen w e (setup_options nick port)
              ≡ (sent (event_bytes e setup (some text) (length text)) ∷ [], returned (pos 0)))
            × (handlesetup c j true core text ≡ some set_up)
            × (main c conf item_maxlen w e (port_first nick port)
                ≡ (showed usage_help ∷ [], returned (pos 0)))
      unfolding main main_from step root
      main-handlesetup text d short made connects = (
        ap
              (λ (b : Bool).
                after_step (λ args. main_from c conf item_maxlen w e args last_port)
                  (if b then too_many else next (record no_args { nick = some nick })))
              (not_less 5 (argc e) short)
            ∙ ap (send_text c conf item_maxlen w e setup) d
            ∙ ap
                (λ (b : Bool). (
                  if b then [] else sent (event_bytes e setup (some text) (length text)) ∷ [],
                  returned (pos 0),
                ))
                (connected made connects),
        handled text d,
        ap
            (λ (b : Bool).
              after_step (λ args. main_from c conf item_maxlen w e args [])
                (if b
                  then too_many
                  else next (record no_args {
                    peer_port = some port;
                    port = some port;
                    nick = some nick;
                  })))
            (not_less 5 (argc e) short),
      )
        where
          last_port : List Given
          last_port = record { letter = opt_p; arg = port } ∷ []
