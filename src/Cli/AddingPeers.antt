-- ===== src/Cli/AddingPeers.antt =====
-- tapi2p --add-peer: what the core makes of what the client sends.
use tapi2p.Base.{
  ℕ, ℤ, pos, ltb_ℤ, ◌≡◌, refl, ap, ◌∙◌, Option, none, some, List, [], ◌∷◌, Bool, true, false, ltb,
  length, if◌then◌else◌, codes,
}
use tapi2p.Event.Types.{setup}
use tapi2p.Handlers.World.{Configs, Jansson, Writer, Agrees, get-set_new_other}
use tapi2p.Handlers.Setup.{Core, handlesetup, handlesetup_json, handlesetup_fields}
use tapi2p.Cli.{
  Letter, opt_a, opt_p, opt_n, opt_upper_s, opt_h, opt_l, opt_upper_l, opt_m, opt_f, opt_s, opt_d,
  opt_i, opt_upper_f, opt_unknown, Given, Act, showed, printed, sent, wrote, Args, no_args, Setting,
  event_bytes, send_simple, fd_of, argc,
}
use tapi2p.Cli.Main.{
  Step, next, ends, after_step, both_set, peer_root, send_text, setup_root, step, without_more,
  main_from, main, done,
}

-- The options --add-peer, --port and --nick.
abbrev pub AddsPeer : Letter → Type 0
AddsPeer opt_a = Unit
AddsPeer opt_p = Unit
AddsPeer opt_n = Unit
AddsPeer _ = ⊥

abbrev pub OnlyAdding : List Given → Type 0
OnlyAdding [] = Unit
OnlyAdding (g ∷ gs) = AddsPeer g.letter × OnlyAdding gs

module _ (c : Configs) (conf : c.Config) (item_maxlen : ℕ) (j : Jansson) (w : Writer j.Json)
    (agrees : Agrees j w) (e : Setting) where
  abbrev without_nick : List ℕ → List ℕ → j.Json
  without_nick ip port = peer_root c conf item_maxlen w e ip port none

  without_nick_lem : (ip port : List ℕ) → j.object_get (without_nick ip port) (codes "nick") ≡ none
  without_nick_lem ip port =
      get-set_new_other j w agrees _ (some _) (codes "peer_port") (codes "nick") refl
      ∙ get-set_new_other j w agrees _ (some _) (codes "peer_ip") (codes "nick") refl
      ∙ agrees.get-object (codes "nick")

  no_nick :
      (ip port : List ℕ) (nick : Option (List ℕ))
      → j.object_get (peer_root c conf item_maxlen w e ip port nick) (codes "nick") ≡ none
  no_nick ip port none = without_nick_lem ip port
  no_nick ip port (some nick) =
      get-set_new_other j w agrees _ (w.string nick) (codes "peer_nick") (codes "nick") refl
      ∙ without_nick_lem ip port

  module _ (opens : Bool) (core : Core c j) where
    -- A Setup event that handlesetup leaves the core as it is for; nothing else is sent.
    abbrev pub Ignored : Act → Type 0
    Ignored (showed page) = Unit
    Ignored (printed text) = Unit
    Ignored (wrote file) = ⊥
    Ignored (sent bytes) =
        (text : List ℕ) × (bytes ≡ event_bytes e setup (some text) (length text))
        × (handlesetup c j opens core text ≡ some core)

    abbrev pub AllIgnored : List Act → Type 0
    AllIgnored [] = Unit
    AllIgnored (x ∷ xs) = Ignored x × AllIgnored xs

    ignored_root :
        (root : j.Json)
        → j.object_get root (codes "nick") ≡ none
        → handlesetup_json c j opens core (some root) ≡ some core
    ignored_root root h = by_test (j.is_object root)
      where
        by_test :
            (b : Bool)
            → (if b
                then handlesetup_fields c j opens core
                    (j.object_get root (codes "nick"))
                    (j.object_get root (codes "port"))
                else some core)
              ≡ some core
        by_test true =
            ap
              (λ (n : Option j.Json).
                handlesetup_fields c j opens core n (j.object_get root (codes "port")))
              h
        by_test false = refl

    sent_on-Ignored :
        (fd : ℤ) (text : List ℕ)
        → handlesetup c j opens core text ≡ some core
        → AllIgnored (send_simple e fd setup (some text) (length text))
    sent_on-Ignored fd text h = by_test (ltb_ℤ fd (pos 0))
      where
        by_test :
            (b : Bool)
            → AllIgnored
                (if b then [] else sent (event_bytes e setup (some text) (length text)) ∷ [])
        by_test true = tt
        by_test false = ((text, refl, h), tt)

    send_text-Ignored :
        (root : j.Json) (r : Option (List ℕ))
        → w.dumps root ≡ r
        → j.object_get root (codes "nick") ≡ none
        → AllIgnored (send_text c conf item_maxlen w e setup r).0
    unfolding handlesetup
    send_text-Ignored root none d h = tt
    send_text-Ignored root (some text) d h = sent_on-Ignored (fd_of e) text (
        ap (handlesetup_json c j opens core) (agrees.loads-dumps root text d) ∙ ignored_root root h)

    -- The end of the loop, when no nick of one's own was given.
    without_more-Ignored :
        (args : Args) (ip port : Option (List ℕ))
        → AllIgnored (without_more c conf item_maxlen w e args ip port).0
    without_more-Ignored args none port = (tt, tt)
    without_more-Ignored args (some ip) none = (tt, tt)
    without_more-Ignored args (some ip) (some port) =
        send_text-Ignored (peer_root c conf item_maxlen w e ip port args.peer_nick) _ refl
          (no_nick ip port args.peer_nick)

    -- A step goes on without a nick of one's own, or ends with nothing but texts.
    abbrev Quiet : Step → Type 0
    Quiet (next args) = args.nick ≡ none
    Quiet (ends r) = AllIgnored r.0

    Quiet-if : (b : Bool) (x y : Step) → Quiet x → Quiet y → Quiet (if b then x else y)
    Quiet-if true x y h k = h
    Quiet-if false x y h k = k

    step-Quiet :
        (args : Args) (l : Letter) (arg : List ℕ)
        → AddsPeer l
        → args.nick ≡ none
        → Quiet (step c conf item_maxlen w e args l arg)
    unfolding step
    step-Quiet args opt_a arg adds h = Quiet-if (ltb 9 (argc e)) _ _ (tt, tt) h
    step-Quiet args opt_p arg adds h =
        Quiet-if (both_set args.peer_ip args.peer_nick) (done []) _ tt (by_nick args.nick h)
      where
        by_nick :
            (nick : Option (List ℕ))
            → nick ≡ none
            → Quiet (elim nick [
              | none ↦ next (record args { port = some arg; peer_port = some arg })
              | some name ↦ ends (
                  send_text c conf item_maxlen w e setup
                    (w.dumps (setup_root c conf item_maxlen w e name arg)))
            ])
        by_nick none q = h
        by_nick (some name) q = cc
    step-Quiet args opt_n arg adds h =
        Quiet-if (both_set args.peer_ip args.peer_port) (done []) _ tt h
    step-Quiet args opt_upper_s arg adds h = elim adds [ ]
    step-Quiet args opt_h arg adds h = elim adds [ ]
    step-Quiet args opt_l arg adds h = elim adds [ ]
    step-Quiet args opt_upper_l arg adds h = elim adds [ ]
    step-Quiet args opt_m arg adds h = elim adds [ ]
    step-Quiet args opt_f arg adds h = elim adds [ ]
    step-Quiet args opt_s arg adds h = elim adds [ ]
    step-Quiet args opt_d arg adds h = elim adds [ ]
    step-Quiet args opt_i arg adds h = elim adds [ ]
    step-Quiet args opt_upper_f arg adds h = elim adds [ ]
    step-Quiet args opt_unknown arg adds h = elim adds [ ]

    main_from-Ignored :
        (args : Args) (gs : List Given)
        → OnlyAdding gs
        → args.nick ≡ none
        → AllIgnored (main_from c conf item_maxlen w e args gs).0
    unfolding main_from
    main_from-Ignored args [] adds h = without_more-Ignored args args.peer_ip args.peer_port
    main_from-Ignored args (g ∷ gs) adds h =
        by_step (step c conf item_maxlen w e args g.letter g.arg)
          (step-Quiet args g.letter g.arg adds.0 h) λ args'. main_from-Ignored args' gs adds.1
      where
        by_step :
            (s : Step)
            → Quiet s
            → ((args' : Args)
                → args'.nick ≡ none
                → AllIgnored (main_from c conf item_maxlen w e args' gs).0)
            → AllIgnored (after_step (λ args'. main_from c conf item_maxlen w e args' gs) s).0
        by_step (next args') q rest = rest args' q
        by_step (ends r) q rest = q

    -- No command line of --add-peer, --port and --nick, in any order and number, adds a peer: main
    -- sends nothing, or a Setup event that leaves the core, whatever its state, exactly as it was
    -- when handlesetup gets its text; no file of a key is written.
    pub main-AllIgnored :
        (gs : List Given) → OnlyAdding gs → AllIgnored (main c conf item_maxlen w e gs).0
    unfolding main
    main-AllIgnored gs adds = main_from-Ignored no_args gs adds refl
