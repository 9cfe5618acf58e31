-- ===== src/Cli/Main.antt =====
-- main of ui/cli/cli.c: the loop over the options, and what follows it.
use tapi2p.Base.{
  ℕ, ◌+◌, pos, negsuc, Option, none, some, List, [], ◌∷◌, ◌++◌, Bool, true, false, ◌||◌, ltb,
  if◌then◌else◌, drop, length, codes, bytes_eq, atoi_u16,
}
use tapi2p.Event.Types.{
  EventType, add_file, file_transfer_status, list_peers, message, request_file_list_local,
  request_file_transfer_local, setup, status,
}
use tapi2p.Event.Wire.{Stream}
use tapi2p.Handlers.World.{Configs, Writer, set_new}
use tapi2p.Cli.ImportKey.{Imported, import_key, stored, quit, faulty}
use tapi2p.Cli.{
  Usage, usage_add_peer, usage_setup, usage_help, Letter, opt_a, opt_p, opt_upper_s, opt_n, opt_h,
  opt_l, opt_upper_l, opt_m, opt_f, opt_s, opt_d, opt_i, opt_upper_f, opt_unknown, Given, Act,
  showed, printed, wrote, returned, crashed, Args, no_args, Setting, atoll, argc, Ending, after,
  stream_of, await, print_data, send_simple, send_to_arg, fd_of,
}

-- A case of the switch goes on with the next option, or main ends in it.
pub data Step : Type 0 where
  next : Args → Step
  ends : Ending → Step

abbrev pub after_step : (Args → Ending) → Step → Ending
after_step rest (next args) = rest args
after_step rest (ends r) = r

abbrev pub done : List Act → Step
done acts = ends (acts, returned (pos 0))

-- Two texts that were not set leave the branch.
abbrev pub both_set : Option (List ℕ) → Option (List ℕ) → Bool
both_set (some x) (some y) = true
both_set x y = false

abbrev pub too_many : Step
too_many = done (printed (codes "Too many arguments." ++ (10 ∷ [])) ∷ [])

-- event_recv, and printf of the data of what it returns; `null` is what NULL leads to.
abbrev pub print_received : Setting → Stream → Ending → Ending
print_received e s null = await e s (λ got rest. (print_data got, returned (pos 0))) (λ rest. null)

-- The case of `S`: NULL is passed over.
abbrev pub ask_status : Setting → Ending
ask_status e =
    let fd = fd_of e in
    let transfers = λ (s : Stream).
      after
        (printed (codes "File transfer status:" ++ (10 ∷ []))
          ∷ send_simple e fd file_transfer_status none 0)
        (print_received e s ([], returned (pos 0))) in
    after (printed (codes "tapi2p_core status:" ++ (10 ∷ [])) ∷ send_simple e fd status none 0)
      (await e (stream_of e fd) (λ got rest. after (print_data got) (transfers rest)) transfers)

-- The case of `l`: the listener has printed the answer.
abbrev pub list_all : Setting → Ending
list_all e =
    let fd = fd_of e in
    after (send_simple e fd list_peers none 0) (
      await e (stream_of e fd) (λ got rest. ([], returned (pos 0)))
        (λ rest. ([], returned (pos 0))))

-- The case of `L`; argv ends with a NULL, on which atoi crashes, as the data of NULL does.
abbrev pub list_files : Setting → List (List ℕ) → Ending
list_files e (self ∷ option ∷ ip ∷ []) = ([], crashed)
list_files e (self ∷ option ∷ ip ∷ port ∷ more) =
    after (send_to_arg e (fd_of e) request_file_list_local none 0 (atoi_u16 port))
      (print_received e (stream_of e (fd_of e)) ([], crashed))
list_files e argv =
    after (send_simple e (fd_of e) request_file_list_local none 0)
      (print_received e (stream_of e (fd_of e)) ([], crashed))

-- The case of `f`
abbrev pub ask_file : Setting → List (List ℕ) → Step
ask_file e (self ∷ option ∷ ip ∷ port ∷ sha ∷ []) = done (
    send_to_arg e (fd_of e) request_file_transfer_local (some (sha ++ (0 ∷ []))) (length sha + 1)
      (atoi_u16 port))
ask_file e argv = done (showed usage_help ∷ [])

abbrev pub help_page : List ℕ → Act
help_page topic =
    if bytes_eq topic (codes "a") || bytes_eq topic (codes "add-peer")
    then showed usage_add_peer
    else if bytes_eq topic (codes "s") || bytes_eq topic (codes "setup")
    then showed usage_setup
    else printed (codes "Sorry, there's no help for " ++ (topic ++ (10 ∷ [])))

-- The page for an option that getopt_long does not know, or that wants an argument.
abbrev pub unknown_page : List ℕ → Usage
unknown_page optopt =
    if bytes_eq optopt (codes "a")
    then usage_add_peer
    else if bytes_eq optopt (codes "s")
    then usage_setup
    else usage_help

-- The case of `d`
abbrev pub dump_key : Option (List ℕ) → Ending
dump_key none = ([], returned (negsuc 0))
dump_key (some text) = (printed text ∷ [], returned (pos 0))

abbrev pub imported : Imported → Ending
imported (quit r) = ([], returned r)
imported (stored file) = (wrote file ∷ [], returned (pos 0))
imported faulty = ([], crashed)

module _ (c : Configs) (conf : c.Config) (item_maxlen : ℕ) {J : Type 0} (w : Writer J)
    (e : Setting) where
  open w use {object, array, integer, string, array_append, dumps}

  -- json_dumps, and event_send_simple of its text; strlen of NULL crashes.
  abbrev pub send_text : EventType → Option (List ℕ) → Ending
  send_text t none = ([], crashed)
  send_text t (some text) = (send_simple e (fd_of e) t (some text) (length text), returned (pos 0))

  abbrev pub setup_root : List ℕ → List ℕ → J
  setup_root nick port =
      set_new w (set_new w object (codes "nick") (string nick)) (codes "port")
        (some (integer (atoll port)))

  -- The object for a peer; the address is read as a number.
  abbrev pub with_nick : J → Option (List ℕ) → J
  with_nick root none = root
  with_nick root (some nick) = set_new w root (codes "peer_nick") (string nick)

  abbrev pub peer_root : List ℕ → List ℕ → Option (List ℕ) → J
  peer_root ip port nick =
      with_nick
        (set_new w (set_new w object (codes "peer_ip") (some (integer (atoll ip))))
          (codes "peer_port") (some (integer (atoll port))))
        nick

  -- json_array_append_new does nothing for NULL.
  abbrev pub append_text : J → Option J → J
  append_text root none = root
  append_text root (some v) = array_append root v

  abbrev pub texts_array : J → List (List ℕ) → J
  texts_array root [] = root
  texts_array root (x ∷ xs) = texts_array (append_text root (string x)) xs

  abbrev pub files_root : List (List ℕ) → J
  files_root names = set_new w object (codes "files") (some (texts_array array names))

  -- The case of `p`, once the port is stored; add_peer does nothing.
  abbrev pub with_port : Args → List ℕ → Option (List ℕ) → Step
  with_port args port nick = if both_set args.peer_ip args.peer_nick then done [] else (elim nick [
    | none ↦ next args
    | some name ↦ ends (send_text setup (dumps (setup_root name port)))
  ])

  abbrev pub with_peer_nick : Args → Step
  with_peer_nick args = if both_set args.peer_ip args.peer_port then done [] else next args

  -- The switch.
  unfoldable pub step : Args → Letter → List ℕ → Step
  unfolding await import_key
  step args opt_a arg =
      if ltb 9 (argc e) then too_many else next (record args { peer_ip = some arg })
  step args opt_p arg =
      with_port (record args { port = some arg; peer_port = some arg }) arg args.nick
  step args opt_upper_s arg = ends (ask_status e)
  step args opt_n arg = with_peer_nick (record args { peer_nick = some arg })
  step args opt_h arg = done (help_page arg ∷ [])
  step args opt_l arg = ends (list_all e)
  step args opt_upper_l arg = ends (list_files e e.argv)
  step args opt_m arg =
      done (send_simple e (fd_of e) message (some (arg ++ (0 ∷ []))) (length arg + 1))
  step args opt_f arg = ask_file e e.argv
  step args opt_s arg = if ltb 5 (argc e) then too_many else next (record args { nick = some arg })
  step args opt_d arg = ends (dump_key e.own_key)
  step args opt_i arg = ends (imported (import_key c conf item_maxlen e.keys e.argv))
  step args opt_upper_f arg = ends (send_text add_file (dumps (files_root (drop 2 e.argv))))
  step args opt_unknown arg = done (showed (unknown_page arg) ∷ [])

  -- What follows the loop.
  abbrev pub last_page : Option (List ℕ) → Option (List ℕ) → Usage
  last_page (some nick) none = usage_setup
  last_page nick port = usage_help

  abbrev pub without_more : Args → Option (List ℕ) → Option (List ℕ) → Ending
  without_more args (some ip) none = (showed usage_add_peer ∷ [], returned (pos 0))
  without_more args (some ip) (some port) =
      send_text setup (dumps (peer_root ip port args.peer_nick))
  without_more args none port = (showed (last_page args.nick args.port) ∷ [], returned (pos 0))

  unfoldable pub main_from : Args → List Given → Ending
  unfolding step
  main_from args [] = without_more args args.peer_ip args.peer_port
  main_from args (g ∷ gs) = after_step (λ args'. main_from args' gs) (step args g.letter g.arg)

  unfoldable pub main : List Given → Ending
  unfolding main_from
  main gs = main_from no_args gs
