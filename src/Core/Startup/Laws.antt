-- ===== src/Core/Startup/Laws.antt =====
-- core_start of core/core.c: its two ways to a running core.
use tapi2p.Base.{
  ℕ, suc, ◌≡◌, refl, ap, ap₂, set, ◌∙◌, pos, List, ◌∷◌, ◌++◌, Bool, true, false, ◌==◌,
  if◌then◌else◌, replicate, arith, zero,
}
use tapi2p.Event.Types.{
  EventType, event_code, add_file, add_peer, file_list, file_part, file_part_list,
  file_transfer_status, get_public_key, list_peers, message, metadata, peer_connected,
  peer_disconnected, request_file_list, request_file_list_local, request_file_part,
  request_file_part_list, request_file_transfer, request_file_transfer_local, setup, status,
}
use tapi2p.Event.Callbacks.{
  Row, Registry, initial, cb_max, no_slot, event_run_callbacks, event_addlistener, remove_slot,
}
use tapi2p.Core.Routing.{
  Handler, address, handlegetpublickey, handlesetup, handlestatus, running_listeners,
  core_listeners,
}
use tapi2p.Core.Startup.{running, run_core, setup_listeners, leave_setup, setup_phase, core_start}

abbrev empty_row : Row
empty_row = record { allocated = true; slots = replicate cb_max no_slot }

-- The row of a type when its only listener is removed, by whether the addresses agree.
abbrev row_left : Bool → ℕ → ℕ → Row
row_left same cb d = record {
  allocated = true;
  slots =
      if same
      then replicate cb_max no_slot
      else record { cb = cb; cb_data = d } ∷ remove_slot cb (replicate 31 no_slot);
}

same_address : (n : ℕ) → (suc n == suc n) ≡ true
same_address n = ground arith

module _ (before : Handler → ℕ) (config_ptr setupstatus_ptr : ℕ) where
  -- The listeners of a core that was set up.
  abbrev pub after_setup : Registry
  after_setup = running_listeners before config_ptr setupstatus_ptr (
      leave_setup before config_ptr setupstatus_ptr
        (setup_listeners before config_ptr setupstatus_ptr initial))

  -- The rows that the setup phase has allocated, empty again.
  abbrev rows : Registry
  rows =
      event_addlistener
        (set (set initial (event_code setup) empty_row) (event_code status) empty_row)
        get_public_key (address before config_ptr setupstatus_ptr handlegetpublickey) 0

  leave_setup-rows :
      leave_setup before config_ptr setupstatus_ptr
        (setup_listeners before config_ptr setupstatus_ptr initial)
      ≡ rows
  unfolding leave_setup setup_listeners event_addlistener
  leave_setup-rows =
      ap₂
        (λ (a b : Bool).
          set (set rows (event_code setup) (row_left a (suc (before handlesetup)) 0))
            (event_code status) (row_left b (suc (before handlestatus)) setupstatus_ptr))
        (same_address (before handlesetup)) (same_address (before handlestatus))

  rows-calls :
      (t : EventType)
      → event_run_callbacks
          (running_listeners before config_ptr setupstatus_ptr rows)
          (event_code t)
        ≡ event_run_callbacks
            (core_listeners before config_ptr setupstatus_ptr initial)
            (event_code t)
  unfolding event_run_callbacks running_listeners core_listeners event_addlistener
  rows-calls add_file = refl
  rows-calls add_peer = refl
  rows-calls file_list = refl
  rows-calls file_part = refl
  rows-calls file_part_list = refl
  rows-calls file_transfer_status = refl
  rows-calls get_public_key = refl
  rows-calls list_peers = refl
  rows-calls message = refl
  rows-calls metadata = refl
  rows-calls peer_connected = refl
  rows-calls peer_disconnected = refl
  rows-calls request_file_list = refl
  rows-calls request_file_list_local = refl
  rows-calls request_file_part = refl
  rows-calls request_file_part_list = refl
  rows-calls request_file_transfer = refl
  rows-calls request_file_transfer_local = refl
  rows-calls setup = refl
  rows-calls status = refl

  same-calls :
      (t : EventType)
      → event_run_callbacks after_setup (event_code t)
        ≡ event_run_callbacks
            (core_listeners before config_ptr setupstatus_ptr initial)
            (event_code t)
  same-calls t =
      ap
        (λ (reg : Registry).
          event_run_callbacks (running_listeners before config_ptr setupstatus_ptr reg)
            (event_code t))
        leave_setup-rows
      ∙ rows-calls t

  setup_phase-set_up :
      (waits : ℕ) (more : List ℕ) (reg : Registry)
      → setup_phase before config_ptr setupstatus_ptr true reg (replicate waits 1 ++ (2 ∷ more))
        ≡ running
            (running_listeners before config_ptr setupstatus_ptr
              (leave_setup before config_ptr setupstatus_ptr reg))
            true
  unfolding setup_phase
  setup_phase-set_up zero more reg = refl
  setup_phase-set_up (suc waits) more reg = setup_phase-set_up waits more reg

  -- A core with a configuration runs at once, and one without, in which core_init returns a positive
  -- number, runs after any number of rounds of the setup phase, as soon as handlesetup has set
  -- run_threads to 2, if the private key loads; setupstatus is true, and for every event type the
  -- two run the same callbacks with the same data.
  pub core_start-same :
      (n waits : ℕ) (more rounds : List ℕ)
      → (core_start before config_ptr setupstatus_ptr (pos 0) true rounds initial
          ≡ running (core_listeners before config_ptr setupstatus_ptr initial) true)
        × (core_start before config_ptr setupstatus_ptr
              (pos (suc n))
              true
              (replicate waits 1 ++ (2 ∷ more))
              initial
            ≡ running after_setup true)
        × ((t : EventType)
            → event_run_callbacks after_setup (event_code t)
              ≡ event_run_callbacks
                  (core_listeners before config_ptr setupstatus_ptr initial)
                  (event_code t))
  unfolding core_start core_listeners
  core_start-same n waits more rounds = (
    refl,
    ap
          (λ (b : Bool).
            if b
            then run_core before config_ptr setupstatus_ptr true (
                event_addlistener initial get_public_key
                  (address before config_ptr setupstatus_ptr handlegetpublickey) 0)
            else setup_phase before config_ptr setupstatus_ptr true
                (setup_listeners before config_ptr setupstatus_ptr initial)
                (replicate waits 1 ++ (2 ∷ more)))
          positive
        ∙ setup_phase-set_up waits more (setup_listeners before config_ptr setupstatus_ptr initial),
    same-calls,
  )
    where
      positive : (suc n == 0) ≡ false
      positive = ground arith
