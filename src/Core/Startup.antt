-- ===== src/Core/Startup.antt =====
-- core_start of core/core.c: the phase in which the core waits to be set up, and what it has
-- registered when it runs. What core_init and privkey_load return is an argument, and so is the
-- value of run_threads after each round of the loop of the setup phase.
pub mod Laws
use tapi2p.Base.{ℕ, ℤ, pos, negsuc, List, [], ◌∷◌, Bool, true, false, ◌==◌, if◌then◌else◌}
use tapi2p.Event.Types.{get_public_key, setup, status}
use tapi2p.Event.Callbacks.{Registry, event_addlistener, event_removelistener}
use tapi2p.Core.Routing.{
  Handler, address, handlegetpublickey, handlesetup, handlestatus, running_listeners,
}

-- How core_start goes on: it returns with a result, it is still in the setup phase, or it runs, with
-- its listeners and setupstatus.
pub data Started : Type 0 where
  ended : ℤ → Started
  in_setup : Registry → Started
  running : Registry → Bool → Started

module _ (before : Handler → ℕ) (config_ptr setupstatus_ptr : ℕ) where
  -- The listeners of the setup phase.
  unfoldable pub setup_listeners : Registry → Registry
  unfolding event_addlistener
  setup_listeners reg =
      let r0 =
        event_addlistener reg setup (address before config_ptr setupstatus_ptr handlesetup) 0 in
      let r1 =
        event_addlistener r0 status (address before config_ptr setupstatus_ptr handlestatus)
          setupstatus_ptr in
      event_addlistener r1 get_public_key
        (address before config_ptr setupstatus_ptr handlegetpublickey) 0

  -- What is left of them when the core has been set up.
  unfoldable pub leave_setup : Registry → Registry
  unfolding event_removelistener
  leave_setup reg =
      event_removelistener
        (event_removelistener reg setup (address before config_ptr setupstatus_ptr handlesetup))
        status (address before config_ptr setupstatus_ptr handlestatus)

  -- From privkey_load on.
  abbrev pub run_core : Bool → Registry → Started
  run_core loads reg =
      if loads
      then running (running_listeners before config_ptr setupstatus_ptr reg) true
      else ended (negsuc 0)

  -- The loop, by run_threads after each round: it goes on while that is 1; 0 is core_stop.
  unfoldable pub setup_phase : Bool → Registry → List ℕ → Started
  unfolding leave_setup running_listeners
  setup_phase loads reg [] = in_setup reg
  setup_phase loads reg (threads ∷ more) =
      let rest = setup_phase loads reg more in
      if threads == 1
      then rest
      else if threads == 0
      then ended (pos 0)
      else run_core loads (leave_setup reg)

  -- By what core_init returns.
  unfoldable pub core_start : ℤ → Bool → List ℕ → Registry → Started
  unfolding setup_listeners setup_phase running_listeners event_addlistener
  core_start (negsuc n) loads rounds reg = ended (negsuc 0)
  core_start (pos n) loads rounds reg =
      if n == 0
      then run_core loads (
          event_addlistener reg get_public_key
            (address before config_ptr setupstatus_ptr handlegetpublickey) 0)
      else setup_phase loads (setup_listeners reg) rounds
