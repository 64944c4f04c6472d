-- ===== src/Tiers/Routes.antt =====
-- Where `route` of tiers.py may send a node.
use tiderace.Base.{arith, false, if◌then◌else◌, not, some, true, ◌&&◌, ◌||◌, ◌≡◌, ◌≢◌, ◌⊎◌}
use tiderace.Tiers.{Probe, Routing, fork, in_process, module_child, refused, restore_tier, route}

module _ {S : Type 0} (r : Routing) (probe : Probe S) (s : S) where
  -- Under the snapshot ladder a node that is not trusted pure runs in-process only if the probe
  -- answered that its module can be restored.
  pub route_sound :
      in_process (route r probe s).0 ≡ true
      → r.restore ≡ true
      → r.trusted_pure ≡ false
      → ((probe s).0 ≡ some true) × ((route r probe s).0 ≡ restore_tier)
  unfolding route in_process
  route_sound h restore untrusted = ground arith

  -- Where the platform has no fork, a node is never routed to a module child, and to a fork only if
  -- neither the run nor the engine asked for it in-process.
  route_forkless :
      r.fork_available ≡ false
      → ((route r probe s).0 ≢ module_child)
        × ¬ (((route r probe s).0 ≡ fork) × ((r.no_fork || r.force_no_fork) ≡ true))
  unfolding route
  route_forkless h = ((λ p. ground arith), (λ p. ground arith))

  -- A module child never opens a further one, and no node is refused where there is a fork.
  route_nested :
      (¬ ((r.in_module_child ≡ true) × ((route r probe s).0 ≡ module_child)))
      × (¬ ((r.fork_available ≡ true) × ((route r probe s).0 ≡ refused)))
  unfolding route
  route_nested = ((λ p. ground arith), (λ p. ground arith))

  -- A recorded disturber, and every node of a module that a child holds, leaves the process, unless
  -- the whole run is in-process by configuration.
  route_must_fork :
      r.restore ≡ true
      → r.no_fork ≡ false
      → (r.recorded_must_fork ≡ true)
        ⊎ ((r.module_child_holds_module ≡ true)
            × (r.in_module_child ≡ false)
            × (r.fork_available ≡ true))
      → in_process (route r probe s).0 ≡ false
  unfolding route in_process
  route_must_fork restore forks recorded = ground arith

  -- The probe is called exactly when the answer depends on it: otherwise its state is untouched.
  route_probe : (route r probe s).1 ≡ (
      if r.restore && not r.trusted_pure && (r.force_no_fork || r.no_fork) then (probe s).1 else s)
  unfolding route
  route_probe = ground arith
