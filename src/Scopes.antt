-- ===== src/Scopes.antt =====
-- engine/py-shim/tiderace_shim/engine.py: the wider-than-function fixtures that an `Engine` keeps
-- alive (`_sync_wider`, `_teardown_stale`, `_leave_module`, `_value`, `teardown_all`). What touches user
-- code (setting up and closing a fixture, the module's xunit set-up, the guard's restore) is a
-- parameter, a `Host` over a state of its own; where such a call can raise, it says so.
pub mod Keys
pub mod Live
pub mod Teardown
use tiderace.Base.{
  Bool, List, Option, Str, [], eqb, false, map, none, some, str_eq, true, ◌&&◌, ◌||◌, ◌∷◌,
}
use tiderace.Fixtures.{
  FixtureDef, InstanceKey, class_key, function_key, instance_key, module_key, module_of,
  package_key, rank, session_key,
}

-- `==` on the tuples that `_instance_key` gives.
unfoldable pub key_same : InstanceKey → InstanceKey → Bool
key_same (session_key a) (session_key b) = str_eq a b
key_same (package_key a l) (package_key b k) = str_eq a b && str_eq l k
key_same (InstanceKey.module_key a l) (InstanceKey.module_key b k) = str_eq a b && str_eq l k
key_same (class_key a l c) (class_key b k d) = str_eq a b && (str_eq l k && str_eq c d)
key_same (function_key a l) (function_key b k) = str_eq a b && str_eq l k
key_same _ _ = false

-- `_Active`
pub record Active (V H : Type 0) : Type 0 where
  pub fdef : FixtureDef
  pub key : InstanceKey
  pub value : V
  pub handle : H

-- What the engine calls: `setup` is `run_sync(setup_fixture(...))`, `none` where it raised; the
-- Boolean of `close` and of `xunit_setup` is false where they raised.
pub record Host (V H W : Type 0) : Type 0 where
  pub node_for : Str → W → W
  pub xunit_setup : Str → W → Bool × W
  pub setup : FixtureDef → List (Str × V) → W → Option (V × H) × W
  pub close : H → W → Bool × W
  pub restore : W → W

-- The fields of `Engine` that these methods change. `active` is held newest first.
pub record Engine (V H W : Type 0) : Type 0 where
  pub active : List (Active V H)
  pub guard : Option Str
  pub world : W

unfoldable pub key_live : InstanceKey → List InstanceKey → Bool
unfolding key_same
key_live k [] = false
key_live k (j ∷ js) = key_same k j || key_live k js

module _ {V H W : Type 0} (host : Host V H W) where
  abbrev pub keys : List (Active V H) → List InstanceKey
  keys = map (λ (a : Active V H). a.key)

  -- `_value`; `none` is the `KeyError`.
  unfoldable pub value : Str → List (Active V H) → Option V
  value name [] = none
  value name (a ∷ as') = elim (str_eq a.fdef.name name) [
    | true ↦ some a.value
    | false ↦ value name as'
  ]

  -- `{param: self._value(prov, mk) for param, prov in d.bindings.items()}`
  unfoldable pub args_of : List (Str × Str) → List (Active V H) → Option (List (Str × V))
  unfolding value
  args_of [] active = some []
  args_of ((param, prov) ∷ more) active = elim (value prov active) [
    | none ↦ none
    | some v ↦ elim (args_of more active) [ none ↦ none | some vs ↦ some ((param, v) ∷ vs) ]
  ]

  -- `_leave_module`
  unfoldable pub leave_module : Engine V H W → Engine V H W
  leave_module st = elim st.guard [
    | none ↦ st
    | some _ ↦ record st { guard = none; world = host.restore st.world }
  ]

  -- The loop of `_teardown_stale`: whether no `close` raised, and what is left.
  unfoldable pub teardown_while : Str → List (Active V H) → W → Bool × List (Active V H) × W
  unfolding key_same
  teardown_while node [] w = (true, [], w)
  teardown_while node (top ∷ rest) w = elim (key_same top.key (instance_key top.fdef node)) [
    | true ↦ (true, top ∷ rest, w)
    | false ↦
        let (closed, w') = host.close top.handle w in
        elim closed [ true ↦ teardown_while node rest w' | false ↦ (false, top ∷ rest, w') ]
  ]

  abbrev pub leave_if : Str → Engine V H W → Engine V H W
  unfolding leave_module
  leave_if key st = elim st.guard [
    | none ↦ st
    | some g ↦ elim (str_eq g key) [ true ↦ st | false ↦ leave_module st ]
  ]

  abbrev left_module : Str → Bool × List (Active V H) × W → Engine V H W → Bool × Engine V H W
  left_module node (true, active, w) st =
      (true, leave_if (module_of node) (record st { active = active; world = w }))
  left_module node (false, active, w) st = (false, record st { active = active; world = w })

  -- `_teardown_stale`
  unfoldable pub teardown_stale : Str → Engine V H W → Bool × Engine V H W
  unfolding teardown_while leave_module
  teardown_stale node st = left_module node (teardown_while node st.active st.world) st

  -- The loop of `_sync_wider` over the closure; `live` is its set of keys.
  unfoldable pub set_up :
      Str → List InstanceKey → List FixtureDef → Engine V H W → Bool × Engine V H W
  unfolding key_live args_of
  set_up node live [] st = (true, st)
  set_up node live (d ∷ ds) st = elim (eqb (rank d) 0 || key_live (instance_key d node) live) [
    | true ↦ set_up node live ds st
    | false ↦ elim (args_of d.bindings st.active) [
      | none ↦ (false, st)
      | some args ↦
          let (made, w) = host.setup d args st.world in
          elim made [
            | none ↦ (false, record st { world = w })
            | some (v, h) ↦ set_up node (instance_key d node ∷ live) ds (record st {
              active =
                  record { fdef = d; key = instance_key d node; value = v; handle = h } ∷ st.active;
              world = w;
            })
          ]
    ]
  ]

  abbrev started : List FixtureDef → Str → Engine V H W → Bool × W → Bool × Engine V H W
  started ds node st (false, w) = (false, record st { world = w })
  started ds node st (true, w) = set_up node (keys st.active) ds (record st { world = w })

  abbrev synced : List FixtureDef → Str → Bool × Engine V H W → Bool × Engine V H W
  synced ds node (false, st) = (false, st)
  synced ds node (true, st) = started ds node st (host.xunit_setup (module_of node) st.world)

  -- `_sync_wider`
  unfoldable pub sync_wider : List FixtureDef → Str → Engine V H W → Bool × Engine V H W
  unfolding teardown_stale set_up
  sync_wider ds node st =
      synced ds node (teardown_stale node (record st { world = host.node_for node st.world }))

  -- The loop of `teardown_all`.
  unfoldable pub close_all : List (Active V H) → W → Bool × List (Active V H) × W
  close_all [] w = (true, [], w)
  close_all (a ∷ as') w =
      let (closed, w') = host.close a.handle w in
      elim closed [ true ↦ close_all as' w' | false ↦ (false, as', w') ]
