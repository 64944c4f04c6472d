-- ===== src/Fixtures/Instances.antt =====
-- Which nodes share a fixture's value: `_instance_key` of fixtures.py.
use tiderace.Base.{List, Str, [], arith, codes, false, if◌then◌else◌, str_eq, ◌||◌, ◌↔◌, ◌∷◌, ◌≡◌}
use tiderace.Fixtures.Defs.{FixtureDef}
use tiderace.Fixtures.Keys.{class_method, instance_key, module_of}

-- What of a node's id a scope distinguishes.
unfoldable pub scope_part : Str → Str → List Str
scope_part scope node =
    if str_eq scope (codes "session") || str_eq scope (codes "package")
    then []
    else if str_eq scope (codes "module")
    then module_of node ∷ []
    else if str_eq scope (codes "class")
    then module_of node ∷ (class_method node).0 ∷ []
    else node ∷ []

-- Two nodes share a fixture's value exactly when its scope does not tell their ids apart: always for
-- a session or package fixture, with equal modules for a module one, with equal modules and classes
-- for a class one, and otherwise only a node with itself.
instance_key-eq :
    (d : FixtureDef) (n m : Str)
    → (instance_key d n ≡ instance_key d m) ↔ (scope_part d.scope n ≡ scope_part d.scope m)
unfolding instance_key scope_part
instance_key-eq d n m = ground arith

-- But for a package fixture the key leaves out where a fixture is defined: two definitions of one
-- name and one scope, such as an override and what it overrides, share their key on every node.
instance_key-shared :
    (d e : FixtureDef) (n : Str)
    → d.name ≡ e.name
    → d.scope ≡ e.scope
    → str_eq d.scope (codes "package") ≡ false
    → instance_key d n ≡ instance_key e n
unfolding instance_key
instance_key-shared d e n name scope other_scope = ground arith
