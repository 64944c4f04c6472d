-- ===== src/Fixtures/Keys.antt =====
-- fixtures.py: `_instance_key`, with the readers of node ids in nodes.py.
use tiderace.Base.{Str, [], codes, if◌then◌else◌, none, partition, some, str_eq}
use tiderace.Fixtures.Defs.{FixtureDef, colons}

-- `_instance_key`
pub data InstanceKey : Type 0 where
  session_key : Str → InstanceKey
  package_key : Str → Str → InstanceKey
  module_key : Str → Str → InstanceKey
  class_key : Str → Str → Str → InstanceKey
  function_key : Str → Str → InstanceKey

-- `nodes.module_key` and `nodes.class_method`
unfoldable pub module_of : Str → Str
module_of node = elim (partition colons node) [ none ↦ node | some (m, _) ↦ m ]

abbrev pub before_colons : Str → Str
before_colons s = elim (partition colons s) [ none ↦ s | some (c, _) ↦ c ]

abbrev pub after_colons : Str → Str
after_colons s = elim (partition colons s) [ none ↦ [] | some (_, m) ↦ m ]

unfoldable pub class_method : Str → Str × Str
class_method node = let rest = after_colons node in (before_colons rest, after_colons rest)

unfoldable pub instance_key : FixtureDef → Str → InstanceKey
unfolding module_of class_method
instance_key d node =
    if str_eq d.scope (codes "session")
    then session_key d.name
    else if str_eq d.scope (codes "package")
    then package_key d.name d.location
    else if str_eq d.scope (codes "module")
    then InstanceKey.module_key d.name (module_of node)
    else if str_eq d.scope (codes "class")
    then class_key d.name (module_of node) (class_method node).0
    else function_key d.name node
