-- ===== src/Scopes/Keys.antt =====
-- The keys of live fixtures as a set: `live` of `_sync_wider` in engine.py.
use tiderace.Base.{List, [], arith, false, str_eq_iff, true, ◌↔◌, ◌∷◌, ◌≡◌}
use tiderace.Fixtures.{InstanceKey, class_key, function_key, package_key, session_key}
use tiderace.Scopes.{key_live, key_same}

pub key_same_iff : (j k : InstanceKey) → (key_same j k ≡ true) ↔ (j ≡ k)
unfolding key_same
key_same_iff (session_key a) (session_key b) = ground (arith, str_eq_iff a b)
key_same_iff (package_key a l) (package_key b k) = ground (arith, str_eq_iff a b, str_eq_iff l k)
key_same_iff (InstanceKey.module_key a l) (InstanceKey.module_key b k) =
    ground (arith, str_eq_iff a b, str_eq_iff l k)
key_same_iff (class_key a l c) (class_key b k d) =
    ground (arith, str_eq_iff a b, str_eq_iff l k, str_eq_iff c d)
key_same_iff (function_key a l) (function_key b k) = ground (arith, str_eq_iff a b, str_eq_iff l k)
key_same_iff _ _ = ground arith

pub key_live_here : (k : InstanceKey) (ks : List InstanceKey) → key_live k (k ∷ ks) ≡ true
unfolding key_live
key_live_here k ks = ground (arith, key_same_iff k k)

-- No key stands twice.
abbrev pub IsDistinct : List InstanceKey → Type 0
IsDistinct [] = Unit
IsDistinct (k ∷ ks) = (key_live k ks ≡ false) × IsDistinct ks
