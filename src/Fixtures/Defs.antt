-- ===== src/Fixtures/Defs.antt =====
-- fixtures.py: definitions, the registry, and the binding of parameters to providers.
use tiderace.Base.{
  Bool, Dict, List, Option, Str, [], codes, if◌then◌else◌, insert, is_some, keep, length, lookup,
  map, negsuc, none, or_else, pos, some, split, starts_with, str_eq, suc, true, zero, ℕ, ℤ, ◌++◌,
  ◌||◌, ◌∷◌,
}

-- `FixtureDef`. `object_id` stands for the identity of the object, `bindings` maps parameter names
-- to provider names.
pub record FixtureDef : Type 0 where
  pub object_id : ℕ
  pub name : Str
  pub scope : Str
  pub autouse : Bool
  pub location : Str
  pub bindings : List (Str × Str)
  pub provides_type : Option Str

unfoldable pub deps : FixtureDef → List Str
deps d = map (λ (b : Str × Str). b.1) d.bindings

-- `_SCOPE_RANK.get(scope, 0)`
unfoldable pub rank : FixtureDef → ℕ
rank d =
    if str_eq d.scope (codes "class")
    then 1
    else if str_eq d.scope (codes "module")
    then 2
    else if str_eq d.scope (codes "package")
    then 3
    else if str_eq d.scope (codes "session")
    then 4
    else 0

abbrev pub slash : Str
slash = codes "/"

abbrev pub up_dir : Str
up_dir = codes ".."

abbrev pub colons : Str
colons = codes "::"

abbrev pub py_suffix : Str
py_suffix = codes ".py"

unfoldable pub is_ancestor_dir : Str → Str → Bool
is_ancestor_dir [] dir = true
is_ancestor_dir (c ∷ loc) dir =
    starts_with (c ∷ loc) up_dir || str_eq dir (c ∷ loc) || starts_with dir ((c ∷ loc) ++ slash)

negate : ℕ → ℤ
negate zero = pos 0
negate (suc n) = negsuc n

unfoldable pub location_depth : Str → ℤ
unfolding negate
location_depth [] = pos 0
location_depth (c ∷ loc) =
    let depth = length (split 47 (c ∷ loc)) in
    if starts_with (c ∷ loc) up_dir then negate depth else pos depth

pub record Registry : Type 0 where
  pub by_name : Dict (List FixtureDef)
  pub by_type : Dict (List Str)

abbrev pub empty_registry : Registry
empty_registry = record { by_name = []; by_type = [] }

-- `d.setdefault(k, []).append(v)`
unfoldable pub push : {A : Type 0} → Str → A → Dict (List A) → Dict (List A)
push k v d = insert k (or_else (lookup k d) [] ++ v ∷ []) d

-- `Registry.add`
unfoldable pub add : Registry → FixtureDef → Registry
unfolding push
add reg d = record {
  by_name = push d.name d reg.by_name;
  by_type = elim d.provides_type [ none ↦ reg.by_type | some t ↦ push t d.name reg.by_type ];
}

unfoldable pub is_provider : Registry → Str → Bool
is_provider reg name = is_some (lookup name reg.by_name)

-- An annotation as `_provider_for_type` reads it: a type, and the first text of an `Annotated`.
pub record Annotation : Type 0 where
  pub key : Str
  pub want : Option Str

abbrev only : List Str → Option Str
only (c ∷ []) = some c
only _ = none

unfoldable pub provider_for_type : Annotation → Dict (List Str) → Option Str
provider_for_type a type_index =
    let candidates = or_else (lookup a.key type_index) [] in
    elim a.want [ none ↦ only candidates | some w ↦ only (keep (λ c. str_eq c w) candidates) ]

abbrev is_plain : Str → Bool
is_plain p = str_eq p (codes "self") || str_eq p (codes "cls") || str_eq p (codes "request")

bound : Dict (List Str) → Str → Option Annotation → Str
unfolding provider_for_type
bound type_index p none = p
bound type_index p (some a) = or_else (provider_for_type a type_index) p

-- `_bind_by_type`, over the signature's parameters with their annotations.
unfoldable pub bind_by_type : List (Str × Option Annotation) → Dict (List Str) → Dict Str
unfolding bound
bind_by_type [] type_index = []
bind_by_type ((p, a) ∷ params) type_index =
    let rest = bind_by_type params type_index in
    if is_plain p then rest else (p, bound type_index p a) ∷ rest
