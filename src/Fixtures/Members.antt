-- ===== src/Fixtures/Members.antt =====
-- What `Registry.resolve` of fixtures.py returns stands in the registry.
use tiderace.Base.{
  Bool-cases, Dict, Elem, Elem-append_left, Elem-append_right, List, Option, Str, [], ap, arith,
  inl, inr, lookup, map, none, or_else, some, str_eq, str_eq_iff, subst, true, ℤ, ◌∷◌, ◌≡◌, ◌⊎◌,
}
use tiderace.Fixtures.Defs.{FixtureDef, Registry}
use tiderace.Fixtures.Lookup.{
  all_defs, named, resolve, visible, visible_among, visible_here, with_spec,
}
use tiderace.Fixtures.Closing.{key_eq, key_in, key_of}
use tiderace.Fixtures.Nearest.{Nearest, resolve-Nearest}

with_spec-Elem :
    (spec : ℤ) (d e : FixtureDef) (o : Option ℤ) (rest : List (ℤ × FixtureDef))
    → Elem (spec, d) (with_spec e o rest)
    → (d ≡ e) ⊎ Elem (spec, d) rest
unfolding with_spec
with_spec-Elem spec d e none rest h = inr h
with_spec-Elem spec d e (some x) rest (inl p) = inl (ap (λ t. t.1) p)
with_spec-Elem spec d e (some x) rest (inr h) = inr h

visible_among-Elem :
    (module_key : Str) (classes : List Str) (spec : ℤ) (d : FixtureDef) (ds : List FixtureDef)
    → Elem (spec, d) (visible_among module_key classes ds)
    → Elem d ds
unfolding visible_among
visible_among-Elem module_key classes spec d [] h = h
visible_among-Elem module_key classes spec d (e ∷ ds) h =
    elim (with_spec-Elem spec d e (visible_here module_key classes e)
      (visible_among module_key classes ds) h) [
        | inl p ↦ inl p
        | inr m ↦ inr (visible_among-Elem module_key classes spec d ds m)
      ]

lookup-all_defs :
    (name : Str) (d : FixtureDef) (dict : Dict (List FixtureDef))
    → Elem d (or_else (lookup name dict) [])
    → Elem d (all_defs dict)
unfolding lookup all_defs
lookup-all_defs name d [] h = h
lookup-all_defs name d ((k, ds) ∷ dict) h = elim (Bool-cases (str_eq k name)) [
  | inl e ↦ Elem-append_left d ds (all_defs dict) (rw e at h)
  | inr e ↦ Elem-append_right d ds (all_defs dict) (lookup-all_defs name d dict (rw e at h))
]

-- A definition that is resolved is one of the registry.
pub resolve-Elem :
    (reg : Registry) (name module_key : Str) (classes : List Str) (below : Option ℤ)
    (d : FixtureDef)
    → resolve reg name module_key classes below ≡ some d
    → Elem d (all_defs reg.by_name)
unfolding visible
resolve-Elem reg name module_key classes below d e =
    let (spec, near) : Nearest below (visible reg name module_key classes) (some d) =
      subst (Nearest below (visible reg name module_key classes)) e
        (resolve-Nearest reg name module_key classes below) in
    lookup-all_defs name d reg.by_name
      (visible_among-Elem module_key classes spec d (named reg name) near.0)

pub key_in-map :
    (d : FixtureDef) (ds : List FixtureDef) → Elem d ds → key_in (key_of d) (map key_of ds) ≡ true
unfolding key_in key_eq
key_in-map d [] h = absurd h
key_in-map d (e ∷ ds) (inl p) =
    ground (arith, str_eq_iff d.name e.name, str_eq_iff d.location e.location)
key_in-map d (e ∷ ds) (inr h) = ground (arith, key_in-map d ds h)
