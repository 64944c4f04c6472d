-- ===== src/Footprint/Closing.antt =====
-- `_import_closure` of footprint.py over its memos, against the imports of the files.
use tiderace.Base.{
  All, All-append, Bool-cases, Elem, List, Option, Str, [], arith, has_name, inl, inr, length, none,
  refl, some, subst, suc, sym, true, zero, ℕ, ◌↔◌, ◌∙◌, ◌∷◌, ◌≡◌,
}
use tiderace.Footprint.{
  Caches, Name, Sources, add_found, file_deps_of, first_file, offer, reach_from, resolve_uncached,
}
use tiderace.Footprint.Memos.{Normal}
use tiderace.Footprint.Fresh.{IsFresh, file_deps_of-IsFresh, plain_deps, plain_found}
use tiderace.Footprint.Reach.{Reaches, Spans, plain, reach_from_lem}

offer-keeps :
    (P : Str → Type 0) (deps queue seen : List Str)
    → All P deps
    → All P queue
    → All P (offer deps (queue, seen)).0
unfolding offer
offer-keeps P [] queue seen hd hq = hq
offer-keeps P (f ∷ deps) queue seen hd hq = elim (Bool-cases (has_name f seen)) [
  | inl old ↦ rw (old, offer) (offer-keeps P deps queue seen hd.1 hq)
  | inr new ↦ rw (new, offer) (offer-keeps P deps (f ∷ queue) (f ∷ seen) hd.1 (hd.0, hq))
]

module _ (src : Sources)
    (idempotent : (p : Str) → src.disk.abspath (src.disk.abspath p) ≡ src.disk.abspath p) where
  first_file_here :
      (c : Str) (cs : List Str) (f : Str)
      → src.disk.is_file c ≡ true
      → first_file src.disk (c ∷ cs) ≡ some f
      → src.disk.abspath c ≡ f
  unfolding first_file
  first_file_here c cs f there h = ground (arith, there, h)

  first_file-Normal : (cs : List Str) (f : Str) → first_file src.disk cs ≡ some f → Normal src f
  unfolding first_file
  first_file-Normal [] f h = absurd (ground arith)
  first_file-Normal (c ∷ cs) f h = elim (Bool-cases (src.disk.is_file c)) [
    | inl there ↦ subst (Normal src) (first_file_here c cs f there h) (idempotent c)
    | inr gone ↦ first_file-Normal cs f (ground (arith, gone, h))
  ]

  add_found-Normal :
      (o : Option Str) (deps : List Str)
      → ((f : Str) → o ≡ some f → Normal src f)
      → All (Normal src) deps
      → All (Normal src) (add_found o deps)
  unfolding add_found
  add_found-Normal none deps h ok = ok
  add_found-Normal (some f) deps h ok = elim (Bool-cases (has_name f deps)) [
    | inl old ↦ rw (old, add_found) ok
    | inr new ↦ rw (new, add_found) (All-append (Normal src) deps (f ∷ []) ok (h f refl, tt))
  ]

  plain_found-Normal :
      (path : Str) (names : List Name) (deps : List Str)
      → All (Normal src) deps
      → All (Normal src) (plain_found src.disk path names deps)
  unfolding resolve_uncached
  plain_found-Normal path [] deps ok = ok
  plain_found-Normal path (n ∷ names) deps ok =
      plain_found-Normal path names _ (add_found-Normal _ deps (first_file-Normal _) ok)

  -- The stack asked through the memos is the stack asked without them.
  reach_from-plain :
      (fuel : ℕ) (queue seen : List Str) (c : Caches)
      → All (Normal src) queue
      → IsFresh src c
      → ((reach_from (file_deps_of src) fuel (queue, seen) c).0
          ≡ (reach_from (plain (plain_deps src)) fuel (queue, seen) tt).0)
        × IsFresh src (reach_from (file_deps_of src) fuel (queue, seen) c).1
  unfolding reach_from
  reach_from-plain fuel [] seen c normal ok = (refl, ok)
  reach_from-plain zero (current ∷ queue) seen c normal ok = (refl, ok)
  reach_from-plain (suc fuel) (current ∷ queue) seen c normal ok =
      let (found, ok') = file_deps_of-IsFresh src current c normal.0 ok in
      subst
        (λ deps.
          ((reach_from (file_deps_of src) fuel (offer deps (queue, seen))
              (file_deps_of src current c).1).0
            ≡ (reach_from (plain (plain_deps src)) fuel
                (offer (plain_deps src current) (queue, seen)) tt).0)
          × IsFresh src
              (reach_from (file_deps_of src) fuel (offer deps (queue, seen))
                (file_deps_of src current c).1).1)
        (sym found)
        (reach_from-plain fuel _ _ _
          (offer-keeps (Normal src) (plain_deps src current) queue seen
            (plain_found-Normal current (src.names current) [] tt) normal.1)
          ok')

  -- Where the memos hold nothing wrong, and one unit of fuel is given for each file that the module can
  -- reach and one for itself, what the closure collects through them is the files that the module
  -- reaches by one import or more, and the memos still hold nothing wrong.
  pub reach_from-plain_deps :
      (start : Str) (universe : List Str) (c : Caches)
      → Normal src start
      → IsFresh src c
      → Spans (plain_deps src) start universe
      → (found : List Str) × ((reach_from
            (file_deps_of src)
            (suc (length universe))
            (start ∷ [], [])
            c).0
          ≡ some found)
        × ((f : Str) → Elem f found ↔ Reaches (plain_deps src) start f)
        × IsFresh src (reach_from (file_deps_of src) (suc (length universe)) (start ∷ [], []) c).1
  reach_from-plain_deps start universe c normal ok spans =
      let (found, e, exact) = reach_from_lem (plain_deps src) start universe spans in
      let (same, ok') =
        reach_from-plain (suc (length universe)) (start ∷ []) [] c (normal, tt) ok in
      (found, same ∙ e, exact, ok')
