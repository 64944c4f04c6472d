-- ===== src/Isolation/Restored.antt =====
-- isolation.py: what `_restore_state` puts back.
use tiderace.Base.{
  Bool, Bool-cases, List, Option, Str, [], all, arith, eqb, index_in, inl, inr, keep, length,
  length-append, none, refl, some, str_eq_sound, true, ℕ, ◌++◌, ◌+◌, ◌-◌, ◌∷◌, ◌≡◌,
}
use tiderace.Isolation.State.{
  State, drop_first, put_cwd, put_handlers, restore_state, same_list, same_option,
  state_fingerprint, trim_filters,
}

drop_first-append {ℓ} : {A : Type ℓ} (new old : List A) → drop_first (length new) (new ++ old) ≡ old
unfolding drop_first
drop_first-append [] old = refl
drop_first-append (x ∷ new) old = drop_first-append new old

drop_first-append_at {ℓ} :
    {A : Type ℓ} (n : ℕ) (new old : List A) → n ≡ length new → drop_first n (new ++ old) ≡ old
drop_first-append_at n new old e = rw e (drop_first-append new old)

trim_filters-append : (new old : List ℕ) → trim_filters (length old) (new ++ old) ≡ old
unfolding trim_filters
trim_filters-append [] old = ground arith
trim_filters-append (x ∷ new) old =
    let long : length (x ∷ new ++ old) ≡ length (x ∷ new) + length old =
      length-append (x ∷ new) old in
    let d : drop_first (length (x ∷ new ++ old) - length old) (x ∷ new ++ old) ≡ old =
      drop_first-append_at _ (x ∷ new) old (omega (arith, long)) in
    ground (arith, long, d)

same_list_sound : (xs ys : List ℕ) → same_list eqb xs ys ≡ true → xs ≡ ys
unfolding same_list
same_list_sound [] [] h = refl
same_list_sound [] (y ∷ ys) h = cc
same_list_sound (x ∷ xs) [] h = cc
same_list_sound (x ∷ xs) (y ∷ ys) h = ground (arith, same_list_sound xs ys)

keep-all {ℓ} : {A : Type ℓ} (p : A → Bool) (xs : List A) → all p xs ≡ true → keep p xs ≡ xs
keep-all p [] h = refl
keep-all p (x ∷ xs) h = ground (arith, keep-all p xs)

put_handlers-all :
    (before now : List ℕ)
    → all (λ i. index_in i now) before ≡ true
    → put_handlers before now ≡ before
unfolding put_handlers
put_handlers-all before now h = elim (Bool-cases (same_list eqb now before)) [
  | inl e ↦ rw e (same_list_sound now before e)
  | inr e ↦ rw e (keep-all _ before h)
]

put_cwd-is_dir :
    (is_dir : Str → Bool) (d : Str) (now : Option Str)
    → is_dir d ≡ true
    → put_cwd is_dir (some d) now ≡ some d
unfolding put_cwd same_option
put_cwd-is_dir is_dir d none h = rw h
put_cwd-is_dir is_dir d (some c) h = ground (arith, str_eq_sound c d)

-- When a module is left, `_restore_state` gives back exactly the state of the entry, but for the
-- environment and the threads, which it leaves: if the module's tests only put warning filters before
-- those of the entry, removed no handler of the root logger, and the directory of the entry is still one.
pub restore_state-before :
    (is_dir : Str → Bool) (s t : State) (new : List ℕ) (d : Str)
    → t.filters ≡ new ++ s.filters
    → all (λ i. index_in i t.handlers) s.handlers ≡ true
    → s.cwd ≡ some d
    → is_dir d ≡ true
    → restore_state is_dir (state_fingerprint s) t
      ≡ record s { environ = t.environ; threads = t.threads }
unfolding restore_state state_fingerprint
restore_state-before is_dir s t new d hf hh hc hd =
    rw
      (
        hf,
        hc,
        trim_filters-append new s.filters,
        put_handlers-all s.handlers t.handlers hh,
        put_cwd-is_dir is_dir d t.cwd hd,
      )
      refl
