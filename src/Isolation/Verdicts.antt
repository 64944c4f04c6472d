-- ===== src/Isolation/Verdicts.antt =====
-- isolation.py: what a verdict says of the state around a test.
use tiderace.Isolation.Registries.{Values}
use tiderace.Isolation.Globals.{
  Kept, Python, Space, is_mutated, same_dict, snapshot_shared, union_names,
}
use tiderace.Isolation.Session.{
  Isolation, Process, judge_drift, judge_globals, judge_modules, judge_registries, judge_state,
  unless_impure, verdict,
}
use tiderace.Isolation.State.{
  Fingerprint, dict_names, fingerprint_delta, live_threads, state_fingerprint, threads_part, told,
}
use tiderace.Base.{
  All, Bool-cases, Dict, Option, Str, codes, false, inl, inr, lookup, ltb, ltb→lt, none, of_some,
  refl, some, true, ◌++◌, ◌<◌, ◌≡◌, ◌≢◌,
}
use tiderace.Results.{Purity, impure}
use tiderace.Isolation.Modules.{Modules}

judge_drift-leaked :
    (drift residue : Option Str) (p : Purity) (l : Str)
    → (judge_drift drift residue p).leaked ≡ some l
    → ((judge_drift drift residue p).purity ≡ impure (codes "disturbed interpreter state: " ++ l))
      × (residue ≢ none)
unfolding judge_drift
judge_drift-leaked none residue p l h = cc
judge_drift-leaked (some d) none p l h = cc
judge_drift-leaked (some d) (some r) p l h = (rw (of_some h) refl, λ e. cc)

threads_part-grown : (b a : Fingerprint) → told (threads_part b a) ≢ none → b.threads < a.threads
unfolding threads_part told
threads_part-grown b a h = elim (Bool-cases (ltb b.threads a.threads)) [
  | inl g ↦ ltb→lt b.threads a.threads g
  | inr g ↦ absurd (h (rw g refl))
]

-- No name of either snapshot counts as mutated, and the environment is the one of the entry.
abbrev pub Untouched : {H : Type 0} → Python H → Space H → Dict Str → Dict Kept → Dict Str → Type 0
Untouched py sp environ g env_before =
    All
      (λ k.
        is_mutated py (snapshot_shared py sp).1.heap (lookup k g)
          (lookup k (snapshot_shared py sp).0)
        ≡ false)
      (py.arrange (union_names (dict_names g) (dict_names (snapshot_shared py sp).0)))
    × (same_dict environ env_before ≡ true)

module _ {H : Type 0} (py : Python H) (values : Values) (iso : Isolation) (w : Process H) where
  verdict_watched :
      (fp : Fingerprint)
      → iso.state_before ≡ some fp
      → verdict py values iso w
        ≡ judge_drift
            (fingerprint_delta fp (state_fingerprint w.state))
            (told (threads_part fp (state_fingerprint w.state)))
            (unless_impure
              (judge_modules iso.modules_before w.modules (judge_globals py values iso w))
              (judge_registries py values iso w))
  unfolding verdict judge_state
  verdict_watched fp e = rw (e, judge_state) refl

  -- A verdict that names a leak has found more threads running than at the entry, of those that no
  -- library's pool keeps, and its purity is the reason that tells of that leak: no leak is ever
  -- recorded together with a pure or an unmeasured test.
  pub verdict-leaked :
      (fp : Fingerprint) (leak : Str)
      → iso.state_before ≡ some fp
      → (verdict py values iso w).leaked ≡ some leak
      → ((verdict py values iso w).purity ≡ impure (codes "disturbed interpreter state: " ++ leak))
        × (fp.threads < live_threads w.state.threads)
  unfolding state_fingerprint
  verdict-leaked fp leak e = rw (verdict_watched fp e) (λ h.
      let both =
        judge_drift-leaked (fingerprint_delta fp (state_fingerprint w.state))
          (told (threads_part fp (state_fingerprint w.state))) _ leak h in
      (both.0, threads_part-grown fp (state_fingerprint w.state) both.1))
