-- ===== src/Modes/Probing.antt =====
-- modes.py: what it takes for a module to be called safe in a sub-interpreter.
use tiderace.Base.{
  All, Bool, Bool-cases, List, Option, Option-cases, Str, [], codes, contains_str, false, inl, inr,
  none, of_some, refl, some, true, ℕ, ◌++◌, ◌∷◌, ◌≡◌, ◌≢◌,
}
use tiderace.Isolation.Registries.{basename}
use tiderace.Modes.Probe.{
  call_name, candidates, first_call, first_touch, probe_module_safe, probed_of,
  process_global_calls, touches_process_globals,
}

-- Nothing in a text names a call that moves the process's state.
abbrev IsQuiet : Str → Type 0
IsQuiet text = All (λ call. contains_str call text ≡ false) process_global_calls

first_call-none :
    (calls : List Str) (text : Str)
    → first_call calls text ≡ none
    → All (λ call. contains_str call text ≡ false) calls
unfolding first_call
first_call-none [] text = λ h. tt
first_call-none (call ∷ calls) text = elim (Bool-cases (contains_str call text)) [
  | inl e ↦ rw (e, first_call) (λ h. cc)
  | inr e ↦ rw (e, first_call) (λ h. (refl, first_call-none calls text h))
]

append-not_nil : (s t u : Str) (c : ℕ) → s ++ (c ∷ t) ++ u ≢ []
append-not_nil [] t u c h = cc
append-not_nil (d ∷ s) t u c h = cc

module _ (text_of : Str → Option Str) where
  -- Each file that can be read is quiet.
  abbrev AreQuiet : List Str → Type 0
  AreQuiet = All (λ path. (text : Str) → text_of path ≡ some text → IsQuiet text)

  first_touch-none : (paths : List Str) → first_touch text_of paths ≡ none → AreQuiet paths
  unfolding first_touch
  first_touch-none [] = λ h. tt
  first_touch-none (path ∷ paths) = elim (Option-cases (text_of path)) [
    | inl n ↦ rw (n, first_touch) (λ h. (λ text e. cc, first_touch-none paths h))
    | inr (text, s) ↦ elim (Option-cases (first_call process_global_calls text)) [
      | inl q ↦
          rw (s, first_touch, q)
            (λ h. (
              λ t e. rw (← of_some e) (first_call-none process_global_calls text q),
              first_touch-none paths h,
            ))
      | inr (call, q) ↦ rw (s, first_touch, q) (λ h. cc)
    ]
  ]

  touches_process_globals-quiet :
      (root module_key : Str)
      → touches_process_globals text_of root module_key ≡ []
      → AreQuiet (candidates root module_key)
  unfolding touches_process_globals
  touches_process_globals-quiet root module_key =
      elim (Option-cases (first_touch text_of (candidates root module_key))) [
        | inl n ↦ λ h. first_touch-none (candidates root module_key) n
        | inr (t, s) ↦
            rw (s, touches_process_globals)
              (λ h. absurd (append-not_nil (call_name t.0) (codes "in ") (basename t.1) 32 h))
      ]

  probed_of-safe :
      (touch : Str) (raised : Option Str)
      → (probed_of touch raised).safe ≡ some true
      → (touch ≡ []) × (raised ≡ none)
  unfolding probed_of
  probed_of-safe [] none h = (refl, refl)
  probed_of-safe [] (some text) h = cc
  probed_of-safe (c ∷ touch) raised h = cc

  probe_safe_touch :
      (has_api : Bool) (raised : Option Str) (root module_key : Str)
      → (probe_module_safe text_of has_api raised root module_key).safe ≡ some true
      → (has_api ≡ true) × (touches_process_globals text_of root module_key ≡ []) × (raised ≡ none)
  unfolding probe_module_safe
  probe_safe_touch false raised root module_key h = cc
  probe_safe_touch true raised root module_key h =
      let parts = probed_of-safe (touches_process_globals text_of root module_key) raised h in
      (refl, parts.0, parts.1)

  -- A module is reported safe for a sub-interpreter only where the interpreter has them, the module
  -- loaded in a fresh one, and neither its source nor the text of the conftest beside it, where they
  -- can be read, contains any of the calls that move state of the process.
  probe_module_safe-quiet :
      (has_api : Bool) (raised : Option Str) (root module_key : Str)
      → (probe_module_safe text_of has_api raised root module_key).safe ≡ some true
      → (has_api ≡ true) × (raised ≡ none) × AreQuiet (candidates root module_key)
  probe_module_safe-quiet has_api raised root module_key h =
      let parts = probe_safe_touch has_api raised root module_key h in
      (parts.0, parts.2, touches_process_globals-quiet root module_key parts.1)
