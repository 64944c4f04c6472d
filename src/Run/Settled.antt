-- ===== src/Run/Settled.antt =====
-- What becomes of a node that disturbed the interpreter: the end of `Engine.run`.
use tiderace.Base.{
  Bool, Bool-cases, List, Option-cases, Str, [], any, ap, arith, false, inl, inr, not, refl, some,
  true, ℕ, ◌||◌, ◌∙◌, ◌∷◌, ◌≡◌, ◌⊎◌,
}
use tiderace.Results.{Frame, note_import_history, worst}
use tiderace.Marks.{Mark}
use tiderace.Tiers.{VariantResult, assemble, disturbs, flag_if}
use tiderace.Run.{
  Flags, NodeHost, Plan, answer_of, clean_room_handoff, handed, handed_over, handed_verdict,
  is_blank, not_handed, ran, settled,
}

note_import_history_must_fork :
    (note : Str) (f : Frame) (runs : ℕ) (pristine : Bool)
    → (note_import_history note f runs pristine).must_fork ≡ f.must_fork
unfolding note_import_history
note_import_history_must_fork note f runs pristine = ground arith

note_import_history_verdict :
    (note : Str) (f : Frame) (runs : ℕ) (pristine : Bool)
    → (note_import_history note f runs pristine).verdict ≡ f.verdict
unfolding note_import_history
note_import_history_verdict note f runs pristine = ground arith

-- A node that ran a case is assembled, and says whether a case disturbed the interpreter.
assemble_must_fork :
    (node : Str) (r : VariantResult) (rs : List VariantResult) (parametrized : Bool)
    (native_marks pytest_marks : List Mark) (keywords : Str → List Str)
    → (f : Frame) × (assemble node (r ∷ rs) parametrized native_marks pytest_marks keywords
        ≡ some f)
      × (f.must_fork ≡ flag_if (any disturbs (r ∷ rs)))
unfolding assemble worst
assemble_must_fork node r rs parametrized native_marks pytest_marks keywords = (_, refl, refl)

module _ {V W : Type 0} (host : NodeHost V W) (node : Str) where
  handed_over_must_fork :
      (note : Str) (fl : Flags) (runs : ℕ) (f : Frame)
      → (handed_over note fl runs f).must_fork ≡ some true
  unfolding handed_over
  handed_over_must_fork note fl runs f =
      note_import_history_must_fork note
        (record f { must_fork = some true; verdict = handed_verdict fl.disturbance f.verdict }) runs
        true

  handoff_readable :
      (results : List VariantResult) (w : W)
      → any is_blank results ≡ false
      → ((clean_room_handoff host node results w).0 ≡ not_handed)
        ⊎ ((f : Frame) × ((clean_room_handoff host node results w).0 ≡ handed f)
            × (f.must_fork ≡ some true))
  unfolding clean_room_handoff
  handoff_readable results w readable =
      elim (Bool-cases (not host.clean_room || (host.forkless || (host.flags w).overran))) [
        | inl kept ↦ inl (rw (kept, clean_room_handoff) refl)
        | inr open_room ↦ elim (Option-cases (host.clean_run w).0) [
          | inl silent ↦ inl (rw (open_room, readable, silent, clean_room_handoff) refl)
          | inr (f, answered_by_room) ↦ inr (
            handed_over host.history_note (host.flags w) (host.nodes_run w) f,
            rw (open_room, readable, answered_by_room, clean_room_handoff) refl,
            handed_over_must_fork host.history_note (host.flags w) (host.nodes_run w) f,
          )
        ]
      ]

  settled_must_fork :
      (results : List VariantResult) (resp : Frame) (w : W)
      → any disturbs results ≡ true
      → any is_blank results ≡ false
      → resp.must_fork ≡ some true
      → (f : Frame) × ((settled host node results resp w).0 ≡ some f) × (f.must_fork ≡ some true)
  unfolding settled
  settled_must_fork results resp w h readable must = elim (handoff_readable results w readable) [
    | inl kept ↦ (
      note_import_history host.history_note resp
          (host.nodes_run (clean_room_handoff host node results w).1) false,
      rw (h, kept, settled) refl,
      note_import_history_must_fork host.history_note resp _ false ∙ must,
    )
    | inr (f, handed_f, forks) ↦ (f, rw (h, handed_f, settled) refl, forks)
  ]

  answer_of_assembled :
      (plan : Plan V) (results : List VariantResult) (resp : Frame) (w : W)
      → assemble node results plan.parametrized_node plan.native_marks plan.pytest_marks
          plan.case_keywords
        ≡ some resp
      → answer_of host node plan (ran results) w ≡ settled host node results resp w
  unfolding answer_of
  answer_of_assembled plan results resp w e = rw (e, answer_of) refl

  -- A node of which a case disturbed the interpreter, and whose details can be read, gets a response,
  -- and whether the clean room or this process answers, it says that the node must fork from now on.
  pub answer_of_must_fork :
      (plan : Plan V) (results : List VariantResult) (w : W)
      → any disturbs results ≡ true
      → any is_blank results ≡ false
      → (f : Frame) × ((answer_of host node plan (ran results) w).0 ≡ some f)
        × (f.must_fork ≡ some true)
  unfolding answer_of
  answer_of_must_fork plan [] w h readable = absurd (ground (arith, h))
  answer_of_must_fork plan (r ∷ rs) w h readable =
      let (resp, e, must) =
        assemble_must_fork node r rs plan.parametrized_node plan.native_marks plan.pytest_marks
          plan.case_keywords in
      let (f, settles, forks) = settled_must_fork (r ∷ rs) resp w h readable (must ∙ rw h refl) in
      (f, ap (λ q. q.0) (answer_of_assembled plan (r ∷ rs) resp w e) ∙ settles, forks)
