-- ===== src/Modes/Answering.antt =====
-- modes.py, `subinterp`: no task of a batch goes without its answer.
use tiderace.Base.{
  All, All-intro, Bool, Bool-cases, Dict, Elem, List, Option-cases, Str, [], arith, inl, inr,
  insert, is_some, keep, keep_no, keep_yes, lookup, lookup-insert_other, lookup-insert_same, map,
  of_some, refl, some, str_eq, str_eq_refl, str_eq_sound, subst, sym, true, ◌∙◌, ◌∷◌, ◌≡◌,
}
use tiderace.Results.{Frame}
use tiderace.Modes.Subinterp.{Task, error_all, gather, pending}

-- Each answer is kept under its own id.
abbrev pub Keyed : Dict Frame → Type 0
Keyed [] = Unit {0}
Keyed ((n, f) ∷ d) = (f.node_id ≡ n) × Keyed d

pub Keyed-insert :
    (n : Str) (f : Frame) (d : Dict Frame) → f.node_id ≡ n → Keyed d → Keyed (insert n f d)
unfolding insert
Keyed-insert n f [] e k = (e, tt)
Keyed-insert n f ((m, g) ∷ d) e k = elim (Bool-cases (str_eq m n)) [
  | inl q ↦ rw (insert, q) (e ∙ sym (str_eq_sound m n q), k.1)
  | inr q ↦ rw (insert, q) (k.0, Keyed-insert n f d e k.1)
]

Keyed-lookup :
    (n : Str) (f : Frame) (d : Dict Frame) → Keyed d → lookup n d ≡ some f → f.node_id ≡ n
unfolding lookup
Keyed-lookup n f [] k = λ h. cc
Keyed-lookup n f ((m, g) ∷ d) k = elim (Bool-cases (str_eq m n)) [
  | inl q ↦ rw (lookup, q) (λ h. rw (← of_some h) (k.0 ∙ str_eq_sound m n q))
  | inr q ↦ rw (lookup, q) (Keyed-lookup n f d k.1)
]

abbrev pub ids_of : List Task → List Str
ids_of = map (λ (t : Task). t.node_id)

abbrev pub answered_ids : List Frame → List Str
answered_ids = map (λ (f : Frame). f.node_id)

abbrev pub HasAll : Dict Frame → List Str → Type 0
HasAll d = All (λ n. is_some (lookup n d) ≡ true)

pub gather-HasAll :
    (ts : List Task) (d : Dict Frame)
    → Keyed d
    → HasAll d (ids_of ts)
    → (fs : List Frame) × (gather ts d ≡ some fs) × (answered_ids fs ≡ ids_of ts)
unfolding gather
gather-HasAll [] d k h = ([], refl, refl)
gather-HasAll (t ∷ ts) d k h =
    let rest = gather-HasAll ts d k h.1 in
    elim (Option-cases (lookup t.node_id d)) [
      | inl n ↦ absurd (ground (arith, n, h.0))
      | inr (f, s) ↦ (
        f ∷ rest.0,
        rw (gather, s, rest.1) refl,
        rw (Keyed-lookup t.node_id f d k s, rest.2) refl,
      )
    ]

pub insert-is_some :
    (n m : Str) (f : Frame) (d : Dict Frame)
    → is_some (lookup n d) ≡ true
    → is_some (lookup n (insert m f d)) ≡ true
insert-is_some n m f d h = elim (Bool-cases (str_eq m n)) [
  | inl q ↦ rw (lookup-insert_same m n f d q) refl
  | inr q ↦ rw (lookup-insert_other m n f d q) h
]

error_all-is_some :
    (frame_of : Str → Frame) (n : Str) (ns : List Str) (d : Dict Frame)
    → is_some (lookup n d) ≡ true
    → is_some (lookup n (error_all frame_of ns d)) ≡ true
unfolding error_all
error_all-is_some frame_of n [] d h = h
error_all-is_some frame_of n (m ∷ ns) d h =
    error_all-is_some frame_of n ns _ (insert-is_some n m (frame_of m) d h)

error_all-Elem :
    (frame_of : Str → Frame) (n : Str) (ns : List Str) (d : Dict Frame)
    → Elem n ns
    → is_some (lookup n (error_all frame_of ns d)) ≡ true
unfolding error_all
error_all-Elem frame_of n [] d m = absurd m
error_all-Elem frame_of n (m ∷ ns) d (inl e) =
    error_all-is_some frame_of n ns _
      (rw (← e, lookup-insert_same n n (frame_of n) d (str_eq_refl n)) refl)
error_all-Elem frame_of n (m ∷ ns) d (inr r) = error_all-Elem frame_of n ns _ r

pub error_all-Keyed :
    (frame_of : Str → Frame) (ns : List Str) (d : Dict Frame)
    → ((n : Str) → (frame_of n).node_id ≡ n)
    → Keyed d
    → Keyed (error_all frame_of ns d)
unfolding error_all
error_all-Keyed frame_of [] d e k = k
error_all-Keyed frame_of (n ∷ ns) d e k =
    error_all-Keyed frame_of ns _ e (Keyed-insert n (frame_of n) d (e n) k)

Elem-keep :
    {A : Type 0} (p : A → Bool) (a : A) (xs : List A) → p a ≡ true → Elem a xs → Elem a (keep p xs)
Elem-keep p a [] h m = absurd m
Elem-keep p a (x ∷ xs) h (inl e) =
    subst (Elem a) (sym (keep_yes p x xs (subst (λ y. p y ≡ true) e h))) (inl e)
Elem-keep p a (x ∷ xs) h (inr m) = elim (Bool-cases (p x)) [
  | inl q ↦ subst (Elem a) (sym (keep_yes p x xs q)) (inr (Elem-keep p a xs h m))
  | inr q ↦ subst (Elem a) (sym (keep_no p x xs q)) (Elem-keep p a xs h m)
]

-- With the outstanding ones reported, every task of the batch is answered.
pub pending-HasAll :
    (frame_of : Str → Frame) (ts : List Task) (d : Dict Frame)
    → HasAll (error_all frame_of (pending ts d) d) (ids_of ts)
unfolding pending
pending-HasAll frame_of ts d = All-intro _ (ids_of ts) (λ n m.
    elim (Bool-cases (is_some (lookup n d))) [
      | inl q ↦ error_all-is_some frame_of n (pending ts d) d q
      | inr q ↦ error_all-Elem frame_of n (pending ts d) d (Elem-keep _ n (ids_of ts) (rw q refl) m)
    ])
