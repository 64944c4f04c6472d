-- ===== src/Tests/Aliasing.antt =====
-- isolation.py: the restoring of globals over a small heap of lists.
use tiderace.Base.{
  Dict, List, [], codes, eqb, erase, false, has_name, insert, is_some, length, lookup, none,
  or_else, refl, some, starts_with, str_eq, suc, true, zero, ℕ, ◌++◌, ◌∷◌, ◌≡◌,
}
use tiderace.Isolation.Globals.{
  Kept, Python, Space, list_like, refill, restore_in_place, same_dict, saved, snapshot_names,
  snapshot_shared, snapshot_value, union_names,
}
use tiderace.Isolation.Shared.{
  put_back, put_saved, rebind, restore_name, restore_names, restore_shared, stands,
}
use tiderace.Isolation.Union.{restore_shared-stands}

-- A heap of lists of one number each, by position.
abbrev pub Cells : Type 0
Cells = List ℕ

abbrev pub content : Cells → ℕ → ℕ
content [] a = 0
content (c ∷ h) zero = c
content (c ∷ h) (suc a) = content h a

abbrev pub put_content : ℕ → ℕ → Cells → Cells
put_content a n [] = []
put_content zero n (c ∷ h) = n ∷ h
put_content (suc a) n (c ∷ h) = c ∷ put_content a n h

abbrev pub small_python : Python Cells
small_python = record {
  is_hidden = λ h v. false;
  by_identity = λ h v. false;
  equal = λ h v w. eqb (content h v) (content h w);
  same_type = λ h v w. true;
  kind = λ h v. list_like;
  attr_names = λ h v. [];
  attr = λ h v n. none;
  set_attr = λ v n w h. h;
  del_attr = λ v n h. h;
  deepcopy = λ v h. some (length h, h ++ content h v ∷ []);
  clear = λ v h. h;
  fill = λ v c h. put_content v (content h c) h;
  assign = λ v c h. none;
  extend = λ v c h. none;
  arrange = λ ns. ns;
}

-- `A = [1]` and `B = [2]`
abbrev pub two_lists : Space Cells
two_lists = record { names = (codes "A", 0) ∷ (codes "B", 1) ∷ []; heap = 1 ∷ 2 ∷ [] }

abbrev pub snapshot : Dict Kept
snapshot = (codes "A", saved 2) ∷ (codes "B", saved 3) ∷ []

snapshot_taken : (snapshot_shared small_python two_lists).0 ≡ snapshot
unfolding snapshot_shared snapshot_names snapshot_value starts_with
snapshot_taken = refl

-- A test bound `A` to the list of `B`, and added `C`.
abbrev rebound : Space Cells
rebound = record {
  names = (codes "A", 1) ∷ (codes "B", 1) ∷ (codes "C", 1) ∷ [];
  heap = 1 ∷ 2 ∷ 1 ∷ 2 ∷ [];
}

restore_shared-stands_example :
    is_some
      (lookup (codes "C") (restore_shared small_python 9 snapshot [] rebound []).0.space.names)
    ≡ stands small_python 9
        (lookup (codes "C") snapshot)
        (lookup (codes "C") (snapshot_shared small_python rebound).0)
        (is_some (lookup (codes "C") rebound.names))
unfolding snapshot_shared snapshot_names snapshot_value starts_with union_names has_name str_eq
    restore_shared restore_names restore_name put_saved put_back rebind restore_in_place refill
    lookup insert erase same_dict
restore_shared-stands_example =
    restore_shared-stands small_python 9 snapshot [] [] rebound (codes "C") (λ ns. refl) refl refl

-- `A` still names the list of `B`, which was filled with the one and then with the other: the snapshot
-- of `A` is lost.
alias_lost :
    content (restore_shared small_python 9 snapshot [] rebound []).0.space.heap (
      or_else
        (lookup (codes "A") (restore_shared small_python 9 snapshot [] rebound []).0.space.names)
        0)
    ≡ 2
unfolding snapshot_shared snapshot_names snapshot_value starts_with union_names has_name str_eq
    restore_shared restore_names restore_name put_saved put_back rebind restore_in_place refill
    lookup insert erase same_dict
alias_lost = refl
