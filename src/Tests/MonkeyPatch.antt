-- ===== src/Tests/MonkeyPatch.antt =====
-- _monkeypatch.py at an object, the environment, `sys.path` and the working directory.
use tiderace.Base.{
  List, [], codes, eqb, false, if◌then◌else◌, insert, lookup, not, or_else, refl, some, str_eq,
  true, ℕ, ◌+◌, ◌∷◌, ◌≡◌,
}
use tiderace.MonkeyPatch.{
  Shape, World, did, did_if, first_own, getattr, set_key, setattr, undo, undo_one, with_cell,
}
use tiderace.MonkeyPatch.Calls.{
  Call, attr_set, dir_changed, env_deleted, env_set, path_prepended, perform_all,
}

-- No object or mapping takes the value 99. Object 0 has `a`, mapping 1 is the environment, and object 2 is lent what object 0 has.
abbrev start_world : World ℕ
start_world = record {
  cells =
      λ o. if eqb o 0 then (codes "a", 5) ∷ [] else if eqb o 1 then (codes "HOME", 7) ∷ [] else [];
  sys_path = codes "lib" ∷ [];
  cwd = codes "/w";
}

abbrev small_shape : Shape ℕ
small_shape = record {
  lenders = λ o. if eqb o 2 then 0 ∷ [] else [];
  has_get = λ m. true;
  environ = 1;
  takes = λ o n v. not (eqb v 99);
  can_enter = λ d. not (str_eq d (codes "/gone"));
}

abbrev some_calls : List (Call ℕ)
some_calls =
    attr_set 0 (codes "a") 6 true
    ∷ attr_set 0 (codes "b") 8 false
    ∷ attr_set 0 (codes "c") 8 true
    ∷ env_set (λ new old. new + old) (codes "HOME") 1 true
    ∷ env_set (λ new old. new + old) (codes "HOME") 99 false
    ∷ dir_changed (codes "/gone")
    ∷ env_deleted (codes "HOME") true
    ∷ path_prepended (codes "src")
    ∷ dir_changed (codes "/x")
    ∷ []

-- A lent attribute that is patched becomes the object's own, and stays so.
lent_stays :
    lookup (codes "a") (
      (or_else
          (undo small_shape
            (perform_all small_shape (attr_set 2 (codes "a") 6 true ∷ []) [] start_world).0
            (perform_all small_shape (attr_set 2 (codes "a") 6 true ∷ []) [] start_world).1)
          start_world).cells
        2)
    ≡ some 5
unfolding getattr first_own lookup insert str_eq setattr did did_if set_key with_cell undo undo_one
lent_stays = refl
