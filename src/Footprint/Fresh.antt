-- ===== src/Footprint/Fresh.antt =====
-- `_file_deps` of footprint.py, with its three memos, against a parse and a resolution of every file.
use tiderace.Base.{
  Bool-cases, Dict, List, Option-cases, Str, [], ap, arith, inl, inr, insert, lookup,
  lookup-insert_other, lookup-insert_same, of_some, refl, some, str_eq, str_eq_sound, sym, ◌∙◌, ◌∷◌,
  ◌≡◌,
}
use tiderace.Footprint.{
  Caches, Disk, Entry, Name, Resolved, Sources, add_found, cached_deps, entry_deps, file_deps_of,
  note_new, parsed_deps, resolve_names, resolve_uncached,
}
use tiderace.Footprint.Memos.{IsMemo, Normal, resolve_module_file-IsMemo}

-- The loop of `_file_deps` with no memo.
abbrev pub plain_found : Disk → Str → List Name → List Str → List Str
plain_found disk path [] deps = deps
plain_found disk path (n ∷ names) deps =
    plain_found disk path names (add_found (resolve_uncached disk n.0 n.1 path) deps)

module _ (src : Sources) where
  -- The in-tree files that a file imports, in the order of its imports.
  abbrev pub plain_deps : Str → List Str
  plain_deps path = plain_found src.disk path (src.names path) []

  -- Entries of which those that the status and the `sys.path` of the process match are right.
  abbrev pub Trusted : Dict Entry → Type 0
  Trusted entries =
      (path : Str) (deps : List Str)
      → Normal src path
      → cached_deps src entries path ≡ some deps
      → deps ≡ plain_deps path

  -- The caches hold nothing that a parse and a resolution would not find.
  pub record IsFresh (c : Caches) : Type 0 where
    pub deps_right :
        (path : Str) (deps : List Str)
        → Normal src path
        → lookup path c.file_deps ≡ some deps
        → deps ≡ plain_deps path
    pub cache_trusted : Trusted c.file_deps_cache
    pub new_trusted : Trusted c.file_deps_new
    pub memo_right : IsMemo src c.resolved

  resolve_names-plain_found :
      (path : Str) (names : List Name) (deps : List Str) (memo : Resolved)
      → Normal src path
      → IsMemo src memo
      → ((resolve_names src path names deps memo).0 ≡ plain_found src.disk path names deps)
        × IsMemo src (resolve_names src path names deps memo).1
  unfolding resolve_names
  resolve_names-plain_found path [] deps memo normal ok = (refl, ok)
  resolve_names-plain_found path ((dotted, level) ∷ names) deps memo normal ok =
      let (found, ok') = resolve_module_file-IsMemo src dotted level path memo normal ok in
      rw (sym found) (resolve_names-plain_found path names _ _ normal ok')

  entry_deps-some :
      (path : Str) (e : Entry) (deps : List Str)
      → entry_deps src path (some e) ≡ some deps
      → deps ≡ e.deps
  unfolding entry_deps
  entry_deps-some path e deps h = ground (arith, h)

  -- An entry with the right dependencies may be added.
  Trusted-insert :
      (path : Str) (e : Entry) (entries : Dict Entry)
      → e.deps ≡ plain_deps path
      → Trusted entries
      → Trusted (insert path e entries)
  unfolding cached_deps
  Trusted-insert path e entries right ok other deps normal hit =
      elim (Bool-cases (str_eq path other)) [
        | inl same ↦
            entry_deps-some other e deps
              (sym (ap (entry_deps src other) (lookup-insert_same path other e entries same)) ∙ hit)
            ∙ right
            ∙ ap plain_deps (str_eq_sound path other same)
        | inr apart ↦
            ok other deps normal (
              sym (ap (entry_deps src other) (lookup-insert_other path other e entries apart))
              ∙ hit)
      ]

  Trusted-note_new :
      (path : Str) (deps : List Str) (entries : Dict Entry)
      → deps ≡ plain_deps path
      → Trusted entries
      → Trusted (note_new src path deps entries)
  unfolding note_new
  Trusted-note_new path deps entries right ok = elim (Option-cases (src.stat path)) [
    | inl unknown ↦ rw (unknown, note_new) ok
    | inr (s, known) ↦ rw (known, note_new) (Trusted-insert path _ entries right ok)
  ]

  deps_right-insert :
      (path : Str) (deps : List Str) (c : Caches)
      → deps ≡ plain_deps path
      → IsFresh c
      → (other : Str) (found : List Str) → Normal src other
      → lookup other (insert path deps c.file_deps) ≡ some found
      → found ≡ plain_deps other
  deps_right-insert path deps c right ok other found normal hit =
      elim (Bool-cases (str_eq path other)) [
        | inl same ↦
            of_some (sym hit ∙ lookup-insert_same path other deps c.file_deps same)
            ∙ right
            ∙ ap plain_deps (str_eq_sound path other same)
        | inr apart ↦
            ok.deps_right other found normal
              (sym (lookup-insert_other path other deps c.file_deps apart) ∙ hit)
      ]

  parsed_deps-IsFresh :
      (path : Str) (c : Caches)
      → Normal src path
      → IsFresh c
      → ((parsed_deps src path c).0 ≡ plain_deps path) × IsFresh (parsed_deps src path c).1
  unfolding parsed_deps
  parsed_deps-IsFresh path c normal ok =
      let (found, memo) =
        resolve_names-plain_found path (src.names path) [] c.resolved normal ok.memo_right in
      (
        found,
        record {
          deps_right = deps_right-insert path _ c found ok;
          cache_trusted = ok.cache_trusted;
          new_trusted = Trusted-note_new path _ c.file_deps_new found ok.new_trusted;
          memo_right = memo;
        },
      )

  -- A file's dependencies are those that a parse and a resolution of it find, whichever memo answers,
  -- and the memos stay right; so does what the process writes for the next run.
  pub file_deps_of-IsFresh :
      (path : Str) (c : Caches)
      → Normal src path
      → IsFresh c
      → ((file_deps_of src path c).0 ≡ plain_deps path) × IsFresh (file_deps_of src path c).1
  unfolding file_deps_of
  file_deps_of-IsFresh path c normal ok = elim (Option-cases (lookup path c.file_deps)) [
    | inr (deps, held) ↦ rw (held, file_deps_of) (ok.deps_right path deps normal held, ok)
    | inl new ↦ elim (Option-cases (cached_deps src c.file_deps_cache path)) [
      | inl stale ↦ rw (new, stale, file_deps_of) (parsed_deps-IsFresh path c normal ok)
      | inr (deps, hit) ↦
          (let right = ok.cache_trusted path deps normal hit in
            rw (new, hit, file_deps_of)
              (
                right,
                record {
                  deps_right = deps_right-insert path deps c right ok;
                  cache_trusted = ok.cache_trusted;
                  new_trusted = ok.new_trusted;
                  memo_right = ok.memo_right;
                },
              ))
    ]
  ]
