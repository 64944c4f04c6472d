-- ===== src/Footprint/Memos.antt =====
-- The memos of footprint.py against the lookups they stand for.
use tiderace.Base.{
  Bool-cases, Option, Option-cases, Str, ap, arith, inl, inr, of_some, refl, some, str_eq_iff, suc,
  sym, true, zero, ℕ, ◌∙◌, ◌∷◌, ◌≡◌,
}
use tiderace.Footprint.{
  ResolveKey, Resolved, Sources, find_key, first_file, key_eq, probes, resolve_key,
  resolve_module_file, resolve_uncached, stems,
}

module _ (src : Sources) where
  -- A path that is absolute and normal already.
  abbrev pub Normal : Str → Type 0
  Normal p = src.disk.abspath p ≡ p

  -- Every resolution that a memo holds is what an uncached one finds.
  abbrev pub IsMemo : Resolved → Type 0
  IsMemo memo =
      (dotted : Str) (level : ℕ) (f : Str) (v : Option Str)
      → Normal f
      → find_key (resolve_key dotted level f) memo ≡ some v
      → v ≡ resolve_uncached src.disk dotted level f

  key_eq_sound : (a b : ResolveKey) → key_eq a b ≡ true → (a.0 ≡ b.0) × (a.1 ≡ b.1) × (a.2 ≡ b.2)
  unfolding key_eq
  key_eq_sound (a, m, d) (b, n, e) h = ground (arith, str_eq_iff a b, str_eq_iff d e)

  -- Two imports with one key have the same candidates: a relative one is resolved from the directory
  -- alone.
  stems-resolve_key :
      (dotted other : Str) (level depth : ℕ) (f g : Str)
      → Normal f
      → Normal g
      → key_eq (resolve_key dotted level f) (resolve_key other depth g) ≡ true
      → stems src.disk dotted level f ≡ stems src.disk other depth g
  unfolding resolve_key stems
  stems-resolve_key dotted other zero zero f g nf ng h = rw (key_eq_sound _ _ h).0 refl
  stems-resolve_key dotted other zero (suc depth) f g nf ng h =
      absurd (omega (arith, (key_eq_sound _ _ h).1))
  stems-resolve_key dotted other (suc level) zero f g nf ng h =
      absurd (omega (arith, (key_eq_sound _ _ h).1))
  stems-resolve_key dotted other (suc level) (suc depth) f g nf ng h =
      let (e, l, d) = key_eq_sound _ _ h in
      let same_depth : level ≡ depth = omega (arith, l) in rw (nf, ng, e, same_depth, d) refl

  resolve_key_decides :
      (dotted other : Str) (level depth : ℕ) (f g : Str)
      → Normal f
      → Normal g
      → key_eq (resolve_key dotted level f) (resolve_key other depth g) ≡ true
      → resolve_uncached src.disk dotted level f ≡ resolve_uncached src.disk other depth g
  unfolding resolve_uncached
  resolve_key_decides dotted other level depth f g nf ng h =
      ap (λ s. first_file src.disk (probes s))
        (stems-resolve_key dotted other level depth f g nf ng h)

  IsMemo-cons :
      (dotted : Str) (level : ℕ) (f : Str) (memo : Resolved)
      → Normal f
      → IsMemo memo
      → IsMemo ((resolve_key dotted level f, resolve_uncached src.disk dotted level f) ∷ memo)
  unfolding find_key
  IsMemo-cons dotted level f memo nf ok other depth g v ng found =
      elim (Bool-cases (key_eq (resolve_key dotted level f) (resolve_key other depth g))) [
        | inl same ↦
            of_some (sym found ∙ rw (same, find_key) refl)
            ∙ resolve_key_decides dotted other level depth f g nf ng same
        | inr apart ↦ ok other depth g v ng (ground (arith, found, apart))
      ]

  pub resolve_module_file-IsMemo :
      (dotted : Str) (level : ℕ) (f : Str) (memo : Resolved)
      → Normal f
      → IsMemo memo
      → ((resolve_module_file src.disk dotted level f memo).0
          ≡ resolve_uncached src.disk dotted level f)
        × IsMemo (resolve_module_file src.disk dotted level f memo).1
  unfolding resolve_module_file
  resolve_module_file-IsMemo dotted level f memo normal ok =
      elim (Option-cases (find_key (resolve_key dotted level f) memo)) [
        | inr (v, hit) ↦ rw (hit, resolve_module_file) (ok dotted level f v normal hit, ok)
        | inl missing ↦
            rw (missing, resolve_module_file) (refl, IsMemo-cons dotted level f memo normal ok)
      ]
