-- ===== src/Config/Options.antt =====
-- The spellings of an option in an argv: `option_values` of config.py.
use tiderace.Base.{
  List, Str, [], arith, codes, drop_chars, eqb, false, length, length-append, ltb, lt→ltb, refl,
  starts_with, starts_with-append, starts_with_self, str_eq, str_eq_iff, str_eq_refl, suc, true, ℕ,
  ◌++◌, ◌∷◌, ◌≡◌,
}
use tiderace.Config.{option_values, value_of}

str_eq_longer : (s t : Str) (c : ℕ) → str_eq (s ++ c ∷ t) s ≡ false
unfolding str_eq
str_eq_longer [] t c = refl
str_eq_longer (d ∷ s) t c = ground (arith, str_eq_longer s t c)

drop_chars-append : (s t : Str) → drop_chars (length s) (s ++ t) ≡ t
unfolding drop_chars
drop_chars-append [] t = ground arith
drop_chars-append (c ∷ s) t = drop_chars-append s t

starts_with_part : (s p q : Str) → starts_with s p ≡ false → starts_with s (p ++ q) ≡ false
unfolding starts_with
starts_with_part s [] q h = absurd (ground (arith, h))
starts_with_part [] (c ∷ p) q h = refl
starts_with_part (d ∷ s) (c ∷ p) q h = ground (arith, h, starts_with_part s p q)

starts_with_after : (p s q : Str) → starts_with (p ++ s) (p ++ q) ≡ starts_with s q
unfolding starts_with
starts_with_after [] s q = refl
starts_with_after (c ∷ p) s q = ground (arith, starts_with_after p s q)

drop_chars_equals : (flag v : Str) → drop_chars (suc (length flag)) (flag ++ 61 ∷ v) ≡ v
unfolding drop_chars
drop_chars_equals [] v = ground arith
drop_chars_equals (c ∷ flag) v = drop_chars_equals flag v

value_of_equals : (flag v : Str) (later : List Str) → value_of flag (flag ++ 61 ∷ v) later ≡ v ∷ []
unfolding value_of
value_of_equals flag v later =
    rw
      (
        str_eq_longer flag v 61,
        starts_with_after flag (61 ∷ v) (codes "="),
        drop_chars_equals flag v,
        value_of,
      )
      refl

length_longer : (s t : Str) (c : ℕ) → ltb (length s) (length (s ++ c ∷ t)) ≡ true
length_longer s t c = lt→ltb _ _ (omega (arith, length-append s (c ∷ t)))

value_of_joined :
    (flag v : Str) (c : ℕ) (later : List Str)
    → starts_with flag (codes "--") ≡ false
    → eqb c 61 ≡ false
    → value_of flag (flag ++ c ∷ v) later ≡ (c ∷ v) ∷ []
unfolding value_of
value_of_joined flag v c later short plain_text =
    rw
      (
        str_eq_longer flag v c,
        starts_with_after flag (c ∷ v) (codes "="),
        plain_text,
        short,
        starts_with-append flag (c ∷ v),
        length_longer flag v c,
        drop_chars-append flag (c ∷ v),
        value_of,
      )
      refl

value_of_other :
    (flag v : Str) (later : List Str) → starts_with v flag ≡ false → value_of flag v later ≡ []
unfolding value_of
value_of_other flag v later h =
    ground
      (arith, h, starts_with_part v flag (codes "=") h, str_eq_iff v flag, starts_with_self flag)

value_of_flag : (flag v : Str) (argv : List Str) → value_of flag flag (v ∷ argv) ≡ v ∷ []
unfolding value_of
value_of_flag flag v argv = rw (str_eq_refl flag, value_of) refl

-- The three spellings of a short flag's value read alike, and before the values behind them, where the
-- value neither begins with the flag nor with an equals sign.
option_values_spelled :
    (flag v : Str) (c : ℕ) (argv : List Str)
    → starts_with flag (codes "--") ≡ false
    → eqb c 61 ≡ false
    → starts_with (c ∷ v) flag ≡ false
    → (option_values (flag ∷ (c ∷ v) ∷ argv) flag ≡ (c ∷ v) ∷ option_values argv flag)
      × (option_values ((flag ++ (codes "=" ++ c ∷ v)) ∷ argv) flag
          ≡ (c ∷ v) ∷ option_values argv flag)
      × (option_values ((flag ++ c ∷ v) ∷ argv) flag ≡ (c ∷ v) ∷ option_values argv flag)
unfolding option_values
option_values_spelled flag v c argv short plain_text apart = (
  rw (value_of_flag flag (c ∷ v) argv, value_of_other flag (c ∷ v) argv apart) refl,
  rw (value_of_equals flag (c ∷ v) argv) refl,
  rw (value_of_joined flag v c argv short plain_text) refl,
)
