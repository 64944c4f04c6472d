-- ===== src/Results/Encoding.antt =====
-- The purity verdict on the wire: `with_purity` and `purity_from` of results.py.
use tiderace.Base.{refl, true, ◌≡◌}
use tiderace.Results.{
  Purity, impure, impure_text, no_verdict, nonempty_or, pure, purity_from, unknown, with_purity,
}

-- What the reader sees: a reason that is the empty text comes back as "impure".
abbrev pub as_read : Purity → Purity
as_read unknown = unknown
as_read pure = pure
as_read (impure reason) = impure (nonempty_or reason impure_text)

-- Written with its reason onto a frame that has no verdict, a purity reads back as itself.
purity_from-with_purity : (p : Purity) → purity_from (with_purity no_verdict p true) ≡ as_read p
unfolding purity_from with_purity
purity_from-with_purity unknown = refl
purity_from-with_purity pure = refl
purity_from-with_purity (impure reason) = refl
