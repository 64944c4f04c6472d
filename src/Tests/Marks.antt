-- ===== src/Tests/Marks.antt =====
-- pytest_compat.py at a strict xfail behind a mark without effect.
use tiderace.Base.{[], codes, false, inr, none, refl, str_eq, true, ◌∷◌, ◌≡◌}
use tiderace.Results.{passed}
use tiderace.Marks.{
  Mark, expects_failure, first_not_text, flag, fold, normalise, normalise_pytest, nothing, pytest,
  xfail_kind,
}
use tiderace.Marks.Folding.{fold-closest}

-- `pytest.mark.slow`, and `pytest.mark.xfail(strict=True)`.
abbrev slow : Mark
slow = record {
  kind = codes "slow";
  name = codes "slow";
  reason = [];
  condition = nothing;
  strict = false;
  default_reason = codes "slow";
}

abbrev strict_xfail : Mark
strict_xfail = record {
  kind = xfail_kind;
  name = xfail_kind;
  reason = [];
  condition = flag true;
  strict = true;
  default_reason = xfail_kind;
}

normalise_xfail : normalise (pytest xfail_kind [] none none true) ≡ strict_xfail
unfolding normalise normalise_pytest str_eq first_not_text
normalise_xfail = refl

fold-closest_example :
    fold (slow ∷ strict_xfail ∷ []) passed [] false ≡ fold (strict_xfail ∷ []) passed [] false
unfolding str_eq expects_failure
fold-closest_example =
    fold-closest (slow ∷ []) [] strict_xfail passed [] false ((refl, refl), tt) (inr (refl, refl))
