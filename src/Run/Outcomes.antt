-- ===== src/Run/Outcomes.antt =====
-- What the result of a case says of its execution: `_run_variant` of engine.py.
use tiderace.Base.{
  Bool-cases, Option, Option-cases, Str, [], arith, false, inl, inr, length, none, refl, some, suc,
  true, zero, ℕ, ◌∷◌, ◌≡◌, ◌≤◌, ◌⊎◌,
}
use tiderace.Results.{error, passed, unknown}
use tiderace.Results.Encoding.{as_read}
use tiderace.Protocol.{take}
use tiderace.Run.{
  Got, Payload, Ran, answered_by, child_body, detail_limit, error_of, fault_payload, forked,
  payload_of, read_reply,
}

-- A forked case is reported passed only if its child sent a whole, readable frame in time that says so.
pub forked_passed :
    (res : Got)
    → (forked res).outcome ≡ passed
    → (p : Payload) × (res.reply ≡ some p)
      × (p.outcome ≡ passed)
      × (res.timed_out ≡ false)
      × (res.decode_error ≡ none)
unfolding forked answered_by error_of read_reply
forked_passed res h = elim (Bool-cases res.timed_out) [
  | inl late ↦ absurd (ground arith)
  | inr in_time ↦ elim (Option-cases res.decode_error) [
    | inr (e, unreadable) ↦ absurd (ground arith)
    | inl readable ↦ elim (Option-cases res.reply) [
      | inl silent ↦ absurd (ground arith)
      | inr (p, replied) ↦ (p, replied, ground arith, in_time, readable)
    ]
  ]
]

-- Whatever ends a child without a readable frame in time is an error, with no coverage and no verdict.
forked_error :
    (res : Got)
    → (res.timed_out ≡ true) ⊎ ((res.reply ≡ none) ⊎ ((e : Str) × (res.decode_error ≡ some e)))
    → ((forked res).outcome ≡ error)
      × ((forked res).coverage ≡ [])
      × ((forked res).purity ≡ unknown)
unfolding forked answered_by error_of
forked_error res h = ground arith

length-take : (n : ℕ) (s : Str) → length (take n s) ≤ n
unfolding take
length-take zero s = omega arith
length-take (suc n) [] = omega arith
length-take (suc n) (c ∷ s) = omega (arith, length-take n s)

-- However long the detail of a case or the text of its exception, the child's frame carries at most
-- 4,000 characters of it.
pub child_body_bounded :
    (o : Option Ran) (text : Str)
    → (d : Str) × ((child_body o text).detail ≡ some d) × (length d ≤ detail_limit)
unfolding child_body payload_of fault_payload
child_body_bounded none text = (take detail_limit text, refl, length-take detail_limit text)
child_body_bounded (some r) text =
    (take detail_limit r.detail, refl, length-take detail_limit r.detail)

-- What a child reports of an execution is what its parent reads: the outcome, the coverage and the
-- purity as they were, and the detail cut to its limit.
forked-child_body :
    (r : Ran) (res : Got)
    → res.reply ≡ some (child_body (some r) [])
    → res.timed_out ≡ false
    → res.decode_error ≡ none
    → forked res ≡ record r { detail = take detail_limit r.detail; purity = as_read r.purity }
unfolding forked answered_by read_reply child_body payload_of
forked-child_body r res h late e = ground arith
