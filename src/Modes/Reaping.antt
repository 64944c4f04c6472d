-- ===== src/Modes/Reaping.antt =====
-- modes.py: every worker that the warm image forks is waited for.
use tiderace.Base.{
  Bool, Bool-cases, List, Option-cases, [], any, arith, eqb, false, if◌then◌else◌, inl, inr, keep,
  keep_no, keep_yes, not, refl, suc, true, ℕ, ◌++◌, ◌+◌, ◌∙◌, ◌∷◌, ◌≡◌, ◌⊎◌,
}
use tiderace.Modes.Pool.{
  Arrival, Image, handle_request, new_image, reap_rest, serve_pool_persistent, serve_requests,
  sweep,
}

-- How often a pid stands in a list.
unfoldable pub times : ℕ → List ℕ → ℕ
times p [] = 0
times p (q ∷ qs) = let rest = times p qs in if eqb p q then suc rest else rest

times-append : (p : ℕ) (xs ys : List ℕ) → times p (xs ++ ys) ≡ times p xs + times p ys
unfolding times
times-append p [] ys = omega arith
times-append p (x ∷ xs) ys = ground (arith, times-append p xs ys)

times-cons : (p q : ℕ) (qs : List ℕ) → times p (q ∷ qs) ≡ times p (q ∷ []) + times p qs
unfolding times
times-cons p q qs = ground arith

times-keep :
    (p : ℕ) (f : ℕ → Bool) (xs : List ℕ)
    → times p (keep f xs) + times p (keep (λ q. not (f q)) xs) ≡ times p xs
unfolding times
times-keep p f [] = omega arith
times-keep p f (x ∷ xs) = elim (Bool-cases (f x)) [
  | inl e ↦
      rw (keep_yes f x xs e, keep_no (λ q. not (f q)) x xs (rw e refl))
        (omega (arith, times-keep p f xs, times-cons p x (keep f xs), times-cons p x xs))
  | inr e ↦
      rw (keep_no f x xs e, keep_yes (λ q. not (f q)) x xs (rw e refl))
        (omega
          (arith, times-keep p f xs, times-cons p x (keep (λ q. not (f q)) xs), times-cons p x xs))
]

-- Each worker is live, has been waited for or is lost, as often as it was forked.
abbrev pub IsAccounted : Image → Type 0
IsAccounted im = (p : ℕ) → times p im.live + times p im.reaped + times p im.lost ≡ times p im.forked

sweep-IsAccounted : (f : ℕ → Bool) (im : Image) → IsAccounted im → IsAccounted (sweep f im)
unfolding sweep
sweep-IsAccounted f im h p =
    omega (arith, h p, times-keep p f im.live, times-append p im.reaped (keep f im.live))

handle_request-IsAccounted :
    (e : Arrival) (im : Image) → IsAccounted im → IsAccounted (handle_request e im).1
unfolding handle_request
handle_request-IsAccounted e im h = elim (Bool-cases e.request.ping) [
  | inl q ↦ rw q (sweep-IsAccounted e.finished im h)
  | inr q ↦ elim (Bool-cases (eqb e.request.spawn 0)) [
    | inl z ↦ rw (q, z) (sweep-IsAccounted e.finished im h)
    | inr z ↦ elim (Bool-cases e.fork_raises) [
      | inl x ↦
          rw (q, z, x)
            (λ p. omega (
              arith,
              sweep-IsAccounted e.finished im h p,
              times-append p (sweep e.finished im).lost e.children,
              times-append p (sweep e.finished im).forked e.children,
            ))
      | inr x ↦
          rw (q, z, x)
            (λ p. omega (
              arith,
              sweep-IsAccounted e.finished im h p,
              times-append p (sweep e.finished im).live e.children,
              times-append p (sweep e.finished im).forked e.children,
            ))
    ]
  ]
]

handle_request-lost :
    (e : Arrival) (im : Image) → e.fork_raises ≡ false → (handle_request e im).1.lost ≡ im.lost
unfolding handle_request sweep
handle_request-lost e im h = elim (Bool-cases e.request.ping) [
  | inl q ↦ rw q refl
  | inr q ↦ elim (Bool-cases (eqb e.request.spawn 0)) [
    | inl z ↦ rw (q, z) refl
    | inr z ↦ rw (q, z, h) refl
  ]
]

-- What holds of the image behind each request holds at the end of the loop.
serve_requests-end :
    (P : Image → Type 0) (e : Arrival) (es : List Arrival) (im : Image)
    → P (handle_request e im).1
    → P (serve_requests es (handle_request e im).1)
    → P (serve_requests (e ∷ es) im)
unfolding serve_requests
serve_requests-end P e es im now later = elim (Option-cases (handle_request e im).0) [
  | inl n ↦ rw (n, serve_requests) now
  | inr (reply, s) ↦ rw (s, serve_requests) later
]

serve_requests-IsAccounted :
    (es : List Arrival) (im : Image) → IsAccounted im → IsAccounted (serve_requests es im)
serve_requests-IsAccounted [] im h = unfold serve_requests in h
serve_requests-IsAccounted (e ∷ es) im h =
    let next = handle_request-IsAccounted e im h in
    serve_requests-end IsAccounted e es im next (serve_requests-IsAccounted es _ next)

-- No worker is lost, or some fork raised.
abbrev LosesFew : List Arrival → Image → Type 0
LosesFew es im = (im.lost ≡ []) ⊎ (any (λ (e : Arrival). e.fork_raises) es ≡ true)

serve_requests-LosesFew :
    (es : List Arrival) (im : Image) → im.lost ≡ [] → LosesFew es (serve_requests es im)
serve_requests-LosesFew [] im h = unfold serve_requests in inl h
serve_requests-LosesFew (e ∷ es) im h = elim (Bool-cases e.fork_raises) [
  | inl raises ↦ inr (rw raises refl)
  | inr calm ↦
      let next : (handle_request e im).1.lost ≡ [] = handle_request-lost e im calm ∙ h in
      serve_requests-end (LosesFew (e ∷ es)) e es im (inl next)
        (elim (serve_requests-LosesFew es (handle_request e im).1 next) [
          | inl none_lost ↦ inl none_lost
          | inr some_raised ↦ inr (ground (arith, some_raised))
        ])
]

-- Whatever requests come in, whenever workers finish and wherever a fork raises, at the end each pid
-- was waited for as often as a fork gave it, less the times it was lost, that is forked for a request
-- in which a later fork raised; and none was lost where no fork raised.
pub serve_pool_persistent-reaped :
    (es : List Arrival)
    → ((p : ℕ)
        → times p (serve_pool_persistent es).reaped + times p (serve_pool_persistent es).lost
          ≡ times p (serve_pool_persistent es).forked)
      × (((serve_pool_persistent es).lost ≡ []) ⊎ (any (λ (e : Arrival). e.fork_raises) es ≡ true))
unfolding serve_pool_persistent reap_rest times
serve_pool_persistent-reaped es = (
  λ p.
      let im = serve_requests es new_image in
      omega (
        arith,
        serve_requests-IsAccounted es new_image (λ q. omega arith) p,
        times-append p im.reaped im.live,
      ),
  serve_requests-LosesFew es new_image refl,
)
