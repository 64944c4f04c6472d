-- ===== src/Protocol/Serving.antt =====
-- The request loop against a loop over the requests themselves.
use tiderace.Base.{
  Bool, Bool-cases, List, Option, Option-cases, [], arith, false, inl, inr, length, none, refl,
  some, suc, sym, true, zero, ℕ, ◌++◌, ◌<◌, ◌∙◌, ◌∷◌, ◌≡◌,
}
use tiderace.Protocol.{
  Bytes, Event, ServeEnd, chunk, closed, dispatched, ended, finished, frame, pause, raised,
  read_exactly, read_frame, read_payload, send, serve, write_frame,
}
use tiderace.Protocol.Reading.{AreFull, bytes_of}
use tiderace.Protocol.Frames.{read_frame-write_frame}

read_exactly-ended :
    (n : ℕ) (es : List Event)
    → bytes_of es ≡ []
    → AreFull es
    → read_exactly false (suc n) [] es ≡ ended
unfolding bytes_of read_exactly
read_exactly-ended n [] e full = refl
read_exactly-ended n (pause ∷ es) e full = read_exactly-ended n es e full
read_exactly-ended n (chunk [] ∷ es) e full = refl
read_exactly-ended n (chunk (b ∷ bs) ∷ es) e full = absurd (cc)

module _ {A S : Type 0} (dumps : A → Option Bytes) (loads : Bytes → Option A) (is_null : A → Bool)
    (handler : A → S → Option (Option A) × S) where
  read_frame-closed :
      (es : List Event) → bytes_of es ≡ [] → AreFull es → read_frame dumps loads es ≡ closed
  unfolding read_frame read_payload
  read_frame-closed es e full = rw (read_exactly-ended 3 es e full, read_frame, read_payload) refl

  -- These bytes are the frames of these requests.
  abbrev pub AreFrames : List A → Bytes → Type 0
  AreFrames [] bs = bs ≡ []
  AreFrames (r ∷ rs) bs =
      (f : Bytes) × (rest : Bytes) × (write_frame dumps loads r ≡ some f)
      × (bs ≡ f ++ rest)
      × AreFrames rs rest

  -- The loop over the requests themselves: a null is the end; each reply's frame goes behind what was
  -- written; and a handler that raises ends it, or a reply that cannot be sent.
  unfoldable pub answered : List A → Bytes → S → ServeEnd S
  answered [] out s = finished out s
  answered (r ∷ rs) out s = elim (is_null r) [
    | true ↦ finished out s
    | false ↦ elim (handler r s).0 [
      | none ↦ raised out (handler r s).1
      | some none ↦ answered rs out (handler r s).1
      | some (some reply) ↦ elim (write_frame dumps loads reply) [
        | none ↦ raised out (handler r s).1
        | some bs ↦ answered rs (out ++ bs) (handler r s).1
      ]
    ]
  ]

  -- `answered` in terms of what becomes of a request that is not null.
  answered-dispatched :
      (r : A) (rs : List A) (out : Bytes) (s : S)
      → is_null r ≡ false
      → answered (r ∷ rs) out s ≡ elim (dispatched dumps loads is_null handler r out s).0 [
        | none ↦ raised out (handler r s).1
        | some out' ↦ answered rs out' (handler r s).1
      ]
  unfolding answered dispatched send
  answered-dispatched r rs out s request = elim (Option-cases (handler r s).0) [
    | inl raises ↦ rw (request, raises, answered, dispatched) refl
    | inr (none, silent) ↦ rw (request, silent, answered, dispatched, send) refl
    | inr (some reply, e) ↦ elim (Option-cases (write_frame dumps loads reply)) [
      | inl failed ↦ rw (request, e, answered, dispatched, send) (rw failed refl)
      | inr (bs, sent) ↦ rw (request, e, answered, dispatched, send) (rw sent refl)
    ]
  ]

  answered-null :
      (r : A) (rs : List A) (out : Bytes) (s : S)
      → is_null r ≡ true
      → answered (r ∷ rs) out s ≡ finished out s
  unfolding answered
  answered-null r rs out s h = rw (h, answered) refl

  serve-frame :
      (n : ℕ) (out : Bytes) (es es' : List Event) (s : S) (r : A)
      → read_frame dumps loads es ≡ frame r es'
      → is_null r ≡ false
      → serve dumps loads is_null handler (suc n) out es s
        ≡ elim (dispatched dumps loads is_null handler r out s).0 [
          | none ↦ raised out (handler r s).1
          | some out' ↦ serve dumps loads is_null handler n out' es' (handler r s).1
        ]
  unfolding serve dispatched
  serve-frame n out es es' s r h request = rw (h, serve) (rw request refl)

  serve-null :
      (n : ℕ) (out : Bytes) (es es' : List Event) (s : S) (r : A)
      → read_frame dumps loads es ≡ frame r es'
      → is_null r ≡ true
      → serve dumps loads is_null handler (suc n) out es s ≡ finished out s
  unfolding serve
  serve-null n out es es' s r h null = rw (h, serve) (rw null refl)

  serve-closed :
      (n : ℕ) (out : Bytes) (es : List Event) (s : S)
      → read_frame dumps loads es ≡ closed
      → serve dumps loads is_null handler (suc n) out es s ≡ finished out s
  unfolding serve
  serve-closed n out es s h = rw (h, serve) refl

  -- If JSON reads back what it wrote: fed the frames of some requests, however cut up, and then
  -- closed, the loop hands the handler each request once and in order and writes the replies in
  -- order; it ends with the stream, at a JSON null, or with an exception at a request for which the
  -- handler raises or whose reply cannot be sent. Fuel for one round more than there are requests is
  -- enough.
  pub serve-answered :
      (rs : List A) (n : ℕ) (bs out : Bytes) (es : List Event) (s : S)
      → ((r : A) (payload : Bytes) → dumps r ≡ some payload → loads payload ≡ some r)
      → AreFrames rs bs
      → bytes_of es ≡ bs
      → AreFull es
      → length rs < n
      → serve dumps loads is_null handler n out es s ≡ answered rs out s
  unfolding answered
  serve-answered rs zero bs out es s json frames e full fuel = absurd (omega arith)
  serve-answered [] (suc n) bs out es s json frames e full fuel =
      serve-closed n out es s (read_frame-closed es (e ∙ frames) full)
  serve-answered (r ∷ rs) (suc n) bs out es s json frames e full fuel =
      let (f, rest, written, split_e, more) = frames in
      let (es', read, rest_e, full') =
        read_frame-write_frame dumps loads r f rest es (json r) written (e ∙ split_e) full in
      elim (Bool-cases (is_null r)) [
        | inl null ↦ serve-null n out es es' s r read null ∙ sym (answered-null r rs out s null)
        | inr request ↦
            serve-frame n out es es' s r read request
            ∙ (elim (Option-cases (dispatched dumps loads is_null handler r out s).0) [
              | inl failed ↦ rw failed refl
              | inr (out', sent) ↦ rw sent (
                  serve-answered rs n rest out' es' (handler r s).1 json more rest_e full'
                    (omega arith))
            ])
            ∙ sym (answered-dispatched r rs out s request)
      ]
