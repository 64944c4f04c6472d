-- ===== src/Protocol/Frames.antt =====
-- A frame that was written is the frame that is read.
use tiderace.Base.{
  Bool, Bool-cases, List, Option, Option-cases, [], ap, append_assoc, arith, false, inl, inr,
  length, ltb, ltb→lt, some, subst, sym, ℕ, ◌++◌, ◌∙◌, ◌≡◌,
}
use tiderace.Protocol.{
  Bytes, Event, Received, frame, got, pack, read_exactly, read_frame, read_payload, unpack,
  word_limit, write_frame,
}
use tiderace.Protocol.Words.{unpack-pack}
use tiderace.Protocol.Reading.{AreFull, Leaves, bytes_of, read_exactly-Leaves}

read_payload-step :
    (by : Bool) (es es' : List Event) (header : Bytes) (n : ℕ)
    → read_exactly by 4 [] es ≡ got header es'
    → unpack header ≡ some n
    → read_payload by es ≡ read_exactly by n [] es'
unfolding read_payload
read_payload-step by es es' header n h u = ground arith

-- The payload came through, and these bytes are still to arrive.
read_payload-Leaves :
    (header payload rest : Bytes) (es : List Event)
    → length header ≡ 4
    → unpack header ≡ some (length payload)
    → bytes_of es ≡ header ++ (payload ++ rest)
    → AreFull es
    → Leaves payload rest (read_payload false es)
read_payload-Leaves header payload rest es four size e full =
    let (es', e', rest', full') = read_exactly-Leaves header (payload ++ rest) [] es e full in
    let got_header : read_exactly false 4 [] es ≡ got header es' =
      ap (λ n. read_exactly false n [] es) (sym four) ∙ e' in
    subst (Leaves payload rest)
      (sym (read_payload-step false es es' header (length payload) got_header size))
      (read_exactly-Leaves payload rest [] es' rest' full')

module _ {A : Type 0} (dumps : A → Option Bytes) (loads : Bytes → Option A) where
  -- The frame came through, and these bytes are still to arrive.
  abbrev pub Arrives : A → Bytes → Received A → Type 0
  Arrives obj rest r = (es : List Event) × (r ≡ frame obj es) × (bytes_of es ≡ rest) × AreFull es

  -- What a written frame consists of.
  write_frame-split :
      (obj : A) (bs : Bytes)
      → write_frame dumps loads obj ≡ some bs
      → (header : Bytes) × (payload : Bytes) × (dumps obj ≡ some payload)
        × (bs ≡ header ++ payload)
        × (length header ≡ 4)
        × (unpack header ≡ some (length payload))
  unfolding write_frame
  write_frame-split obj bs h = elim (Option-cases (dumps obj)) [
    | inl none_e ↦ absurd (ground arith)
    | inr (payload, e) ↦ elim (Bool-cases (ltb (length payload) word_limit)) [
      | inl small ↦
          (let (header, packed, four, size) = unpack-pack (length payload) (ltb→lt _ _ small) in
            (header, payload, e, ground arith, four, size))
      | inr large ↦ absurd (unfold pack in ground arith)
    ]
  ]

  read_frame-step :
      (es es' : List Event) (payload : Bytes) (obj : A)
      → read_payload false es ≡ got payload es'
      → loads payload ≡ some obj
      → read_frame dumps loads es ≡ frame obj es'
  unfolding read_frame
  read_frame-step es es' payload obj h l = ground arith

  -- If JSON reads back what it wrote of an object, the frame that is written of it, in front of any
  -- other bytes, is read back as one frame, and the other bytes are left for the next read, however
  -- the transport cuts them up.
  pub read_frame-write_frame :
      (obj : A) (bs rest : Bytes) (es : List Event)
      → ((payload : Bytes) → dumps obj ≡ some payload → loads payload ≡ some obj)
      → write_frame dumps loads obj ≡ some bs
      → bytes_of es ≡ bs ++ rest
      → AreFull es
      → Arrives obj rest (read_frame dumps loads es)
  read_frame-write_frame obj bs rest es json h e full =
      let (header, payload, dumped, split_e, four, size) = write_frame-split obj bs h in
      let (es', e', rest', full') =
        read_payload-Leaves header payload rest es four size
          (e ∙ ap (λ l. l ++ rest) split_e ∙ append_assoc header payload rest) full in
      (es', read_frame-step es es' payload obj e' (json payload dumped), rest', full')
