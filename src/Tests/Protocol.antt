-- ===== src/Tests/Protocol.antt =====
-- protocol.py over texts, whose "JSON" is the text itself, and chunks that cut a frame in two.
use tiderace.Base.{
  Bool, List, Option, [], arith, codes, false, none, refl, some, str_eq, suc, sym, true, ℕ, ◌∷◌,
  ◌≡◌,
}
use tiderace.Protocol.{
  Bytes, Event, chunk, collect, pack, pause, read_exactly, read_frame, serve, write_frame,
}
use tiderace.Protocol.Reading.{bytes_of}
use tiderace.Protocol.Frames.{Arrives, read_frame-write_frame}
use tiderace.Protocol.Serving.{answered, serve-answered}

abbrev as_bytes : Bytes → Option Bytes
as_bytes s = some s

-- "hi" in one frame, with the first two bytes of its length in a chunk of their own.
abbrev hi_frame : Bytes
hi_frame = 2 ∷ 0 ∷ 0 ∷ 0 ∷ 104 ∷ 105 ∷ []

abbrev hi_events : List Event
hi_events = chunk (2 ∷ 0 ∷ []) ∷ pause ∷ chunk (0 ∷ 0 ∷ 104 ∷ 105 ∷ []) ∷ []

-- A handler that answers with what it was asked, and counts.
abbrev echo : Bytes → ℕ → Option (Option Bytes) × ℕ
echo r n = (some (some r), suc n)

-- The text "null" is none of its requests.
abbrev is_null_text : Bytes → Bool
is_null_text = str_eq (codes "null")

hi_collected :
    collect as_bytes hi_events
    ≡ record { reply = none; overran = true; received = 0; undecodable = false }
unfolding collect read_exactly
hi_collected = refl

read_frame-write_frame_example :
    Arrives as_bytes as_bytes (104 ∷ 105 ∷ []) [] (read_frame as_bytes as_bytes hi_events)
unfolding bytes_of write_frame pack
read_frame-write_frame_example =
    read_frame-write_frame as_bytes as_bytes (104 ∷ 105 ∷ []) hi_frame [] hi_events (λ p e. sym e)
      refl refl tt

serve-answered_example :
    serve as_bytes as_bytes is_null_text echo 2 [] hi_events 0
    ≡ answered as_bytes as_bytes is_null_text echo ((104 ∷ 105 ∷ []) ∷ []) [] 0
unfolding bytes_of write_frame pack
serve-answered_example =
    serve-answered as_bytes as_bytes is_null_text echo ((104 ∷ 105 ∷ []) ∷ []) 2 hi_frame []
      hi_events 0 (λ r p e. sym e) (hi_frame, [], refl, refl, refl) refl tt (omega arith)
