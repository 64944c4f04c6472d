-- ===== src/Protocol.antt =====
-- engine/py-shim/tiderace_shim/protocol.py: length-prefixed frames over a descriptor, the request
-- loop, and what the parent of a one-shot child makes of the child's frame. A descriptor is the list
-- of what arrives on it; `json` is a pair of parameters; `os.write` writes all it is given.
-- Forking, waiting and signals are not modelled.
pub mod Words
pub mod Reading
pub mod Frames
pub mod Serving
use tiderace.Base.{
  Bool, List, Option, [], false, if◌then◌else◌, length, ltb, none, some, suc, true, zero, ℕ, ◌%◌,
  ◌*◌, ◌++◌, ◌+◌, ◌-◌, ◌/◌, ◌∷◌,
}

abbrev pub Bytes : Type 0
Bytes = List ℕ

-- What arrives on a descriptor: bytes that one `os.read` can return, or a pause that outlasts the
-- reader's deadline, if it has one. At the end of the list the writer has closed.
pub data Event : Type 0 where
  chunk : Bytes → Event
  pause : Event

pub data Read : Type 0 where
  got : Bytes → List Event → Read
  ended : Read
  timed_out : Read

unfoldable pub take : ℕ → Bytes → Bytes
take zero bs = []
take (suc n) [] = []
take (suc n) (b ∷ bs) = b ∷ take n bs

unfoldable pub drop : ℕ → Bytes → Bytes
drop zero bs = bs
drop (suc n) [] = []
drop (suc n) (b ∷ bs) = drop n bs

-- `read_exactly`, with what is still wanted and the buffer so far. A read of no bytes is the end.
unfoldable pub read_exactly : Bool → ℕ → Bytes → List Event → Read
unfolding take drop
read_exactly by zero buf es = got buf es
read_exactly by (suc n) buf [] = ended
read_exactly by (suc n) buf (pause ∷ es) = elim by [
  | true ↦ timed_out
  | false ↦ read_exactly by (suc n) buf es
]
read_exactly by (suc n) buf (chunk [] ∷ es) = ended
read_exactly by (suc n) buf (chunk (b ∷ bs) ∷ es) = elim (ltb (suc n) (length (b ∷ bs))) [
  | true ↦ got (buf ++ take (suc n) (b ∷ bs)) (chunk (drop (suc n) (b ∷ bs)) ∷ es)
  | false ↦ read_exactly by (suc n - length (b ∷ bs)) (buf ++ b ∷ bs) es
]

abbrev pub word_limit : ℕ
word_limit = 4294967296

-- `struct.pack("<I", n)`; `none` is the `struct.error` of a number that does not fit.
unfoldable pub pack : ℕ → Option Bytes
pack n =
    if ltb n word_limit
    then some (n % 256 ∷ n / 256 % 256 ∷ n / 65536 % 256 ∷ n / 16777216 ∷ [])
    else none

-- `struct.unpack("<I", header)`, which raises on any other number of bytes.
unfoldable pub unpack : Bytes → Option ℕ
unpack (a ∷ b ∷ c ∷ d ∷ []) = some (a + 256 * b + 65536 * c + 16777216 * d)
unpack _ = none

-- The payload of one frame: `read_frame_by`, and with no deadline the first half of `read_frame`.
abbrev payload_of : Bool → Option ℕ → List Event → Read
payload_of by none es = ended
payload_of by (some n) es = read_exactly by n [] es

unfoldable pub read_payload : Bool → List Event → Read
unfolding read_exactly unpack
read_payload by es = elim (read_exactly by 4 [] es) [
  | got header es' ↦ payload_of by (unpack header) es'
  | ended ↦ ended
  | timed_out ↦ timed_out
]

-- One frame, the end, or the exception of a payload that is no JSON.
pub data Received (A : Type 0) : Type 0 where
  frame : A → List Event → Received A
  closed : Received A
  corrupt : List Event → Received A

module _ {A : Type 0} (dumps : A → Option Bytes) (loads : Bytes → Option A) where
  -- `write_frame`; `none` where the object cannot be serialised or its payload is too long.
  unfoldable pub write_frame : A → Option Bytes
  unfolding pack
  write_frame obj = elim (dumps obj) [
    | none ↦ none
    | some payload ↦ elim (pack (length payload)) [
      | none ↦ none
      | some header ↦ some (header ++ payload)
    ]
  ]

  abbrev loaded : Option A → List Event → Received A
  loaded none es = corrupt es
  loaded (some a) es = frame a es

  -- `read_frame`
  unfoldable pub read_frame : List Event → Received A
  unfolding read_payload
  read_frame es = elim (read_payload false es) [
    | got payload es' ↦ loaded (loads payload) es'
    | ended ↦ closed
    | timed_out ↦ closed
  ]

-- `ChildResult`, with the truth of `error is not None`.
pub record ChildResult (A : Type 0) : Type 0 where
  pub reply : Option A
  pub overran : Bool
  pub received : ℕ
  pub undecodable : Bool

module _ {A : Type 0} (loads : Bytes → Option A) where
  abbrev reply_of : Option A → ℕ → ChildResult A
  reply_of none n = record { reply = none; overran = false; received = n; undecodable = true }
  reply_of (some a) n = record {
    reply = some a;
    overran = false;
    received = n;
    undecodable = false;
  }

  abbrev without : Bool → ℕ → ChildResult A
  without late n = record { reply = none; overran = late; received = n; undecodable = false }

  abbrev collected : Option ℕ → List Event → ChildResult A
  collected none es = without false 4
  collected (some n) es = elim (read_exactly true n [] es) [
    | got payload _ ↦ reply_of (loads payload) (4 + length payload)
    | ended ↦ without false 4
    | timed_out ↦ without true 4
  ]

  -- What the parent half of `run_child` returns, less the wait status.
  unfoldable pub collect : List Event → ChildResult A
  unfolding read_exactly unpack
  collect es = elim (read_exactly true 4 [] es) [
    | got header es' ↦ collected (unpack header) es'
    | ended ↦ without false 0
    | timed_out ↦ without true 0
  ]

-- How the request loop ends: at the end of the requests, at an exception (a corrupt frame, or a reply
-- that cannot be sent), or with no fuel left; and the bytes that were written before.
pub data ServeEnd (S : Type 0) : Type 0 where
  finished : Bytes → S → ServeEnd S
  raised : Bytes → S → ServeEnd S
  no_fuel : ServeEnd S

module _ {A : Type 0} (dumps : A → Option Bytes) (loads : Bytes → Option A) where
  -- `if reply is not None: self.send(reply)`: what has been written, or an exception.
  unfoldable pub send : Option A → Bytes → Option Bytes
  unfolding write_frame
  send none out = some out
  send (some reply) out = elim (write_frame dumps loads reply) [
    | none ↦ none
    | some bs ↦ some (out ++ bs)
  ]

-- `is_null` tells a JSON null, which is read as the `None` that stands for the end of the stream. The
-- handler gives a reply or none, or it raises, which is the outer `none`.
module _ {A S : Type 0} (dumps : A → Option Bytes) (loads : Bytes → Option A) (is_null : A → Bool)
    (handler : A → S → Option (Option A) × S) where
  -- What a request comes to: what has been written, or an exception, of the handler or of the sending.
  unfoldable pub dispatched : A → Bytes → S → Option Bytes × S
  unfolding send
  dispatched request out s = (
    elim (handler request s).0 [ none ↦ none | some reply ↦ send dumps loads reply out ],
    (handler request s).1,
  )

  -- `Transport.serve`
  unfoldable pub serve : ℕ → Bytes → List Event → S → ServeEnd S
  unfolding read_frame dispatched
  serve zero out es s = no_fuel
  serve (suc n) out es s = elim (read_frame dumps loads es) [
    | closed ↦ finished out s
    | corrupt _ ↦ raised out s
    | frame request es' ↦ elim (is_null request) [
      | true ↦ finished out s
      | false ↦
          let (written, s') = dispatched request out s in
          elim written [ none ↦ raised out s' | some out' ↦ serve n out' es' s' ]
    ]
  ]
