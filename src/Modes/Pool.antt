-- ===== src/Modes/Pool.antt =====
-- modes.py: the pool of workers forked from one image, `_serve_pool` and `_serve_pool_persistent`.
use tiderace.Base.{
  Bool, List, Option, [], eqb, if◌then◌else◌, keep, length, none, not, some, suc, zero, ℕ, ◌++◌,
  ◌∷◌,
}

-- How a child ended: by an exit status or by a signal.
pub data ChildEnd : Type 0 where
  exit signal : ℕ → ChildEnd

-- `os.WIFEXITED(st) and os.WEXITSTATUS(st) != 0`
unfoldable pub failed_status : ChildEnd → Option ℕ
failed_status (exit zero) = none
failed_status (exit (suc n)) = some (suc n)
failed_status (signal s) = none

-- The loop over the children of `_serve_pool`.
unfoldable pub fold_status : ℕ → List ChildEnd → ℕ
unfolding failed_status
fold_status status [] = status
fold_status status (e ∷ es) = elim (failed_status e) [
  | none ↦ fold_status status es
  | some s ↦ fold_status s es
]

unfoldable pub pool_status : List ChildEnd → ℕ
unfolding fold_status
pool_status es = fold_status 0 es

-- A request to the warm image.
pub record Request : Type 0 where
  pub ping : Bool
  pub spawn : ℕ

-- The answer to it; that of a ping carries the pid of the image too, which never changes.
pub data Reply : Type 0 where
  pong spawned : ℕ → Reply
  silent : Reply

-- The warm image: the pids in its list of workers, and for the proofs those that it ever forked, has
-- waited for, and forked for a request that an exception ended before they were listed.
pub record Image : Type 0 where
  pub live : List ℕ
  pub forked : List ℕ
  pub reaped : List ℕ
  pub lost : List ℕ

abbrev pub new_image : Image
new_image = record { live = []; forked = []; reaped = []; lost = [] }

-- `waitpid(pid, WNOHANG)` over the live workers: the finished ones are waited for by it.
unfoldable pub sweep : (ℕ → Bool) → Image → Image
sweep finished im = record im {
  live = keep (λ p. not (finished p)) im.live;
  reaped = im.reaped ++ keep finished im.live;
}

-- A request as it comes in: which workers have finished by then, the pids that its forks give, and
-- whether one of the forks raises behind these.
pub record Arrival : Type 0 where
  pub request : Request
  pub finished : ℕ → Bool
  pub children : List ℕ
  pub fork_raises : Bool

-- One request; there is no reply where an exception ends it.
unfoldable pub handle_request : Arrival → Image → Option Reply × Image
unfolding sweep
handle_request e im =
    let swept = sweep e.finished im in
    if e.request.ping
    then (some (pong (length swept.live)), swept)
    else if eqb e.request.spawn 0
    then (some silent, swept)
    else if e.fork_raises
    then (
      none,
      record swept { forked = swept.forked ++ e.children; lost = swept.lost ++ e.children },
    )
    else (
      some (spawned e.request.spawn),
      record swept { live = swept.live ++ e.children; forked = swept.forked ++ e.children },
    )

-- The requests, until the connection closes or an exception leaves the loop.
unfoldable pub serve_requests : List Arrival → Image → Image
unfolding handle_request
serve_requests [] im = im
serve_requests (e ∷ es) im =
    let rest = serve_requests es (handle_request e im).1 in
    elim (handle_request e im).0 [ none ↦ (handle_request e im).1 | some reply ↦ rest ]

-- However the loop ends, every worker of the list is waited for.
unfoldable pub reap_rest : Image → Image
reap_rest im = record im { reaped = im.reaped ++ im.live }

unfoldable pub serve_pool_persistent : List Arrival → Image
unfolding serve_requests reap_rest
serve_pool_persistent es = reap_rest (serve_requests es new_image)
