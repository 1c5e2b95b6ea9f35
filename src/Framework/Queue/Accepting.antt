-- ===== src/Framework/Queue/Accepting.antt =====
-- What the loop over `accept` does with the connections that it is given.
use eframework.Base.{
  ℕ, ◌-◌, Bool, true, false, not, ◌&&◌, ◌||◌, List, [], ◌∷◌, ◌++◌, length, ltb, ◌≡◌,
}
use eframework.Base.Int.{ℤ, pos, negsuc, less}
use eframework.Structure.Memory.{Outcome, done, fault, unfinished}
use eframework.Structure.BufferIo.{Answer}
use eframework.Framework.Queue.{Accepted, connection, no_more, Queued, set_result}

-- The new connections of a script, in the order of their acceptance.
abbrev pub sockets : List Accepted → List ℕ
sockets [] = []
sockets (no_more n ∷ script) = sockets script
sockets (connection fd nonblock set_flags granted ∷ script) = fd ∷ sockets script

-- Whether a connection can be put into the queue.
abbrev pub can_queue : Bool → Answer → Bool → (free_items : ℕ) → Bool
can_queue nonblock set_flags granted free_items =
    (nonblock || not (less (set_result set_flags) (pos 0))) && (ltb 0 free_items || granted)

-- Connections that can all be put into the queue, one behind the other.
abbrev pub CanQueue : List Accepted → (free_items : ℕ) → Type 0
CanQueue [] free_items = Unit
CanQueue (no_more n ∷ script) free_items = ⊥
CanQueue (connection fd nonblock set_flags granted ∷ script) free_items =
    (can_queue nonblock set_flags granted free_items ≡ true) × CanQueue script (free_items - 1)

-- What ends the loop, with its result: no more connections, or one that cannot be put into the queue.
abbrev pub Stops : Accepted → (free_items : ℕ) → (retval : ℤ) → Type 0
Stops (no_more n) free_items retval = retval ≡ negsuc n
Stops (connection fd nonblock set_flags granted) free_items retval =
    (can_queue nonblock set_flags granted free_items ≡ false) × (less retval (pos 0) ≡ true)

-- A run of the loop over `script`: the connections of `front` are queued in their order behind the others,
-- `stop` is the answer that ends the loop, and those of `rest` are not accepted.
pub record Took (script : List Accepted) (queue : List ℕ) (free_items : ℕ) (q : Queued)
    : Type 0 where
  pub front : List Accepted
  pub stop : Accepted
  pub rest : List Accepted
  pub script_is : script ≡ front ++ (stop ∷ rest)
  pub queued : CanQueue front free_items
  pub stopped : Stops stop (free_items - length front) q.retval
  pub queue_is : q.queue ≡ queue ++ sockets front
  pub items : q.free_items ≡ free_items - length front

abbrev pub Takes : List Accepted → List ℕ → ℕ → Outcome Queued → Type 0
Takes script queue free_items (done q) = Took script queue free_items q
Takes script queue free_items fault = ⊥
Takes script queue free_items unfinished = ⊥
