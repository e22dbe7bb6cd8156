-- ===== src/Rpc.antt =====
-- The calls of `TcpClient` in hRpc/client.go. A call is a number; `completed` lists the calls handed to their
-- `Done` channel, with their error. `Err` stands for error, with the two that the client names. `send` holds
-- `reqMutex` throughout and takes `mutex` twice, so it is two steps, with `sending` between them; a response may
-- come between. What is encoded and decoded is not modelled. A call's `Done` channel has room, as `Go` asks of its caller:
-- `done` without room drops the call with a log.
pub mod Complete
pub mod Heartbeat
mod Examples
use happy.Base.{
  ℕ, zero, suc, ◌+◌, ◌≡◌, Bool, true, false, ◌||◌, Option, none, some, List, [], ◌∷◌, ◌++◌, nat_eq,
  if◌then◌else◌, contains,
}
use happy.Base.Maps.{Map, lookup, insert, delete}

pub record Errors : Type 1 where
  pub Err : Type 0
  pub shutdown : Err
  pub unexpected_eof : Err

pub record Client (E : Type 0) : Type 0 where
  pub seq : ℕ
  pub pending : Map ℕ ℕ
  pub closing : Bool
  pub shutdown : Bool
  pub sending : Option ℕ
  pub issued : List ℕ
  pub completed : List (ℕ × Option E)

abbrev pub new_client : {E : Type 0} → Client E
new_client = record {
  seq = 0;
  pending = [];
  closing = false;
  shutdown = false;
  sending = none;
  issued = [];
  completed = [];
}

module _ {E : Type 0} where
  -- `call.Error = err` and `call.done()`, where `Done` has room.
  abbrev pub done : ℕ → Option E → Client E → Client E
  done call err c = record c { completed = (call, err) ∷ c.completed }

  abbrev pub is_closed : Client E → Bool
  is_closed c = c.closing || c.shutdown

  -- The first part of `send`, in which the call gets its number or is refused.
  unfoldable pub register : ℕ → E → Client E → Client E
  unfolding insert
  register call refused c =
      if c.shutdown || c.closing
      then record c { issued = call ∷ c.issued; completed = (call, some refused) ∷ c.completed }
      else record c {
        seq = c.seq + 1;
        pending = insert c.pending c.seq call;
        sending = some c.seq;
        issued = call ∷ c.issued;
      }

  -- `call := client.pending[seq]; delete(client.pending, seq)`, and what the call is told, if it is still there.
  unfoldable pub settle : ℕ → Option E → Client E → Client E
  unfolding lookup delete
  settle seq err c = elim (lookup c.pending seq) [
    | none ↦ record c { pending = delete c.pending seq }
    | some call ↦ record c { pending = delete c.pending seq; completed = (call, err) ∷ c.completed }
  ]

  -- The end of `send`: `err` is what `WriteRequest` returns.
  unfoldable pub written : ℕ → Option E → Client E → Client E
  unfolding settle
  written seq none c = record c { sending = none }
  written seq (some err) c = record (settle seq (some err) c) { sending = none }

  -- A round of the loop of `input`: the error of the response or of its body, if any. An unread body ends the
  -- loop, which is the step after it.
  unfoldable pub receive : ℕ → Option E → Client E → Client E
  unfolding settle
  receive seq err c = settle seq err c

  -- The end of `input`, over the calls that are pending; these stay in the map.
  unfoldable pub fail_all : Map ℕ ℕ → Option E → List (ℕ × Option E) → List (ℕ × Option E)
  fail_all [] err cs = cs
  fail_all ((seq, call) ∷ ps) err cs = fail_all ps err ((call, err) ∷ cs)

  unfoldable pub terminate : Option E → Client E → Client E
  unfolding fail_all
  terminate err c = record c { shutdown = true; completed = fail_all c.pending err c.completed }

  -- `Close`.
  unfoldable pub close : Client E → Client E
  close c = record c { closing = true }

  -- The steps of the goroutines that send, the one that reads, and a caller of `Close`.
  pub data Step : Client E → Client E → Type 0 where
    sends :
        {c : Client E} (call : ℕ) (refused : E)
        → c.sending ≡ none
        → contains c.issued call ≡ false
        → Step c (register call refused c)
    writes :
        {c : Client E} (seq : ℕ) (err : Option E)
        → c.sending ≡ some seq
        → Step c (written seq err c)
    receives :
        {c : Client E} (seq : ℕ) (err : Option E) → c.shutdown ≡ false → Step c (receive seq err c)
    stops :
        {c : Client E} (err : Option E)
        → c.sending ≡ none
        → c.shutdown ≡ false
        → Step c (terminate err c)
    closes : {c : Client E} → Step c (close c)

  pub data Steps : Client E → Client E → Type 0 where
    start : {c : Client E} → Steps c c
    snoc : {c d e : Client E} → Steps c d → Step d e → Steps c e
