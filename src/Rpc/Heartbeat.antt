-- ===== src/Rpc/Heartbeat.antt =====
-- The heartbeat of hRpc/client.go and `Close`, which share the client's mutex and the unbuffered channel closeHeartbeat.
-- The mutex is free, or a `Close` holds it while it sends on the channel (`sender`). `results` records the calls of the
-- heartbeat, the last one first: true is an answer of 1.
pub mod Counting
pub mod Locking
mod Examples
use happy.Base.{ℕ, zero, suc, ◌+◌, ◌≡◌, Bool, true, false, ◌||◌, List, [], ◌∷◌, ltb, if◌then◌else◌}

-- Where the goroutine of `StartHeartBeat` is: in the select; before the test `IsClosed` of its call; waiting for the
-- answer; before its own `Close`; in it, sending; or it has returned.
pub data Stage : Type 0 where
  selecting : Stage
  calling : Stage
  waiting : Stage
  giving_up : Stage
  closing_itself : Stage
  returned : Stage

pub record Heart : Type 0 where
  pub stage : Stage
  pub ping_count : ℕ
  pub closing : Bool
  pub shutdown : Bool
  pub sender : Bool
  pub results : List Bool

-- `NewClientWithConn`; in debug mode the heartbeat returns at once.
unfoldable pub new_heart : Bool → Heart
new_heart debug_mode = record {
  stage = if debug_mode then returned else selecting;
  ping_count = 0;
  closing = false;
  shutdown = false;
  sender = false;
  results = [];
}

-- The end of a round of the loop, for an answer or none.
unfoldable pub counted : Bool → Heart → Heart
counted true h = record h { stage = selecting; ping_count = 0; results = true ∷ h.results }
counted false h = record h {
  stage = if ltb 3 (h.ping_count + 1) then giving_up else selecting;
  ping_count = h.ping_count + 1;
  results = false ∷ h.results;
}

-- `Close` of the heartbeat itself, once it has the mutex.
unfoldable pub close_itself : Heart → Heart
close_itself h =
    if h.closing
    then record h { stage = returned }
    else record h { stage = closing_itself; closing = true; sender = true }

-- `Close` of another goroutine takes the mutex (`closes`); its send is received (`receives`). The mutex is needed by the
-- test of a call, to register it, and by the reader, which takes the answers and sets `shutdown` when it stops (`shuts`);
-- a call can time out without it. `calling` lasts until the call is registered.
pub data Step : Heart → Heart → Type 0 where
  ticks : (h : Heart) → h.stage ≡ selecting → Step h (record h { stage = calling })
  receives :
      (h : Heart)
      → h.stage ≡ selecting
      → h.sender ≡ true
      → Step h (record h { stage = returned; sender = false })
  refused :
      (h : Heart)
      → h.stage ≡ calling
      → h.sender ≡ false
      → h.closing || h.shutdown ≡ true
      → Step h (counted false h)
  calls :
      (h : Heart)
      → h.stage ≡ calling
      → h.sender ≡ false
      → h.closing || h.shutdown ≡ false
      → Step h (record h { stage = waiting })
  answered : (h : Heart) (ok : Bool) → h.stage ≡ waiting → h.sender ≡ false → Step h (counted ok h)
  times_out : (h : Heart) → h.stage ≡ waiting → Step h (counted false h)
  gives_up : (h : Heart) → h.stage ≡ giving_up → h.sender ≡ false → Step h (close_itself h)
  closes :
      (h : Heart)
      → h.sender ≡ false
      → h.closing ≡ false
      → Step h (record h { closing = true; sender = true })
  shuts : (h : Heart) → h.sender ≡ false → Step h (record h { shutdown = true })

pub data Steps (h : Heart) : Heart → Type 0 where
  here : Steps h h
  next : {i j : Heart} → Steps h i → Step i j → Steps h j
