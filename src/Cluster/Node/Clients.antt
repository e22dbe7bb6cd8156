-- ===== src/Cluster/Node/Clients.antt =====
-- `GetNodeClient` of hCluster/NodeComponent.go, whose callers look for a client until there is one, and the getter of
-- `InitLocationServerGetter`. A stretch of code under the lock is one step.
use happy.Base.{
  ℕ, zero, suc, ◌+◌, String, Bool, true, false, Option, none, some, ltb, ◌==◌, string_eq, ◌≡◌,
  if◌then◌else◌,
}
use happy.Base.Maps.{lookup, insert, delete}
use happy.Cluster.Node.{Node}

-- What a round of `GetNodeClient` comes to: a client, the error "init not complete", a pause before the next round, or
-- the caller makes the connection.
pub data Attempt (C : Type 0) : Type 0 where
  returns : C → Attempt C
  gives_up : Attempt C
  waits : Attempt C
  connects : Attempt C

module _ {L C : Type 0} where
  abbrev pub begin_absent : String → Option ℕ → Node L C → Node L C × Attempt C
  begin_absent addr (some count) n =
      if ltb 100 count
      then (n, gives_up)
      else (record n { client_getting = insert n.client_getting addr (count + 1) }, waits)
  begin_absent addr none n =
      (record n { client_getting = insert n.client_getting addr 0 }, connects)

  -- A round of `GetNodeClient` up to its return, its pause or the connection.
  unfoldable pub begin_get : (C → Bool) → String → Node L C → Node L C × Attempt C
  unfolding lookup insert
  begin_get is_closed addr n = elim (lookup n.rpc_client addr) [
    | none ↦ begin_absent addr (lookup n.client_getting addr) n
    | some c ↦
        if is_closed c then begin_absent addr (lookup n.client_getting addr) n else (n, returns c)
  ]

  -- The rounds of one caller while nobody else does anything.
  unfoldable pub retry : (C → Bool) → ℕ → String → Node L C → Node L C × Attempt C
  unfolding begin_get
  retry is_closed zero addr n = (n, waits)
  retry is_closed (suc rounds) addr n = elim ((begin_get is_closed addr n).1) [
    | waits ↦ retry is_closed rounds addr (begin_get is_closed addr n).0
    | returns c ↦ ((begin_get is_closed addr n).0, returns c)
    | gives_up ↦ ((begin_get is_closed addr n).0, gives_up)
    | connects ↦ ((begin_get is_closed addr n).0, connects)
  ]

  -- `ConnectToNode` has given a client or failed; the deferred function deletes the count.
  unfoldable pub end_get : String → Option C → Node L C → Node L C
  unfolding insert delete
  end_get addr none n = record n { client_getting = delete n.client_getting addr }
  end_get addr (some c) n = record n {
    rpc_client = insert n.rpc_client addr c;
    client_getting = delete n.client_getting addr;
  }

  -- `clientCallback` on "close".
  unfoldable pub client_callback : String → Node L C → Node L C
  unfolding delete
  client_callback addr n = record n { rpc_client = delete n.rpc_client addr }

-- A node, and how many of its goroutines are connecting to each address.
pub record Net (L C : Type 0) : Type 0 where
  pub node : Node L C
  pub connecting : String → ℕ

abbrev pub change : (String → ℕ) → String → ℕ → String → ℕ
change f addr k a = if addr == a then k else f a

abbrev pub connects_one : {C : Type 0} → Attempt C → String → (String → ℕ) → String → ℕ
connects_one connects addr f = change f addr (f addr + 1)
connects_one (returns c) addr f = f
connects_one gives_up addr f = f
connects_one waits addr f = f

module _ {L C : Type 0} where
  -- Any goroutine asks, with a look at the clients now or earlier (`asks_late`), one that connects gets its connection or
  -- fails, and connections close. `ConnectToNode` stores a client as soon as it has it.
  pub data Step (is_closed : C → Bool) : Net L C → Net L C → Type 0 where
    asks :
        (t : Net L C) (addr : String)
        → Step is_closed t (record {
          node = (begin_get is_closed addr t.node).0;
          connecting = connects_one (begin_get is_closed addr t.node).1 addr t.connecting;
        })
    asks_late :
        (t : Net L C) (addr : String)
        → Step is_closed t (record {
          node = (begin_absent addr (lookup t.node.client_getting addr) t.node).0;
          connecting =
              connects_one
                (begin_absent addr (lookup t.node.client_getting addr) t.node).1
                addr
                t.connecting;
        })
    stores :
        (t : Net L C) (addr : String) (c : C)
        → Step is_closed t
            (record t { node = record (t.node) { rpc_client = insert t.node.rpc_client addr c } })
    connected :
        (t : Net L C) (addr : String) (c : Option C) (k : ℕ)
        → t.connecting addr ≡ suc k
        → Step is_closed t
            (record { node = end_get addr c t.node; connecting = change t.connecting addr k })
    closes :
        (t : Net L C) (addr : String)
        → Step is_closed t (record t { node = client_callback addr t.node })

  pub data Steps (is_closed : C → Bool) (s : Net L C) : Net L C → Type 0 where
    here : Steps is_closed s s
    next : {t u : Net L C} → Steps is_closed s t → Step is_closed t u → Steps is_closed s u

-- The getter of location servers: the flag, how many goroutines have seen it false and have yet to set it, and how many
-- are in the loop.
pub record Getter : Type 0 where
  pub is_getting : Bool
  pub checked : ℕ
  pub running : ℕ

pub data GetterStep : Getter → Getter → Type 0 where
  checks : (g : Getter) → g.is_getting ≡ false → GetterStep g (record g { checked = g.checked + 1 })
  leaves : (g : Getter) → g.is_getting ≡ true → GetterStep g g
  enters :
      (g : Getter) (k : ℕ)
      → g.checked ≡ suc k
      → GetterStep g (record { is_getting = true; checked = k; running = g.running + 1 })
  finishes :
      (g : Getter) (k : ℕ)
      → g.running ≡ suc k
      → GetterStep g (record g { is_getting = false; running = k })

pub data GetterSteps (s : Getter) : Getter → Type 0 where
  start : GetterSteps s s
  later : {t u : Getter} → GetterSteps s t → GetterStep t u → GetterSteps s u
