-- ===== src/Lib.antt =====
-- A verification library for happy, a framework for game servers in Go: nodes of a cluster run components, report
-- to a master, find each other by role and call each other.
--
-- Parts, and the files that model them:
--   HashRing      hCommon/hashring.go, the consistent-hash ring: `build` is the end of every constructor,
--                 `get_node_pos`, `get_node`, `get_nodes` the look-ups, `add_weighted_node` and its kin the changes,
--                 which `changes` of its module Changes runs one after another.
--   TimeWheel     hTimer/timeWheel.go: `after`, `tick` (a round of `run`), `after_global` (`After` of the package).
--                 The RPC client and the actors wait on it.
--   SyncQueue     hCommon/syncQueue.go: one function per method; `step` and `run` take them in any order.
--   ThreadPool    hCommon/threadpool/threadpool.go: `run`, `finish` (the goroutine's deferred function), `wait_returns`.
--   Cluster       package hCluster. Types: the records of MasterService.go. Balancer: the package's three balancers.
--                 Logs: `NodeLogs`. Selector: Selector.go with `GenRandom` of hCommon/utils.go. Master:
--                 MasterComponent.go, whose `do_query` is the selector's and whose log is that of Logs; `operate` runs
--                 an event or a query. Location:
--                 LocationComponent.go, which syncs with the master. Groups: ComponentGroup.go.
--                 NodeGroup: NodeID.go, which reads what a query found.
--                 Node: NodeComponent.go, which asks a location server, then the master; its module Clients is
--                 `GetNodeClient` and the getter of location servers. Child: ChildComponent.go, which reports to the
--                 master.
--   Uuid          hCommon/uuid.go, from which actors get their local part.
--   Rpc           hRpc/client.go: the calls that await a reply, as a step relation. Heartbeat: `StartHeartBeat` and
--                 `Close`, which share the mutex.
--   Actor         hActor/ActorID.go and hActor/ActorIDGroup.go. Proxy: the registry of hActor/ActorProxyComponent.go and
--                 the cache of hActor/ActorServiceCaller.go.
--                 Dispatch: the messages of a synchronous actor, hActor/ActorComponent.go and hActor/ActorMessageInfo.go,
--                 as a step relation.
--   Ecs           package hECS. Systems: the four inner systems and the runtime's frames. Objects: the tree of objects of
--                 object.go, in a store of numbered objects. Components: the iterators and `AddComponent`, which asks
--                 the systems for what its events say. Templates: object_factory.go, which writes and reads trees.
--   Net           package hNet. Pool: gPool.go with the reading loop of websocketHandler.go, as a
--                 step relation. Session: session.go and the header of a message.
--                 Routing: baseApi.go, which finds handlers by the numbers of messages and replies through a session.
--   Gate          hBaseComponent/SelectGateComponent.go and hBaseComponent/DefaultGateComponent.go, which find gates
--                 through Cluster.Node and count sessions.
--   Launcher      hBaseComponent/LauncherComponent.go: what it overrides of the configuration, and the status of a node, which
--                 it reads from Cluster.Master and which a gate sets to close the node, under the configured address;
--                 the node reports under that of `address_from` of Cluster.Child.
--   Iter          hCommon/iter.
--   Base          what they share: tests, lists, maps as association lists, integers, sorting and text.
-- A child module is named for what it proves; the module Examples of a part has its tests.
--
-- State is passed explicitly, and an operation under a lock is one step. A run-time panic is a value: `none`, or the
-- outcome `panics`. A map is an association list with one entry to a key, and its order of iteration that of the
-- entries. Numbers are ℕ, a uint32 has its wrap-around written out, an int that can be negative is ℤ.
--
-- Parameters: the digest md5 (sixteen bytes to a text), the buffer of gopkg.in/eapache/queue.v1 (`Buffers`, a FIFO
-- list), the balancers of github.com/lafikl/liblb (`Balancer`, the set of their hosts), float64 (`Floats`), what random
-- sources and clocks give. gob sets the entries it receives in a map that
-- is there already, and leaves a field that is zero or empty at the sender, as encoding/gob says.
--
-- Bounds and fuel: the ring's loops run on the number of rounds left, which the code's own bounds give; `Iter.drain`
-- runs on fuel, and one more than the number of values is enough. The loops of Ecs along parents and children, its
-- iterators and `retry` of Node take fuel too; `Ends` says that from some fuel on the result is there and the same, for
-- objects that have a root (`Rooted`) or finitely many objects below them (`Finite`). All other recursion is structural.
--
-- Not modelled: hRpc/server.go, which is a copy of the Go library's, and the codecs, the servers of hNet, asynchronous
-- actors and the actors' calls to other nodes, `Initialize` of components, calls whose `Done` is full, configuration,
-- logging, start-up and data bases; of the parts above, the ticker and its Stop, Locker, calls without reply,
-- RemoveComponentsByType, the pages of the gates.
pub mod Base
pub mod HashRing
pub mod TimeWheel
pub mod SyncQueue
pub mod ThreadPool
pub mod Cluster
pub mod Uuid
pub mod Rpc
pub mod Actor
pub mod Iter
pub mod Ecs
pub mod Net
pub mod Gate
pub mod Launcher
