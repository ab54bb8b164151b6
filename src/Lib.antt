-- ===== src/Lib.antt =====
-- A model of the core of System XVI, a service manager: a repository of services (configd), a
-- dependency graph engine (graphd) and a master restarter (restartd). Paths below are from the
-- repository's root. configd keeps the services and sends notes; graphd keeps a vertex for each
-- service, instance and dependency group, and decides by the notes which instances go up or down;
-- restartd keeps a unit for each instance and runs its methods.
--
-- Which file models what:
--   Common      helpers: Boolean tests, lists, strings of bytes, and `Res`, the result of code that can
--               stop at an assert, an abort or a bad access (aborted) or pass a bound (too_deep);
--               `Conv`, the result of code that can also return NULL.
--   S16List     usr/src/lib/s16/hdr/S16/List.h: list_add, list_lpush, list_lpop, list_del, list_find, ...
--   Service     Types: hdr/S16/Service.h. Paths, Copy: usr/src/lib/s16/s16.c (path_equal is
--               S16PathEqual, service_copy is S16ServiceCopy, and so on). Text: S16PathToString and
--               the string conversions of usr/src/lib/s16/db/convert.c.
--   Repository  Notes: hdr/S16/ServiceNotification.h. Lookup: usr/src/lib/s16/db/local.c. Merge and
--               Db: usr/src/agent/configd/db.c, with the three scopes as a record.
--               Convert: the rest of usr/src/lib/s16/db/convert.c (service_to_ucl is
--               s16db_S16Serviceo_ucl, ucl_to_svc is s16db_ucl_to_svc, and so on). Client: the remote
--               calls of usr/src/lib/s16/db/rpc.c.
--   Ucl         what the program relies on of libucl: a record of operations and laws. Fields: an object as
--               the function from its keys to its values.
--   Rpc         usr/src/lib/s16/rpc/rpc.c. Wire: messages as bytes. Server: handle_msg and the replies.
--               Client: the call and its reply. Exchange: a call from end to end.
--               Connections: s16rpc_srv_new and s16rpc_investigate_kevent.
--   Nv          usr/src/lib/s16/newrpc, the second implementation of remote calls, with libnv as an
--               interface. Types: hdr/S16/NVRPC.h. Struct: struct.c. Calls: clnt.c (handle_request is
--               s16r_handle_request, nv_call is S16NVRPCClientCallInternal). RoundTrip, Typed: laws.
--   PBus        usr/src/lib/PBus/PBusObject.c and hdr/PBus/PBus.h: the objects of the message bus
--               (find_receiver_root is PBusFindReceiver_Root). Paths, Receivers: laws.
--   Configd     usr/src/agent/configd/rpc.c (Handlers) and configd.c (Loop). Remote and Delivery have the
--               remote calls answered by the daemon.
--   Graph       usr/src/agent/graphd/graph.c and graphd.h. A vertex is named by its position in the list
--               of vertices, which only grows. Types, Edges, Reach (the check for cycles), Satisfy
--               (is a dependency met?), Setup (installing services), Notify and Down (notes between
--               vertices), Process (handlers and the queue). Shape has what notes never change.
--   Restartd    Timer: usr/src/agent/restartd/timer.c. Units: unit.c and unit.h: States has the types
--               and the small functions, Enter the functions unit_enter_*, Events what a unit is told.
--               Manager: restartd.c and sd_notify.c, the dispatch of events to the units.
--   Tests       the theorems at concrete states.
--
-- Bounds: each recursion along edges, each loop over the queue, the draws of a timer id and the mutual
-- calls of unit_enter_* take a bound and give too_deep when it is passed. A depth above the number of
-- vertices is enough for the check for cycles (Graph/Reach/Ends), and one above the rank of a vertex for
-- the satisfiability logic of acyclic dependencies (Graph/Satisfy/Ends). One above
-- the rank of a vertex among its dependents is enough to pass on that it went down (Graph/Notify/Ends)
-- and to ask whether it can (Graph/Down/Sound). The loop over the queue has no bound of its own in the source; theorems on it
-- hold at every bound. A bound of two more than the length of a path is enough to find the receiver of a
-- message on the bus, if no class lengthens it (PBus/Receivers).
--
-- An exchange of remote calls takes messages that arrive whole, and its theorems take as hypotheses that
-- the parser of libucl reads a message as it was emitted. libucl escapes a string that it is given: only
-- printable ASCII without quotes and backslashes is taken to be read back as it was (Ucl.IsVerbatim).
--
-- Not modelled: asynchronous calls of usr/src/lib/s16/newrpc; the set-up of sockets, the kernel queue
-- itself and logging; the process tracker and fork themselves, which give parameters (the PID of each
-- fork, the numbers of rand, whether the kernel takes a timer); the freeing of memory and the sharing
-- of objects between scopes; the connections and the broker of PBus; the commands.
pub mod Common
pub mod S16List
pub mod Ucl
pub mod Nv
pub mod PBus
pub mod Rpc
pub mod Configd
pub mod Service
pub mod Repository
pub mod Graph
pub mod Restartd
pub mod Tests
