-- ===== src/Lib.antt =====
-- Verification of the Proxmox VE Go SDK: the transport and its errors, version gates, task waiting, the
-- node configuration, and the in-memory server that the SDK's own tests talk to.
--
-- A service of the SDK builds a request and hands it to the transport. The transport refreshes the
-- credentials, tries each endpoint several times, classifies what comes back, and replays the request
-- once after an expired ticket. A mutating call answers with the identifier of a task, which the task
-- waiter polls until the task stops. A version gate refuses calls that the server is too old for. The
-- mock server implements the same endpoints over maps in memory.
--
-- Files and the code they model (paths from the repository's root):
--   Base              decidable equality, Go maps as association lists, sorting, byte texts with the
--                     functions of `strings` and `strconv` that the code uses.
--   Pverr             proxmox/pverr/error.go, classify.go: sentinels, `Error`, wrapped errors as the
--                     data type `Err`, `errors.Is` as `is_err`, `Classify`.
--   Version           proxmox/version/capabilities.go, service.go.
--   Tasks             proxmox/tasks/upid.go (Tasks.Upid), service.go (Tasks.Wait).
--   Api.Retry         proxmox/api/retry.go.
--   Api.Connection    proxmox/api/connection.go.
--   Api.Transport     `execute` and `readResponse` of proxmox/api/transport.go.
--   Api.Session       `DoRequest` of the same file, with proxmox/api/credentials.go.
--   Mock              proxmox/mockpve/state.go: the state, requests and answers. Mock.Store has the
--                     seeding methods of server.go and qemu.go, Mock.Server authentication and
--                     handlers.go, Mock.Vm and Mock.Snapshot the handlers of qemu.go, Mock.Routes
--                     which route has which handler, Mock.Container the handlers of lxc.go.
--   Mock.Collection   the five handlers that mockpve writes out for each kind of record it keeps by name.
--   Mock.Ha           proxmox/mockpve/ha.go: rules, resources, replication, arming, datacenter options.
--   Mock.Sdn          proxmox/mockpve/sdn.go: zones, VNets, subnets, fabrics and their nodes, live status.
--   Mock.Access       proxmox/mockpve/access.go: users, groups, roles, the access control list, tokens.
--   Mock.Firewall     proxmox/mockpve/firewall.go: rules, options and IP sets in each scope.
--   Mock.Storage      proxmox/mockpve/storage.go, its upload aside: storages, volumes, ZFS pools.
--   Mock.Cluster      proxmox/mockpve/cluster.go: resources, status, creating and joining a cluster.
--   Mock.Ceph         proxmox/mockpve/ceph.go: pools and disks.
--   Mock.Metrics      proxmox/mockpve/metrics.go.  Mock.Backup  proxmox/mockpve/pbs.go.
--   Nodes             proxmox/nodes/nodeconfig.go, with `DecodeExtra` and the merging of extra keys of
--                     proxmox/internal/svcutil/svcutil.go.
-- The modules below these hold the proofs; those called Tests run the code at concrete inputs.
--
-- How the code is read:
--   * A Go error is a value of `Err`, and `(A, error)` a `Result A` where the first part is the zero
--     value beside an error; where it can be another, as in `Wait`, the pair is written out.
--   * A text is the list of its bytes. `strings.ToLower` and the blanks of `TrimSpace` are those of
--     ASCII. An `int` is an integer; `strconv` accepts those of 64 bits.
--   * Go maps are association lists with one entry for each key; where the code ranges over a map, a
--     theorem says that the order does not matter, or the order of the list is the order of the range.
--   * The network is a function from the number of the exchange and its URL to a reply, so a theorem
--     about the transport holds for every server. What a context's cancellation, the jitter's random
--     draw, the float arithmetic of the growing waits and the JSON decoders give is a parameter too.
--   * A duration is a natural number of nanoseconds, and so is what a backoff makes of one: negative
--     durations, and the overflow of a float64 that is turned back into an int64, are left out.
--   * The clock is read by the number of the exchange in the transport, and once for each request in
--     the mock.
--   * `WaitFor` loops until the condition holds, the context ends or a poll fails. Its model takes fuel,
--     one unit for each poll, and `none` means that the polls did not suffice. The theorems about it
--     assume the poll at which it ends and any fuel beyond that poll's number.
--   * A decoded JSON object is the map of its members, and a member is null, a string or another token.
--     `strconv.ParseFloat` is a parameter, and a float64 stands as its 64 bits.
--   * The retry loop of `execute` recurs on the attempts left, the failover loop on the endpoints left.
--   * A handler of the mock is a function of the request and the state; its checks are a chain that ends
--     at the first refusal. One request is served at a time, so the mutex is not modelled. A value of a
--     guest's config is an int or a string, which is what requests put there.
--
-- Not modelled: websockets, uploads and the spooling of bodies to files (I/O); form encoding and URL
-- parsing (net/url) and JSON (encoding/json), whose results are parameters; logging; the services'
-- request builders; the mock server's uploads and its handlers in acme.go,
-- console.go, nodes.go and nodesadmin.go; the commands under cmd/.
pub mod Base
pub mod Pverr
pub mod Version
pub mod Tasks
pub mod Api
pub mod Mock
pub mod Nodes
