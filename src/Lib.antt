-- ===== src/Lib.antt =====
-- Open Compute Fabric: a fleet-management control plane. Its subsystems are crates that share the
-- contracts of `ocf-core`; the controller of `ocf-api` holds one instance of each and calls them in
-- turn. These files model the subsystems that decide: who may do what, where traffic goes, how many
-- replicas run, which address a workload gets, which nodes are alive, and what a replica holds.
--
-- Parts, from the repository's root:
--   crates/ocf-core/src: Core. `Core.Scope` is `Scope` with `contains`; `Core.Error` is `Error`,
--     `code` and `Result`; `Core.Metadata`, `Core.Registry`, `Core.Quantity` and `Core.Health` are the
--     structs and enums of those names.
--   crates/ocf-authz/src: Authz. `Authz.Permission` and `Authz.Model` are the data; `Authz.Engine`
--     is `RbacEngine`, with the four locked maps as fields.
--   crates/ocf-loadbalancer/src/{model,routing,controller}.rs: LoadBalancer. `select_backend` takes
--     the process-wide round-robin cursor as an argument and returns it; `LoadBalancerController` is
--     the map of load balancers, and `resolve` looks one up, drops the backends that its placement
--     does not admit, and selects one.
--   crates/ocf-runtime/src/autoscaler.rs: Runtime.Autoscaler. workload.rs, provider.rs and migration.rs
--     there: Runtime.Workload, Runtime.Provider (the contract of a backend) and Runtime.Migration.
--   crates/ocf-network/src/ipam.rs: Network.Ipam.
--   crates/ocf-network/src/{model,controller}.rs: Network.Model and Network.Controller, the store of
--     the overlay. A backend is a value of `NetworkBackend` that acts on a world of its own; the calls
--     of the allocators go to Network.Ipam.
--   crates/ocf-fabric/src/membership.rs and node.rs: Fabric. `Fabric.Membership` is `Membership`, and
--     `tick` the failure detector.
--   crates/ocf-fabric/src/routing.rs: Fabric.RouteGraph, the graph of nodes that can hold a tunnel and
--     Dijkstra's search on it.
--   crates/ocf-fabric/src/wire.rs: Fabric.Wire, the frames and the streams of sealed records between two
--     nodes; the sessions and the codec, which are libraries, are the records `Session` and `Zstd`.
--   crates/ocf-consensus/src/storage.rs and types.rs: Consensus. `Consensus.Storage` has the struct
--     `Inner`, which both handles share, and the log; `Consensus.StateMachine` applies entries into a
--     store given by the contract of crates/ocf-store/src/lib.rs, the record `StateStore` of Store. Its
--     laws are for collections without U+001F, by which the stores join a collection and a key;
--     Store.Memory is crates/ocf-store/src/memory.rs, and Store.Memory.Laws shows that it keeps them.
--   crates/ocf-api/src/authz.rs: Api.Access, the gate before every handler, and Api.Base64. It calls
--     the authenticators in the registry of Core and `authorize` of Authz.
--   crates/ocf-api/src/fleet.rs: Api.Fleet, which chooses machines of Topology for workloads, moves the
--     workloads of a machine that Fabric declared dead by the backends of Runtime, and finds the
--     backends of a load balancer. Core.Effect has its calls: they act on a world outside, may fail,
--     and end at the first failure with the world as it is then.
--   crates/ocf-api/src/controller.rs: Api.WireGuard, the peers that a node programs on each of the three
--     planes, where what a private node routes through a relay was found by Fabric.RouteGraph; and
--     Api.Attachments, which gives workloads the addresses of Network.Controller's subnets.
--   crates/ocf-topology/src: Topology. `Topology.Store` is `InMemoryTopology`, `Topology.Service` builds
--     the tree from it.
--   Prelude holds what they share: Boolean tests, lists, association lists, sets, texts, UTF-8,
--     integers and floats.
--
-- Conventions. A method that locks and changes a map returns the new state with its result. A
-- `HashMap` is an association list in the order of first insertion, which stands for its
-- unspecified order. A fresh random id, the current time, and how a value prints are arguments.
-- `f64` is the record `F64`: its non-NaN values have ranks, and comparisons read them. A `u32` is a
-- number with its wrap-around written out. The loop of `allocate` runs on fuel, one step for each
-- address from the first host to the last, as many as it can visit. The rounds of the search of a
-- route, and the walk back along it, run on fuel of one more than there are nodes: each round visits
-- one node more, and a walk meets none twice. The loop of `recv_stream` has fuel for each byte that
-- is left on the socket, of which each round takes two. The socket is the bytes that the
-- peer sends before it closes; waiting for a peer that stays silent is not modelled. Every other loop is structural.
--
-- The types of the Raft library are the record `Raft`, and the encoding of a snapshot is `Codec`.
-- A `BTreeMap` whose order is read is a list in ascending order of its keys.
--
-- Not modelled: code that runs external commands or talks to sockets, databases and cryptographic
-- libraries (the runtime and network providers, the fabric transport, the HTTP handlers, host
-- monitoring, disks, inventory, packages), and the web interface.
pub mod Prelude
pub mod Core
pub mod Authz
pub mod LoadBalancer
pub mod Runtime
pub mod Network
pub mod Fabric
pub mod Store
pub mod Consensus
pub mod Api
pub mod Topology
