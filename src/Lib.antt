-- ===== src/Lib.antt =====
-- ndn-repo: a named-data repository (crates/ndn-repo) and the coordination of a cluster of them
-- (crates/ndn-repo-cluster).
--
-- The cluster. Each node holds a replica of the coordination state and folds the gossip of the
-- group into it: heartbeats, jobs, claims and releases. From its replica alone it decides what to
-- claim, what to release and which shard of an erasure-coded object to hold, so everything rests on
-- the decisions being functions of the content that the replicas share.
--   Cluster/Coord        crates/ndn-repo-cluster/src/coord.rs: the records of the state, the
--                        `observe_*` operations, each a function from the state to the state.
--   Cluster/Coord/Queries  its queries, from `is_live` to `jobs_to_release`.
--   Cluster/Coord/...    what holds of them: Ranking (the order of the nodes), View (what two
--                        replicas share), Agreement, Claims, Releases, Duties, Shards, Folding and
--                        Convergence.
--   Cluster/Msg          crates/ndn-repo-cluster/src/msg.rs: the gossiped messages, their encoder
--                        and decoder. `MsgType` holds the module `t` of the type codes.
--   Cluster/Node         crates/ndn-repo-cluster/src/node.rs: `ClusterNode`, `tick`, and `run` as a
--                        step on each event of its `select!`; what it sends on its channels is the
--                        list of its actions. Ticks, Gossip and Replication hold its lemmas.
--   Cluster/Object       crates/ndn-repo-cluster/src/erasure.rs: an object as shards under a manifest.
--                        Reading holds `reconstruct` and the readings by name; Manifest and Received
--                        the wire form, written and read; Segments, Encoding, Coded, Recover and
--                        Fetching lead from the cut of an object to its return from fetched shards.
-- The repository.
--   Repo/Cmd             crates/ndn-repo/src/tlv.rs: commands and replies, and their codec.
--   Repo/Engine          crates/ndn-repo/src/repo.rs: the engine: groups, stored packets and pending
--                        fetches, and what each command does to them. View says what a repository
--                        promises, without its data structures; Steps runs commands in sequence.
--   Repo/Ingest          crates/ndn-repo/src/ingest.rs: the loop that ingests a group. Acks has what it
--                        acknowledges.
--   Repo/Service         crates/ndn-repo/src/service.rs: the service around the engine. Demux has
--                        `dispatch` and `run`; Tasks and Settling account for the tasks, Groups for the
--                        groups that the engine has joined, Answers for the replies to commands.
--   Held                 crates/ndn-repo/src/held.rs: the erasure-coded store of packets held for
--                        others. Shards has the records of a shard, Stripes the store, Scan its scans,
--                        Holder the `HolderStore` around it, Text the text of an `Erasure` and the check
--                        of the erasure record. Segments, Encoding, Rebuild and Losses lead from the
--                        cut of a wire to its return after losses, Repair to the stripes mended; Contract,
--                        Halves and Calls compare the stores with a map.
-- The daemon.
--   Daemon               crates/ndn-repo/src/bin/ndn-repo.rs: the loop over the arguments and those of
--                        the repository; Flags has the flags. Daemon/Custody is the mode `hold`: its
--                        arguments and the refusal of the own namespace. Consent says which holders
--                        start. Words, here and there, spells arguments out.
-- Shared.
--   Wire                 what the codecs have: the non-negative integer of NDN, the loops over the
--                        fields of a value, UTF-8, numbers of a fixed width, slices.
--   Collections          `HashMap` as an association list, whose order stands for the order of
--                        iteration; `BTreeSet` as an ascending list; lists without
--                        repetition; `sort_by` as a stable insertion sort.
--   Extern               what the repository calls and does not contain, as interfaces with laws:
--                        `f64` (Float), `ndn_tlv` and the codec of `ndn_packet::Name` (Tlv), the
--                        `DataStore`, the Data and the Interest packet (Store), the components of
--                        names (Names), `SvSync` (Sync), the codec of `ndn_coding` and the digest of
--                        `sha2` (Coding). Concrete and Copies have an instance of each, for the tests.
--   Base                 the shared names, list lemmas, Boolean tests and the interface of `Ord`.
--
-- A name is a type with lawful equality and order, a byte a number, a `Bytes` a list of them. The
-- u16, u32, u64 and usize of the code are numbers: saturating operations and casts are written out
-- (`min`, `% 65536`, `% 2 ^ 64`), and the bounds that a theorem needs are among its hypotheses. The
-- loops over TLVs run on fuel, as much as the value has bytes: each round reads at least one.
--
-- What runs concurrently. A `select!` loop is a fold over the events that it takes, in any order; what a
-- loop sends, spawns or cancels is the list of its actions. The fetches that run at once are their
-- answers, and the calls into the network are functions of a world that they pass on.
--
-- Not modelled: the asynchronous runtime, the network and the clock (`now_ns` is an argument), and
-- the engines of the data store, of the Reed-Solomon codec and of the validator, which are other
-- crates; the files and directories of a store, the bridge to the fjall engine, and what
-- the command line starts once its arguments are read.
pub mod Base
pub mod Collections
pub mod Extern
pub mod Wire
pub mod Repo
pub mod Held
pub mod Cluster
pub mod Daemon
