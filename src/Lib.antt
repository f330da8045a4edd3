-- ===== src/Lib.antt =====
-- para/p2p: local-first state that replicas share. This library models the convergence core
-- (crates/noeta-crdt), the group encryption handshake and the node that carries it
-- (crates/noeta-para-p2p-net), and of the extension (crates/noeta-para-p2p) the registry of nodes, the
-- values that go into a CRDT and the synced signals, which exchange CRDT states over a node.
--
-- Crdt models crates/noeta-crdt/src, a module for each source file or type:
--   Crdt/Mergeable  the trait Mergeable of lib.rs with the laws that laws.rs tests
--   Crdt/GCounter, Crdt/PnCounter, Crdt/GSet  the types of lib.rs
--   Crdt/Clock      Dot of clock.rs, with the order that it derives
--   Crdt/Lww        LwwRegister of lww.rs
--   Crdt/OrSet      OrSet of orset.rs
--   Crdt/Value      CrdtValue of value.rs and its order, over two float types with the order of
--                   total_cmp; a list and a map of values are data types of their own
-- Each type is the source's record; each method is a function of the same name that returns a new
-- state. A type that is generic in the source is generic here, over the interface Ord of
-- Common/Order. BTreeMap and BTreeSet are sorted association lists (Common/BTree), and IsValid says
-- that they are in order, as the standard library keeps them. A u64 is a number that saturating_add
-- cuts off at 2 ^ 64 - 1; an i64 is an integer that clamp cuts off. Crdt/OrSet/Edits puts a plain set
-- beside an OrSet, and Crdt/OrSet/Peers any number of replicas that exchange their states, as a step
-- relation; both count the steps, so that no counter reaches the end of u64.
--
-- Net models crates/noeta-para-p2p-net/src, p2p_crypto.rs first:
--   Net/Crypto      what EncryptedGroup calls of CryptoGroups, as an interface; any implementation
--                   will do, also one that fails at any call
--   Net/Spaces      CryptoGroups and SpacesOp, over the manager of p2panda-spaces and its store, as an
--                   instance of that interface; Net/Spaces/Forge has NoetaForge
--   Net/Group       EncryptedGroup and its operations: open (open_group), publish, receive,
--                   add_member, remove_member and welcome_eligible
--   Net/Group/Steps a history of a group: requests of the program and operations off the wire, one
--                   after another, in any order
-- and p2p_node.rs:
--   Net/Config      P2pConfig, and in Config/DataDir the default directory of a node, over the
--                   environment and the platform as parameters
--   Net/Node        P2pNode, its gossip and its subscriptions
--   Net/Node/Network what the node calls of p2panda, as an interface; Network/Recorded puts the
--                   operations that its store has committed beside the state of any network
--   Net/Node/Durable the log behind a synced signal: publish_durable, subscribe_durable, and what
--                   the drain task does with an event (sync_delivers)
--   Net/Node/Identity the key and the credentials of a node with their files, over the machine that it
--                   runs on
--   Net/Node/Groups the encrypted groups of the node (group_open to group_remove), with one manager
--                   for all of them; how it is built and VerifyingKey::from_str are parameters
--
-- Para models crates/noeta-para-p2p/src, of provider.rs:
--   Para/Directory  canonical_dir, over the two calls of the file system as a parameter (FileSystem);
--                   IsPosix is what their documentation says of them while nothing changes the files
--   Para/Provider   NodeConfig and the registry: backend_in with what it calls, over the start of a
--                   node and the new broker as a parameter (Transport); Provider/Host has the calls that
--                   ask the host (with_node, with_p2p)
-- of values.rs, over the native values of the host (Para/Native):
--   Para/Values     from_native and to_out
-- of autodoc.rs and crdt.rs, over what an extension is built on (Setting: the floats, Automerge, the
-- boxes of other modules and the messages that native functions share):
--   Para/AutoDoc    AutoDoc, over the crate automerge
--   Para/Crdt       the boxes (ExternValue) and the checks of arguments
--   Para/Crdt/Methods, Para/Crdt/Document  crdt_dispatch and the method dispatch of each type
--   Para/Crdt/Signatures, Para/Crdt/Registry  the method tables, and the types that lib.rs registers
--   Para/Crdt/Conforms what it means that arguments fit a table and that an answer does
--   Para/Crdt/Equality eq_value, over the equality that the types of crates/noeta-crdt derive
--                   (Crdt/Equality)
--   Para/Crdt/Display display, over the text of a CrdtValue (Crdt/Value/Display)
--   Para/Crdt/Dyn   merge_dyn, to_bytes_dyn and from_bytes_like, over the codec postcard (Postcard)
-- and synced.rs:
--   Para/Ctx        the host's NativeCtx with the reactive graph, the nodes behind with_node, and
--                   the dispatch of the CRDT types, each as an interface
--   Para/Synced     merge_slots, slot_to_bytes and merge_peer_bytes
--   Para/Synced/Methods, Para/Synced/Create  the methods of a SyncedSignal (merge, sync, ...) and
--                   create_synced_signal
--   Para/Synced/Lattice a CRDT type behind the box of a signal, as an interface
--   Para/Synced/Laws what the theorems ask of the three interfaces
-- and of p2p.rs and node.rs:
--   Para/Dispatch   p2p_ctx_dispatch and node_ctx_method_dispatch, over the registry and the nodes as an
--                   interface (Peers)
--
-- A method with `&mut self` that returns a Result is a function from the state to a result and the
-- state that it leaves, failed or not (Common/Io), and `?` is the bind of that monad. A HashSet is
-- its membership test (Common/HashSet), a HashMap its lookup (Common/HashMap), and a path the list
-- of its components, the last one first (Common/FilePath). Net/Crypto/Traced puts a record of the
-- managing calls beside the state of any implementation, so that theorems can speak of the calls
-- that are made.
--
-- Loops are recursion on lists, but for two that poll a channel until it is empty: `drain`, the
-- loop of `sync`, and `poll_topic`, the loop of `group_poll`, run on fuel, which is the number of
-- polls; `none` says that it ran out, and one more than the messages that wait is enough. A Mutex
-- guards a field within one call, so it has no model, and a task that drains a stream is a step for
-- each item that it forwards.
--
-- The sequence number of an operation is a number without an end, in a topic's log (append_operation)
-- and in that of the groups (next_place); the source adds 1 to a u64, so the two part after 2 ^ 64
-- operations of one log.
--
-- Not modelled: the text of a node and of a signal (display), the start of the components of
-- p2panda, and of the extension crate the tables that do not concern the CRDT types. Log messages
-- and Debug output have no model, and of an error only its message is kept.
pub mod Common
pub mod Crdt
pub mod Net
pub mod Para
