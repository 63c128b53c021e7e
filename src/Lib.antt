-- ===== src/Lib.antt =====
-- dnx reduces programs as interaction nets. This library is about its core: the nets and their
-- reduction, in crates/dnx-core, the protocol by which peers exchange reduced nets, in
-- crates/dnx-dist, the messages of the daemon, in crates/dnx-daemon and crates/dnx-store, the proof
-- kernel, in crates/dnx-proof, and the elaboration of terms into nets, in crates/dnx-elab.
--
-- * Error (crates/dnx-core/src/error.rs): the errors, and the outcome of code that may fail: a value,
--   an error or a panic. An index out of bounds is a panic.
-- * LoPath (crates/dnx-core/src/lopath.rs): the path by which redexes are ordered. LoPath/Pack has the
--   arithmetic of packed turns, LoPath/Turns what a path holds after a walk, LoPath/Order and
--   LoPath/Prefix the comparison and the prefix test.
-- * Port (crates/dnx-core/src/port.rs): a port packed into 32 bits: index, kind, parity of generation.
-- * Slot (crates/dnx-core/src/slot.rs): an agent, its tag with its flags, and its three wires.
-- * Arena (crates/dnx-core/src/arena.rs): slots, the stack of free ones, the list of live ones and the
--   map from a live slot to its position. Arena/Live has the invariant, Arena/Alloc the allocation.
-- * Net (crates/dnx-core/src/net.rs, class.rs): the arena, the two frontiers of redexes (Net/Ordered,
--   in the order of their paths), the roots and the flags. A method that takes `&mut self` is an
--   action, from the net before to the result and the net after. Net/Safe says which nets are
--   safe: the arena is valid and every wire of every slot leads to a slot; Net/Keeps and Net/Chain
--   have what the operations keep.
-- * Rules (crates/dnx-core/src/reduce/rules.rs): the interaction rules R2 to R7. Rules/Safe and
--   Rules/Grow run them in a safe net, Rules/Symmetric turns their pair round.
-- * Canon (crates/dnx-core/src/reduce/canon.rs): the rules of canonicalization: erasure, merge,
--   decay, and replication past an application. Canon/Mark and Canon/Sweep are the two halves of erasure,
--   which Canon/Sure follows for its results.
-- * Reduce (crates/dnx-core/src/reduce/mod.rs): the rules of each class of nets, the dispatch of an
--   active pair, staleness, and the two loops of `normalize`.
-- * Primitive (crates/dnx-core/src/prim.rs): the tables of primitive values and functions, their
--   agents, and the application of a function, whose code may panic. Primitive/Safe has their allocation in a safe net,
--   Primitive/Apply the application.
-- * Ast (crates/dnx-ast/src/lib.rs): the terms that the front ends hand over.
-- * Elab (crates/dnx-elab/src/pass2.rs): the net of a term; Elab/Steps and Elab/Safe run it in
--   a safe net.
--   Elab/Pass0 (pass0.rs) puts definitions in their place: Refs and Order below it have the names
--   that a term refers to and the search for cycles, Ends the whole. Elab/Pass1 (pass1.rs) checks that
--   names are used once: Uses below it counts them, Linear has the verdict. Elab/Alpha (alpha.rs)
--   renames binders: Distinct below it has the new names, Nameless the terms without names. dnx-lang
--   runs pass0, alpha_rename, pass1 and the elaboration in this order.
-- * CanonHash (crates/dnx-core/src/canonical_hash.rs): the canonical bytes of a net. CanonHash/Peers
--   has the ports of the walk, CanonHash/Iso compares two nets with the same agents in other slots,
--   CanonHash/Count, CanonHash/Total and CanonHash/Emits follow the walk and the records to their end.
-- * Blob (crates/dnx-core/src/blob.rs): the canonical bytes read back into a net. Blob/Reads and
--   Blob/Safe take any bytes.
-- * Codec (what the binary codecs share): a cursor on a body, and numbers as bytes.
-- * Wire (crates/dnx-dist/src/wire.rs): messages, frames and both sides of a connection.
-- * Store (crates/dnx-store/src/path.rs): the paths of the store, printed and parsed.
-- * Daemon (crates/dnx-daemon/src/proto.rs, lib.rs): requests, responses and frames. Daemon/Parts
--   has the decoders, Daemon/RoundTrip the messages. Daemon/Server (server.rs) is the state of the
--   daemon with its answers and the loop on connections, Daemon/Memo its memo of builds, and
--   Daemon/Answers what the clients hear.
-- * Kernel (crates/dnx-proof/src): the checker of a predicative type theory. Kernel/Term (tm.rs,
--   universe.rs), Kernel/Env (inductive.rs, env.rs), Kernel/Recursor (recursor.rs), Kernel/Reduce
--   (driver.rs, conv.rs) and Kernel/Check (infer.rs) are the code, Kernel/Admit (env.rs,
--   positivity.rs) the admission of declarations. Kernel/Rules has reduction and typing as rules, in
--   inductive families, on the terms of the code with their shift and substitution, and with the types
--   that the code has for constants, constructors and recursors. Kernel/Rules/Sorts has what becomes
--   of sorts under them. Kernel/Sound leads from the code to the rules; below Kernel/Admit is what
--   admission keeps, and in Kernel/Admit/Negative a field that is not positive.
-- * Tests (of this library only): concrete inputs.
--
-- The rules act on the net only by the actions of Net, those by the operations of Arena; the frontiers
-- are filled by `connect`, and emptied by the two loops of Reduce.
--
-- Numbers are natural numbers. A `u128` shift keeps its wrap-around, a generation is counted modulo
-- 2^32, and `checked_add` is a test of the sum. Levels and deltas are whole numbers with the tests of
-- the source at their bounds. A `HashMap` of positions is a function; a `BTreeMap` is an ordered list.
--
-- Fuel: `normalize` and `finalize_canonical` take the number of turns for their loops, since a net
-- may have no normal form; the theorems are on single turns. The queue of `c1_mark_sweep` has a unit for
-- each slot, which is enough, since a slot enters the queue when it is marked. The walk of `serialize`
-- has a unit for each port that is popped: four for each slot, since a slot pushes three, and one for
-- the root. `pass0` has one more than the number of definitions for a chain of references, and as many
-- levels of definitions inside definitions as there are names without a cycle. Reduction in the kernel
-- need not end on an ill-typed term, so its functions take fuel; a run that is
-- out of fuel is no outcome, neither a value nor an error.
--
-- Not modelled: the values of primitives with their builtins, and what reduces them by demand; the
-- parallel and GPU reductions, GPU encodings, the readback of nets, the interner of canonical bytes,
-- the front ends, traces, sockets and files. `debug_assert!` and the overflow checks of a debug build
-- are left out, so that the theorems are on release builds. What `from_utf8` accepts, and the cache
-- of a peer, are parameters of Wire, and what `from_utf8` and `from_utf8_lossy` do, of Daemon. The
-- type of primitive values is a parameter of Primitive, the printing of fresh names of Elab, the hash
-- of bytes of CanonHash. The net on which the kernel compares closed pure terms is a parameter of
-- Kernel, which may fail, and of which the theorems suppose that it equates convertible terms only.
pub mod Prelude
pub mod Error
pub mod LoPath
pub mod Port
pub mod Slot
pub mod Arena
pub mod Net
pub mod Rules
pub mod Primitive
pub mod Ast
pub mod Elab
pub mod Blob
pub mod CanonHash
pub mod Canon
pub mod Reduce
pub mod Codec
pub mod Wire
pub mod Store
pub mod Daemon
pub mod Kernel
pub mod Tests
