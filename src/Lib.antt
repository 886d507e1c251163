-- ===== src/Lib.antt =====
-- Formal model of the lock-free and wait-free data structures of golang-design/lockfree.
--
-- Goroutines share memory through atomic loads, stores and compare-and-swaps. A concurrent structure
-- is modelled a shared access at a time: a record for its memory, a data type for where a goroutine
-- stands with its live locals, a function for its next access, and a schedule, the list of the
-- goroutines in the order of their accesses. Theorems speak of every schedule. Memory is sequentially
-- consistent, as Go's sync/atomic is; what the garbage collector reclaims is never reached again.
--
-- - Base: numbers with wrap-around, lists by position, families with one value changed, comparison
--   functions (common.go).
-- - Arithmetic (arithmetic.go): AddFloat64 over one word. float64, its sum and the functions of package
--   math that read and write its bits are the parameter Floats. Linearizable is about what the calls
--   add, Result about what they return, Progress about calls that retry.
-- - Lf.Stack (lf/stack.go, lf/node.go): Treiber's stack, for any number of goroutines. Lifo is what an
--   access does to the elements, Inv says what holds of the nodes and of each goroutine's locals, Keep
--   and Refine that every access keeps it; Linearizable has the calls with their arguments and what they
--   return, Progress is about calls that retry. A node's value is read with the compare-and-swap that
--   takes it off the stack; it was set before the node was linked.
-- - Linear (interfaces.go): what it means that a machine whose goroutines share a memory behaves as a
--   sequential object whose calls take effect one at a time. Spec has the runs of such an object, in
--   which a call may also see a state that it leaves as it is and answer so later; Simulate is the
--   proof obligation for one access and what it gives for schedules.
-- - Lf.Queue (lf/queue.go): the queue of Michael and Scott. Order says in which order its nodes were
--   linked and what each goroutine's locals mean, Links that this survives the others' accesses,
--   Stores, Linking, Enqueue and Dequeue that each access keeps it, Refine puts them together.
-- - Lf.List (lf/list.go): the ordered list of Harris and Michael. Memory has the nodes with their
--   marked links, Access the accesses. Each pair that a link points to is a number here, so that a
--   compare-and-swap compares pairs as the source compares their addresses. Order and Paths speak of
--   keys and of what links lead to, Inv says what holds of the nodes and of each goroutine's locals,
--   Sought what a goroutine knows that looks for a key, Stable and Stays that the others' knowledge
--   survives; Stores, Insert, Mark and Unlink are the kinds of store, Reads what is learnt on the way,
--   Search and Calls the accesses, Refine puts them together.
--   The abstract object is the set of the keys that are present: of the values nothing is stated, as
--   a Set of a key that a Del removes at once may be lost.
-- - Lf.HashMap (lf/hashmap.go): a family of the lists of Lf.List, by bucket. A goroutine's access is
--   one of the list of its key's bucket. Buckets says how an operation on the keys of one bucket is one
--   on all keys, Routes that a call is started in its key's bucket, Refine lifts the lists' theorem.
--   The hash is the caller's.
-- - Lf.SplitHashMap (lf/splithashmap.go): soRegular, soDummy, parentBucket, the bucket of a hash and
--   the growth of Set, with bits.Reverse32 and bits.Len64 as recursions on the number of bits; Order
--   has the lemmas on reversed bits, Sentinels and Size the theorems on them. Memory has the nodes of
--   Lf.List with split-order keys and the pointers of the buckets, where node 1 is the nil pointer at the
--   end of the list, Access the accesses. A call carries what it is about to do once it has its bucket,
--   and the pending calls of initBucket are a list of buckets. Keys says which keys the nodes stand for,
--   Inv what holds of the table and of each goroutine's locals, Reads what is learnt on the way, Changes,
--   Stays, Jobs and Others that the others' knowledge survives; Stores and Links are the kinds of store,
--   Search, Steps, Inserts and Accesses the accesses of search and listInsert, Buckets those of bucket and
--   initBucket, Calls, Gets and Deletes the rest of Set, Get and Del; Refine puts them together. The
--   abstract object is the set of the keys, as for Lf.List. The hash is the caller's. Segments has
--   bucketPtr as a machine of its own, with the segments that it makes, and Slots is about the
--   pointers that it returns; Memory has one array of pointers in place of the segments.
-- - Search (search.go): BinarySearch. Its loop runs on fuel, of which the length and one is enough.
-- - Wf.RingBuffer (wf/ringbuffer.go): Put and Get of one producer and one consumer with uint64 cursors
--   that wrap at 2 ^ 64; Capacity has NewRingBuffer and nextPowerOfTwo, whose loop runs on fuel. Fifo
--   is the abstract buffer; Window and Slots say which slots hold its elements, Inv is the invariant,
--   Produce and Consume keep it, Refine puts them together.
-- - Wf.Avl (wf/deque.go: treeNode, height, mk, rotateRight, rotateLeft, rebalance): the persistent
--   balanced tree. `none` is the dereference of a nil child. Wf.DequeTree has the deque's operations
--   on it, Wf.MapTree those of wf/map.go, whose nodes hold a key with a value; their abstract versions
--   are in Wf.DequeTree.Sequence and Wf.MapTree.SortedList.
-- - Wf.Universal (wf/stack.go): the universal construction that wf/stack.go, wf/deque.go and wf/map.go
--   each have a copy of, over any sequential object. Access has the accesses of Handle, maxFrontier,
--   apply, publish and advanceAnchor. History says what holds between two accesses of the order of the
--   linked operations; Stores, Consensus, Keep and Linking show that each access keeps it, Stable that
--   the others' knowledge survives, Linearizable and Results what follows for whole schedules and for
--   a call. Spec has an object that stands for an abstract one, and what the callers see of a schedule:
--   the calls that start and what they return; Kinds says which access starts or ends a call, and Refine
--   joins the calls with the order of the linked operations.
-- - Wf.Stack, Wf.Deque, Wf.Map: the objects of the three structures. A pop's or lookup's
--   (value, ok) is an option.
--
-- A nil dereference, an index out of range and the panic of Handle are values or places of their own.
-- The sequence numbers and cursors of Wf.Universal are int64 in the source and natural numbers here:
-- they count operations, and do not reach 2 ^ 63. Two reads of `seq` that the loop of advanceAnchor
-- makes one behind the other are one access: the first is of a node that is linked, and never changes
-- again. Constructors that panic for maxHandles < 1 are taken with at least one handle.
--
-- Not modelled: Range of lf/list.go, wf/queue.go and the other structures of lf/ (elimination, skip
-- list, deque), the padding of the ring buffer, the test drivers of internal/conformtest, and how long
-- a goroutine that others delay takes.
pub mod Arithmetic
pub mod Base
pub mod Linear
pub mod Search
pub mod Lf
pub mod Wf
