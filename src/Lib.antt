-- ===== src/Lib.antt =====
-- go-flows: the flow table of the flow exporter, its records and the sorting of their exports, with the
-- packet pool and the flow keys before it, the numbers of its features and the compiler of feature
-- specifications.
--
-- A packet from a source (packet/sources.go) is held in a buffer of the pool (packet/multibuffer.go),
-- gets a key (packet/key.go) and becomes an Event with a key and a time. The table (flows/table.go)
-- finds the flow of the key, runs its timers (flows/timer.go), hands it the event (flows/flow.go,
-- packet/flow.go), or makes a new flow. A flow ends by a timer, by its own records, by a closed TCP connection, by the
-- end of a window or by EOF; its records (flows/record.go) are then exported: each gets an export record in
-- a ring of its table (flows/export.go), and the lists of all tables are sorted and merged
-- (flows/exporter.go). What the features of a record are, and which feature is called for which, a
-- compiler finds from a specification (flows/ast.go). Several tables share the packets by the hash of the key (packet/table.go).
--
-- Files:
--   Shared and its children: names of the libraries, tests, lists by native indices, and Go maps
--     from flow keys as association lists (Keys).
--   Timer (flows/timer.go): a table of timers is a list of FuncEntry; add_timer, has_timer,
--     remove_timer and expire are the methods of funcEntries. What a callback does is an argument.
--     Timer/Update and Timer/Expire hold the laws.
--   EventContext (flows/context.go, flows/sort.go): the context that is passed to records.
--   FlowTable/State: the state of a table and its flows. Flows are objects on a heap, and the slots
--     of the table hold pointers. `fault` records a Go panic.
--   FlowTable/Flow (flows/flow.go), FlowTable/Tcp (packet/flow.go), FlowTable/Table
--     (flows/table.go): the operations, each a function from tables to tables.
--   FlowTable/Invariant, Evolution, Closing, Steps, Runs: the index of a table stays well formed.
--   FlowTable/Timeliness: no timer is missed. FlowTable/Handshake: when a TCP flow closes.
--   Number (flows/number.go): the values that features exchange, by their Go type (Value), UpConvert
--     and FixType (Convert), UpConvertTypes (Types). Number/Carried and Number/Agreement hold the
--     laws. An integer is its 64-bit pattern; `none` is a panic; floats and the widths of the time
--     types are the parameter Formats.
--   FlowKey (packet/key.go, packet/hash.go): DynamicKeySelector.Key over key functions (Selector), the
--     key functions of the five-tuple (Fields), the order of bytes (Order), and the two directions of
--     a flow (Reverse). A scratch array is the list of the bytes in use.
--   PacketPool (packet/multibuffer.go, packet/buffer.go): batches (Batch), the pool of packets with
--     its free count and the reference counts (Pool), and the laws of the free count (Accounting).
--     Operations run one after the other; the waiting of Pop for free packets is left out.
--   PacketTable (packet/table.go): event of the parallel tables, which distributes a batch by the hash of
--     the key, and the loop of a worker over its table (Parallel); Distribution and Workers hold the
--     laws. The goroutines are left out: a queue is the list of what was sent.
--   PacketEngine (packet/sources.go, packet/filters.go, packet/labels.go): the collections as lists
--     (Collections), and how exhausted sources and labels are skipped (Exhausted). One source, filter
--     or label is a parameter.
--   CallGraph (flows/ast.go, flows/featuretype.go, flows/featureregistry.go): fragments and how they
--     print (Ast), makeAST (Parse), expand (Expand), build with getFeatures (Build), expandSelect and lower (Lower),
--     simplify (Simplify), the order of the phases (Compile) and convert (Convert). The registry is a
--     parameter, and so are the composite features. Printing and Meaning say which fragments print the same; Machine runs a list of
--     fragments over registers; Sharing, Values, Binding, Names and Optimised follow the value of a tree
--     through the phases, Ranks and Termination the fuel of expand, ArgTypes, Typing and WellTyped its type, Wiring the tables of convert, and
--     Accepted which specifications makeAST takes, Within and Faults what build panics at and simplify refuses. The
--     fragment beside a Go error is a nil interface, `none`, and a method of it panics. A fragment is a
--     value: the attributes that a phase writes into a tree that it does not use any more are left out.
--   MultiEvent (flows/feature.go): SetArguments, CheckAll and Reset of features with several arguments
--     (Events); Pairs says when they are ready.
--   ExportOrder (flows/export.go): the keys of export records and the comparisons for sorting.
--   ExportList (flows/export.go): makeExportHead, unlink and insert by pointers; ExportList/Ring holds
--     the laws of rings.
--   FlowRecord (flows/record.go): the state (State), the export record with pushExport of
--     flows/table.go (Exports), start, stop and Export (Control), Event with its filters (Event), and
--     recordList (Lists). The features of a record are the parameter Features. A restart of an
--     event takes one unit of fuel; Restarts says when two are enough. Same, Ready, Safety and Filters
--     follow the export record.
--   ExportSort (flows/exporter.go): findNaturalSublists and mergeSublist by pointers (Links,
--     Sublists) and sortWorker for one list (Worker). Chains, Runs, Cuts, Natural, Left, Merging,
--     Clearing, Sublist, Sorted, Rounds, Single, Batch and Expiry hold the laws. A record is a number, nil is `none`, and the
--     order is a parameter `less`. The loops take fuel, since pointers may form a circle; for a list
--     without one, any fuel above twice its length is enough.
--   ExportMerge (flows/exporter.go): mergeTreeQueues with lists for linked lists (Queues), and
--     mergeTreeWorker as a step relation (Worker), in which `select` may take any case. Loops, Kept,
--     Merged and Ends hold the laws. The loops of mergeOne take as fuel the number of records in
--     both queues, of which every round takes one.
--
-- The records of a flow and the lists of export records are the interface Records of
-- FlowTable/State: any implementation of its operations will do, and no law is asked of it. Records
-- do not call back into their flow or its table, as no feature of the repository does. Times are
-- 64-bit and wrap; the counters of statistics wrap too. Memory is unbounded. Logging, locks and the
-- statistics of buffers are left out. But for the export files, FlowRecord, expand (Termination
-- says how much is enough) and the digits of a register (one more than its number) no fuel is used: every
-- loop runs over a list. The tree of merge workers and the goroutines at the end of the pipeline, the
-- construction of records (AppendRecord of flows/record.go), the flush functions of the table, the
-- ipfix types of fragments (resolve of flows/ast.go), and the features themselves (modules/) are not modelled.
pub mod CallGraph
pub mod EventContext
pub mod ExportList
pub mod ExportMerge
pub mod ExportOrder
pub mod ExportSort
pub mod FlowKey
pub mod FlowRecord
pub mod FlowTable
pub mod MultiEvent
pub mod Number
pub mod PacketEngine
pub mod PacketPool
pub mod PacketTable
pub mod Shared
pub mod Timer
