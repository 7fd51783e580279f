-- ===== src/Lib.antt =====
-- Model and proofs of bbolt, an embedded key/value store on one memory-mapped file of pages
-- (package bbolt at the root of the repository).
--
-- The file is an array of pages. A page has a header (id, flags, count, overflow) and a body: a
-- branch or a leaf of a B+tree, one of two meta pages, or the freelist, which lists the pages
-- that no tree uses. A write transaction takes pages from the freelist for what it writes and
-- gives the pages that it replaces back, as pending until no reader needs them.
--
-- The files and the code they model:
--   Prelude         lists, maps, sorting, sort.Search and the outcomes of Go functions
--   Page            page.go: header, flags, fastCheck, typ; Page/Element the packed leaf element;
--                   Page/Merge the union of sorted id lists
--   Freelist        freelist.go and freelist_hmap.go. Freelist/State has the structs (freelist,
--                   txPending) and reindex; Freelist/Array and Freelist/Hashmap the two back
--                   ends, the function fields of the struct being the record Backend;
--                   Freelist/Laws says what a back end promises and Freelist/Backends proves it
--                   for both; Freelist/Ops has the shared operations (count, size, copyall,
--                   free, release, releaseRange, rollback, freed, read, write, reload,
--                   noSyncReload); Freelist/FreePages is freePages of db.go, over the ids of the
--                   open read transactions
--   Node            node.go: size, sizeLessThan, put, del, split, splitTwo and splitIndex, on the
--                   inodes of one node; Node/Keys has bytes.Compare as an order
--   Cursor          cursor.go, over a look-up of pages and nodes (Bucket.pageNode): all methods but
--                   Delete and node. Cursor/Tree is the B+tree that the pages and nodes hold;
--                   Cursor/Places, Cursor/Descent and Cursor/Walk follow first and next over it,
--                   Cursor/Moves and Cursor/Skip prevN, Cursor/Routes, Cursor/Seek and Cursor/Find
--                   the way down to a key
--   Bucket          bucket.go: pageNode, node, Get, Put, TestPut, Delete, TestDelete, the
--                   sequence, and Delete of a cursor; Bucket/ForEach
--                   has ForEach and ForEachBucket, Bucket/Inline inlineable; node.read of node.go
--                   and Cursor.node stand in Bucket too
--   Check           tx_check.go: recursivelyCheckPages and verifyKeyOrder, on pages as a cursor
--                   reads them; Check/Bounds and Check/Sound have what silence of the check means
--   Stats           the counters TxStats of tx.go, Stats of db.go and BucketStats of bucket.go
--   Transaction     the life of a transaction: init, allocate, commitFreelist, writeMeta,
--                   nonPhysicalRollback and close of tx.go, beginTx, beginRWTx, removeTx, allocate
--                   and the meta pages of init of db.go. Transaction/Steps is the step relation of
--                   readers beside one writer, with the versions of the file that they see;
--                   Transaction/World, Needs, Undo, Restored and Newest are the parts of its
--                   invariant, Take, Give, Rollback, Keeps, Preserved, Taken, Writes and Ends keep
--                   it, Apart and Isolation draw the conclusions;
--                   Region is about the place of the freelist, HighLoad about the limit on
--                   pages, and Write is the loop that writes the dirty pages
--   Database        db.go: the meta pages (validate, meta, ReadTxID, meta.write), mmapSize, and in
--                   Database/Batch the run of a batch, over any state, with a round for each call
--                   and one more, since each round but the last takes a call out; the begin,
--                   rollback and commit that Update calls are arguments, each with an effect
--                   on the state and, but for rollback, an error
--
-- How the code is represented. Numbers are natural numbers; arithmetic of uint64 is written with
-- its remainder (add64, sub64). A function returns an Outcome: ok, panic (an explicit panic, an
-- assertion, an index out of range), or out_of_fuel. Loops that are not over a list run on fuel:
-- merge_loop gets the sum of both lengths plus one, since each round consumes an element, and
-- release_loop one more than the ids, since each round passes or drops one; the theorems about them
-- conclude a result, so that the fuel is enough. A Go map is an association list, and its order is the
-- order in which range visits it; no theorem assumes one. Sets are maps to the unit type. The maps
-- that newFreelist leaves nil are empty maps. A page body is seen as the 64-bit words that the
-- code casts it to, and a cast past its end is a panic.
--
-- The validity of a freelist (Freelist/Ops/Valid): no id is held twice, by the free ids or the
-- pending lists, every pending id has the transaction that allocated it, ids lie between 2 and
-- 2 ^ 64 - 2, and the cache knows exactly the ids that are held.
--
-- The loop of split gets one round more than the node has inodes, since each round takes two away.
-- The threshold of split, which the code computes from a floating-point fill percentage, is an
-- argument of the model, and so is the high water mark that put reads from the transaction.
--
-- The hash of a meta page, which the code takes of raw memory, is an argument, and so is the largest
-- map size, which depends on the platform.
--
-- The value of a leaf entry is a list of bytes: a nil value that Put has stored and that is not on a page
-- yet reads as an empty one, where the code gives nil.
--
-- A cursor reads a page as the list of as many elements as its count says. Its way down takes at most
-- `depth` rounds, which is enough when the tree is no higher; next passes at most one empty leaf in a
-- round, so that one round more than there are leaves is enough; ForEach takes a round for each item
-- and one more. That the pages and nodes of a bucket are there is the condition Holds of a tree.
--
-- The channel of errors of the check is a list, and an error has no message text.
--
-- An open reader is the id of its transaction, and removeTx takes out the first with that id. The locks
-- are not part of the state: a step of the relation is a whole call, and a writer begins when there is
-- none. What spill, rebalance and the deletion of a bucket do to pages is a sequence of steps that
-- allocate a block or free a page in use; mmap and the file are always there, and mmap gives a new size
-- or an error. A rollback in the relation is the one of a writer that has allocated nothing, which is when
-- the user calls it. The relation stops before the ids of transactions and pages wrap around. commitFreelist
-- takes its page size as a number of words that divides the region. write gets for a page one round more
-- than its size divided by that of a chunk, since each round but the last writes a whole chunk.
--
-- Not modelled: the links between nodes, the fill percentage, spill and rebalance; the creation and
-- deletion of buckets inside buckets and their cache; the rollback that reads the freelist again after
-- an error of the file, the page pool, growing the file, Update, View, the timer and the channels of Batch, and
-- Open; compaction; unsafe memory access, files, locks and memory maps, the platform files, the command
-- line tool under cmd and the packages under internal.
pub mod Prelude
pub mod Page
pub mod Freelist
pub mod Bucket
pub mod Check
pub mod Cursor
pub mod Database
pub mod Node
pub mod Stats
pub mod Transaction
