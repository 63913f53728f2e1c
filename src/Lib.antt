-- ===== src/Lib.antt =====
-- Verification of the C and C++ parts of the repository, by component.
--
-- RoCommLink (document/laboratory/cpp/RoCommLink) is a packet link for robots. `RoCommLink.Packet`
-- has the packet types, `RoCommLink.Serializer` the function `PacketSerializer::serialize` with the
-- checksum, `RoCommLink.Parser` the state machine `RoCommLinkParser::parse_byte` with one function
-- per state, `RoCommLink.Tracker` the class `CommandTracker`, `RoCommLink.Router` the routing table
-- of `RoCommLink`, `RoCommLink.Dispatcher` the class `RoCommLinkDispatcher`, and `RoCommLink.Link`
-- the service `RoCommLink`, which joins them: bytes of a transport go through the parser of their
-- connection, and completed packets to the tracker, the dispatcher or back to a transport.
-- `RoCommLink.TaskQueue` has the class `TaskQueue`, whose workers interleave, as a relation between
-- its states.
--
-- Compress is about document/laboratory/cpp/Solution/Compress. `Compress.Qoi` has
-- `compressToQoiRuntime` of QOI.cpp and `decompressQoiToDisplay` of DecompessQOI.cpp, as functions on
-- lists of bytes and pixels; its children treat the fields of the tags (`Fields`), one chunk
-- (`Chunk`), the loops (`Loop`), the round trip (`RoundTrip`), the buffers (`Buffer`), the fuel of the
-- decoder (`Fuel`) and arbitrary bytes before the end marker (`Corrupt`). `Compress.Huffman` has the codes, the packing and the decompression of
-- Huffman_String.cpp, and `Compress.Huffman.Build` the rest of the constructor of
-- `CompileTimeHuffman`; `Paths`, `Writing`, `Coding`, `RoundTrip` and `Files` follow a text through
-- the packing and back, `Search` and `Merge` treat the loop that joins the nodes, and `Counts`,
-- `Forest`, `Joined`, `Flattened`, `Leading`, `Codes` and `Book` how each character comes to its code.
-- `Compress.Rle` has `compressStbImageRuntime` of RLE.cpp, `Rle.Runs` treats its reads and its runs,
-- and `Rle.Expand` has an independent description of its payload.
--
-- FriendlyCache is about document/laboratory/cpp/FriendlyCache/PoolAllocator.h. `FriendlyCache.Pool`
-- has the free list of `PoolAllocator`, `FriendlyCache.LruCache` the class `MemoryFriendlyLRUCache`
-- with its list, its map and a pool for each. `Recency` describes the cache by the list of its
-- entries alone, `Valid` ties the parts of the state together, `Nodes`, `Refine`, `Grow` and `Run`
-- compare the two descriptions, and `Latest` says which entries puts leave.
--
-- OrderBook is about document/laboratory/cpp/Solution/HFT/main.cpp. `OrderBook` has the pool of
-- orders, the levels of a price and the operations `limit_order` and `cancel_order`. A pointer to an
-- order is the index of its node, a doubly linked list the list of its nodes and a map of limits a
-- list in the order of the map; `allocate` is the match on the free list in `rest_on`, and the list
-- of a filled order's level begins with it, so that `Limit::remove` takes the first. The size of the
-- pool is a parameter. `Match`, `Sweep`, `Rest` and `Book` compare the matching and the booking with
-- the queues of the orders alone, `Mapped`, `Cancel` and `Exchange` treat the map of the orders and
-- cancellations, `Crossing` the prices of the two sides, `Volume` the quantities that are
-- traded, `Totals`, `Levels` and `Ledger` the volume that a level keeps, and `Run` any requests to a
-- new book.
--
-- Dungeon is about document/laboratory/c/collection/dungeon/dungeon.c, a text adventure: `Dungeon` has
-- its actions, `Dungeon.Rooms` the start and `Dungeon.Play` the loop of `main`; `Valid`, `Safety` and
-- `Turns` keep its state well formed, and `Fight` is about fights and about the end of the input.
--
-- Sfd is about linux/common/ipc/sfd. `Sfd.Registry` has the table of reference counts of
-- sfd_static_registry.h and `Sfd.Shared` the class `SharedFileDescriptor` of smart_file_descriptor.h,
-- whose objects share the table. `Registry.Direct` treats descriptors below the number of slots,
-- `Registry.Collision` two descriptors with one slot; `Counting`, `Closing`, `Steps` and `Run` follow
-- each operation on the objects, and `Program` sequences of them. `Sfd.Unique` is the class
-- `UniqueFileDescriptor`, and `Unique.Owned` says where its descriptors are.
--
-- Numbers are native natural numbers; a uint8_t, uint16_t or size_t has its wrap-around written out
-- where the code can reach it. Time is an argument. `none` stands for what has no result: undefined
-- behaviour, exceptions and a loop whose fuel is not enough. The loop of the QOI decoder has as fuel the number of bytes, of which every
-- round takes one at least. In Huffman_String.cpp the joins have the number of the leaves, of which
-- every round loses one, `find_path` the number of nodes of the tree, and the decompression the number
-- of bits, of which every round takes one; the queue holds 256 nodes. Both loops of RLE.cpp have one more
-- than the number of pixels, of which every round takes one at least. Each other loop is a recursion on
-- a list or on a count.
--
-- Not modelled: sockets, threads and locks (each handler, and each look of a worker at its queue, is
-- one step), console output, and the code that only calls libraries. A socket's answers are parameters.
pub mod Prelude
pub mod RoCommLink
pub mod Compress
pub mod FriendlyCache
pub mod Dungeon
pub mod Sfd
pub mod OrderBook
