-- ===== src/Lib.antt =====
-- A model of bitcoinstats, a reader of the Bitcoin block chain in C++, and what holds of it.
--
-- The program reads block files, takes the blocks apart into transactions, inputs and outputs,
-- finds the keys that an output pays to, and makes addresses of them. The parts modelled here:
--
--   Sha256          src/SHA256.cpp. `Compress` has the macros and `SHA256Guts` (sha256_guts), the
--                   root the context, `sha256_update`, `sha256_finalize` and `computeSHA256`.
--                   `Reference` is the hash of whole messages; `Streaming` to `Correct` prove that
--                   the context computes it. `Fips` has the functions and constants of the
--                   standard, `Choices` and `Standard` prove that the code has the same.
--   Ripemd160       src/RIPEMD160.cpp: `compress`, `MDinit`, `MDfinish`, `computeRIPEMD160`, and
--                   the hash of whole messages in `Reference`.
--   Base58          src/Base58.cpp: the operations on big numbers; `Code` has both codecs;
--                   `Value`, `Product` and `Power` say what the operations do to the number.
--   BitcoinAddress  src/BitcoinAddress.cpp, with the layout of addresses in `Base58Check`.
--   BlockChain      src/BlockChain.cpp and include/BlockChain.h: `Stream` has the reading functions
--                   of `BlockImpl`, `Script` the part of `readOutput` that classifies a script,
--                   `Data` the limits and the records, `Transaction` `readInput`, `readOutput`,
--                   `readTransaction`, `processBlockData` and `processTransactionData`. `Format`
--                   describes the wire format; `Reads`, `Inputs`, `Outputs`, `Ending`, `Decode`,
--                   `Sequence` and `Blocks` read it back, layer by layer. `Pointers` and
--                   `Addresses` are about accesses to memory.
--   BlockFiles      src/BlockChain.cpp, `BlockChainImpl`: the root has the data of the scan and
--                   the reads from a file, `Scan` has `openBlock`, `readBlockHeader` and
--                   `scanBlockChain`. `Frames`, `Resuming` and `Skipping` are about the blocks in a
--                   file and what stands between them, `Scanning` is about the end of the scan, and
--                   `Found` about a block that is found, and `Headers`, `Ends` and `Collecting` about
--                   a scan of a whole file.
--   HeaderChain     src/BlockChain.cpp: `buildBlockChain`. `Gather` makes one walk of its loops,
--                   `Ranks` is about their end, `Linked` and `Links` about the chain.
--   BlockReader     src/BlockChain.cpp: the root has `processTransactions`, `Reading` has
--                   `readBlock`, `processSingleTransaction` and `readSingleTransaction`. `Known`,
--                   `Insertion` and `Ledgers` are about the set of transactions, `Following` about
--                   the hash of the next block, `Lookup` and `Loading` about what is read from the
--                   files.
--   BlockIndex      include/CBlockIndex.h; `Varint128` has its integers and their writer,
--                   `Canonical` the way back, `Record` the format of a record.
--   HeapSort        include/HeapSort.h; `Arrays` has orders and swaps, `Sift` and `Loop` the heap
--                   order through shiftRight, `Heapify` and `Sorted` the two loops of the sort.
--   RandPool        include/rand.h; `Swaps` and `Draws` say what the pool gives.
--   Crc32           src/CRC32.cpp; `Bitwise` has the checksum bit by bit.
--   Varint          include/varint.h
--   Common          lists as arrays, machine words and bytes, bit operations and Boolean tests.
--
-- The scan of the files fills the set of headers, `buildBlockChain` makes the chain of it, and
-- `readBlock` reads a block of the chain, decodes it and enters its transactions in the set.
-- An output is read by `readOutput`, which calls the address functions, which call the two hashes
-- and, for the ASCII form, Base58; `readTransaction` hashes what it has read. The definitions are
-- composed in the same way.
--
-- State is passed explicitly. `BlockImpl` is the record `Reader` under a state monad whose
-- outcomes are a result, a call of exit(1), and a fault: a failed assertion or an access outside
-- the memory. The parameter `ndebug` turns the assertions off. Where an address function may stop
-- at the first byte of a key, the model asks for all the bytes that it may read. Numbers are
-- natural numbers with the wrap-around of each width written out (u8 to u64).
--
-- Loops are structural recursion on the number of rounds left. Some run on fuel. The loops of
-- `buildBlockChain` have one step more than there are headers; where the headers have no cycle no
-- header is met twice. shiftRight has one round more than there are elements; the root moves to a
-- higher index in every round. It has no result either where an index overflows an int32_t. The
-- writer of the integers of the block index has ten bytes and one, enough for 64 bits. The client's
-- loop `scan_all` gets its fuel as an argument. `borrow_loop` has 257 rounds: the index is a byte,
-- and after 256 rounds it meets a byte that is not below the carry. `encode_loop` has two rounds
-- for each byte and two more: every round divides by 58, and 58 * 58 > 256.
--
-- The files on disk are a parameter, the contents by number; a FILE is its contents and its place.
-- Sets of headers and transactions are lists that are searched by hash.
--
-- Not modelled: the report of ASCII texts that `readBlock` can write, `printBlock`, the parsing of
-- command lines, the console commands, the key value database and what is built from it, number
-- formatting, the platform layer and logging; LevelDB, Snappy and RapidJSON are libraries of others.
-- The ASCII form and the type's name that `readOutput` stores for messages are left out.

pub mod Common
pub mod Crc32
pub mod Varint
pub mod Sha256
pub mod Ripemd160
pub mod Base58
pub mod BitcoinAddress
pub mod BlockChain
pub mod BlockIndex
pub mod BlockFiles
pub mod HeaderChain
pub mod BlockReader
pub mod HeapSort
pub mod RandPool
