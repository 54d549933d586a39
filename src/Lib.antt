-- ===== src/Lib.antt =====
-- A verification library for go-bitcoin, a Bitcoin library and light node in Go.
--
-- The program parses and serializes Bitcoin's data, runs scripts and talks to nodes. Transactions are
-- verified by internal/script, whose engine calls internal/eccmath and internal/encoding; blocks and
-- messages use the same integers, hashes and readers. The modules are named for these parts:
--
--   Base         what the code uses of Go: errors and panics as values (Base.Results), byte slices,
--                readers and integers of encoding/binary (Base.Bytes), math/big (Base.BigInt), masks
--                (Base.Bits), slices as lists over native numbers (Base.Lists)
--   Encoding     internal/encoding/varints.go (ReadVarInt is read_var_int, and so on), the hash
--                compositions (Encoding.Hash), MurmurHash3 and SipHash24 (Encoding.Hash.Murmur, .Sip) and
--                bit fields (Encoding.BitField) of internal/encoding/hash.go, internal/encoding/merkle.go (MerkleRoot in
--                Encoding.Merkle, the tree with PopulateTree in Encoding.Merkle.Tree), and
--                internal/encoding/bitstream.go (Encoding.BitStream), and internal/encoding/base58.go (Encoding.Base58)
--   Eccmath      internal/eccmath: signature.go (Eccmath.Signature), field_elements.go (.FieldElement),
--                elliptic_curve.go (.Point) and secp256k1.go (.Secp256k1)
--   Script       internal/script/script.go and internal/script/scriptengine.go: commands and templates
--                (Script.Command), ParseScript and Serialize (Script.Codec), EncodeNum and DecodeNum
--                (Script.Num), the engine's state and stack (Script.Engine), its opcodes
--                (Script.Engine.Opcode, .CheckSig, .Locktime), the P2SH and witness steps
--                (Script.Engine.Witness) and Execute (Script.Engine.Execute)
--   Transactions internal/transactions/txinputs.go (Transactions.TxIn, .TxOut and .Fetch, with Fetch of
--                fetch.go) and transaction.go: the codec (.Transaction), SigHash (.SigHash), SigHashBIP143
--                with its caches (.SegwitHash, .ScriptCode), Fee (.Fee), VerifyInput and Verify
--                (.Verify), SignInput and SignInputs (.Sign), the coinbase tests (.Coinbase)
--   Block        internal/block/block.go: the header's codec (Block.Header), the compact target, the
--                proof-of-work test and the difficulty adjustment (Block.Target), the version bits and
--                the merkle root (Block.Checks), full blocks and their filter items (Block.FullBlock)
--   Network      internal/network/network.go (Network.Envelope), internal/network/gcs.go (Network.Gcs,
--                with hashToRange and fastReduction in Network.Reduction), the messages of
--                internal/network/compact_filters.go (Network.CompactFilters), of
--                internal/network/compact.go the messages (Network.CompactBlocks, and the request for
--                transactions in Network.GetBlockTxn) and ReconstructBlock (Network.Reconstruction), the
--                merkle block (Network.MerkleBlock), the Bloom filter (Network.BloomFilter), getheaders.go,
--                getdata.go and version.go (Network.Headers, .GetData, .Version), the plain messages
--                (Network.Plain), and internal/mempool (Network.Mempool)
--   Keys         internal/keys/keys.go
--   Address      internal/address: address.go (Address) and bech32.go (Address.Bech32)
--
-- A Go method on a pointer takes the state and returns the new one; the methods of a transaction that
-- fill its caches give their result, an error included, and the transaction (Transactions.Run). Every
-- index of a slice is a natural number: negative ones, which panic, are left out. A `return false` of
-- the engine is the error script_failed, a run-time panic is the result panic. An int64 is its bit
-- pattern below 2^64, a uint32 or uint64 a number with its wrap-around written out. The stacks of the
-- engine are lists with the top in front. A reader is the list of the bytes still to be read.
--
-- Loops over a slice are recursion on the list. ParseScript's loop has one round of fuel more than
-- there are bytes, and each round takes a byte. The loop of Execute has the caller's fuel, since scripts
-- can make it endless. The ones of a Golomb code are counted on one round more than there are bits in
-- the stream, since each round reads one or panics. The loops over an integer's bytes have the integer, or eight rounds, as fuel,
-- which leaves nothing of it. EncodeBase58's loop has the number as fuel, and the inner loop of convertbits
-- the count of its bits.
--
-- SHA-256, SHA-1 and RIPEMD-160 are the record Encoding.Hash.Hashes, with the lengths of their
-- results. Public keys and signature verification are the record Script.Engine.CheckSig.Crypto,
-- whose operations may fail or panic; what signing takes of a private key is the record
-- Transactions.Sign.PrivateKey. The block explorer is an argument (Transactions.Fetch.Explorer), a
-- function of the network and the id, so it answers the same each time. SipHash is an argument of the short ids and of the
-- filters, whatever function it is, where the code passes SipHash24 (Encoding.Hash.Sip). slices.Sort and slices.SortFunc are
-- insertion sorts. The numbers that crypto/rand draws, the clock and what an array holds behind a slice are arguments.
-- A text is the list of its code points. The depth of a merkle tree,
-- which the source computes by floating-point logarithms, is counted in halvings: the two agree on totals below 2^32.
--
-- Not modelled: sockets and goroutines (internal/network/node.go), the other requests of
-- internal/transactions/fetch.go, formatting and logging, main.go, and the lock of the mempool.
pub mod Base
pub mod Encoding
pub mod Eccmath
pub mod Script
pub mod Transactions
pub mod Block
pub mod Network
pub mod Keys
pub mod Address
