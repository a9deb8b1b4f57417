-- ===== src/Lib.antt =====
-- A verification library of the market data feed handler: its wire protocol, its order books, the
-- queues between its threads, its order management, its FIX gateway, and the matching engine of its
-- simulator.
--
-- How the parts interact. A sender encodes messages (include/qf/protocol/encoder.hpp) and packs them
-- into datagrams (src/protocol/batcher.cpp). The network stage puts a datagram into the first
-- single-producer single-consumer queue (include/qf/core/spsc_queue.hpp). The parser stage
-- (src/handler/parser_stage.cpp) takes it out, walks its frames (src/protocol/frame_parser.cpp),
-- validates each message (src/protocol/validator.cpp), decodes it and passes it on. The book manager
-- (src/core/book_manager.cpp) routes it to the order book of its instrument (src/core/order_book.cpp),
-- which keeps live orders by id beside two maps of price levels. The order manager
-- (src/oms/order_manager.cpp) drives the orders of a strategy through their states
-- (src/oms/state_machine) and journals every transition. Orders leave over FIX: the gateway
-- (include/qf/protocol/fix/fix_gateway.hpp) gives an order to its session (fix_session.hpp), which stamps
-- and serializes it (fix_message.hpp), and cuts the answers out of the TCP stream.
--
-- Files.
--   Base               the libraries' names passed on; `Tests` (tests on numbers), `Lists`, `Words`
--                      (wrap-around), `Table` (unordered_map), `Ordered` (map in key order).
--   Core.Order         include/qf/core/order.hpp, price_level.hpp, order_store.hpp.
--   Core.Book          OrderBook: `add_order`, `cancel_order`, `execute_order`, `replace_order` and the
--                      queries. `Levels`, `Sides` and `Sums` are what one call does to one map, to both
--                      maps and to the sums of the store; `Effects` unfolds the calls by branch;
--                      `Consistency`, `Runs`, `Top` and `Laws` prove what the book promises; `Range`
--                      bounds its sums.
--   Core.PipelineTypes include/qf/core/pipeline_types.hpp.
--   Core.Manager       BookManager::process and the rest of the class; `Routing`, `Integrity`.
--   Core.SpscQueue     the queue run by one thread, `Fifo`; `Threads` has the steps of two threads and
--                      `Threads.Invariant` and `Threads.Safety` what holds in every interleaving.
--   Core.RingBuffer    include/qf/core/ring_buffer.hpp with its three policies; `Threads` has the steps of
--                      any number of threads, `Threads.Invariant`, `Attempts`, `Producers`,
--                      `Commits`, `Consumers` and `Safety` what holds for several producers and
--                      one consumer, and `Races` interleavings that go wrong.
--   Protocol.Wire      integers in memory, little-endian.
--   Protocol.Messages, Protocol.Encoder, Protocol.Validator, Protocol.Batcher, Protocol.FrameParser,
--   Protocol.Sequence  the files of these names under include/qf/protocol and src/protocol.
--   Protocol.Fix       include/qf/protocol/fix: `Text` and `Decimal` stand for std::string_view,
--                      std::to_string and std::stoi; `Tag`, `MsgType`, `ExecType` and `OrdStatus` for
--                      fix_fields.hpp; `Message` for fix_message.hpp, with `Message.Fields`, `RoundTrip`
--                      and `Checks` on parsing and `Message.Framing` on the framing helper; `Session`
--                      and `Session.Handlers` for fix_session.hpp, with `Header`, `Delivery`, `Logon`,
--                      `Handshake` and `ResetLogon` on what two sessions do to each other; `Names`,
--                      `Gateway`, `Gateway.Orders` and `Stream` for fix_gateway.hpp, with
--                      `Stream.Cuts`, `Stream.Reassembly` and `Stream.EndToEnd` on the bytes of a TCP stream.
--   Handler.ParserStage  what the parser stage makes of one packet; `Delivery` is the whole way from the
--                      batcher.
--   Handler.Pipeline   the rounds of src/handler/network_stage.cpp, parser_stage.cpp and book_stage.cpp on
--                      the queues of include/qf/core/pipeline.hpp; `Rounds` joins them to the parser stage.
--   Oms.Types, Oms.Transitions, Oms.Journal, Oms.Manager, Oms.FillManager, Oms.Validator
--                      include/qf/oms and src/oms: the order's record, the two tables of transitions, the
--                      journal with its index, the manager's calls, the tallies of fills and
--                      the checks of a decision. `Journal.File` is the journal's file, `Journal.Layout`
--                      one entry of it and `Journal.Reload` the whole.
--   Simulator.Book, Simulator.Matching
--                      include/qf/simulator and src/simulator: the book and the matching engine of the
--                      exchange simulator; `Best`, `Rounds` and `Uncrossed` prove what it leaves.
--   Tests              the theorems at concrete inputs.
--
-- State and operations. A class is a record and a call is a function from the record to the new record,
-- beside the result; a null or empty result is an option. An integer is a natural number and wraps where
-- the C++ type does (`% 2 ^ w`); a comment says where a subtraction cannot. A map is the list of its
-- entries. A pointer into a buffer is the rest of the buffer. A clock reading is an argument, since it is
-- the machine's. A symbol is its eight bytes as one number, which is how the program compares symbols.
--
-- Fuel. The frame walk takes as much fuel as the buffer has bytes, and each of its rounds drops at least
-- a header of 11 bytes. The matching loop takes as much as the book has orders, and each of its rounds
-- takes at least one order out of the book. The FIX parser takes as much as its input has bytes, and each
-- field has two at least; the gateway's loop as much as its buffer has bytes, and each message has one.
--
-- Not modelled. Prices as doubles (`spread`), the texts of errors, the locks, the stages' threads
-- (their rounds take turns) and the consumer stage, sockets, displays, configuration and logging,
-- the floating-point strategies, signals, risk and load generation, recording and replay. Of FIX,
-- the doubles (`std::stod` and the printing of a price are parameters), the clocks and the text of
-- the sending time (parameters, read at the session's count of reads), and the socket. Memory
-- ordering is not modelled: the steps of two threads interleave in one order, as the acquire and
-- release operations on the two indices make them appear.
pub mod Base
pub mod Core
pub mod Protocol
pub mod Handler
pub mod Oms
pub mod Simulator
pub mod Tests
