-- ===== src/Lib.antt =====
-- The debugger for microcontrollers of this repository: a debug adapter that speaks the Debug
-- Adapter Protocol to the editor on one side and the GDB/MI protocol to gdb on the other, with
-- readers for trace output (SWO, RTT, UART) beside it. This library models the parts of its
-- TypeScript code that compute, and proves what makes them correct. Each part has a file that
-- holds its definitions, one function per method or handler, and files below it for the proofs,
-- the specification and the tests.
--
-- A method that changes its object returns the new record. Strings and buffers are lists of
-- numbers: code units of a string, bytes of a buffer. Numbers that the code keeps below 2^53 are
-- natural numbers without a bound; where the code uses the 32-bit operators of JavaScript the
-- wrap-around is written out.
--
-- - Breakpoints models packages/mcu-debug/src/adapter/breakpoints.ts: Breakpoints.Args the
--   options of a command, hit conditions and quoting, Breakpoints.World the tables, the commands
--   sent and calls that can throw, Breakpoints.Settle what the answers of gdb put into the tables
--   and the response, and Breakpoints.Requests the four requests around executeWhileStopped. What
--   gdb documents of its breakpoints is the record of Breakpoints.Tracking, which shows with
--   Breakpoints.Counts, Breakpoints.Kinds, Breakpoints.Kept and Breakpoints.Armed that the tables
--   stay the same as gdb's breakpoints; Breakpoints.Responses and Breakpoints.Hits hold the other
--   results.
-- - Gdb models GdbInstance (packages/mcu-debug/src/adapter/gdb-mi/gdb-instance.ts): Gdb.State its
--   fields, Gdb.Books sendCommand, the queue, the timers and stop, Gdb.Records the stops and
--   other records of gdb, Gdb.Utf8 the decoding of its bytes, Gdb.Output the lines of its output,
--   which Lines cuts and Mi parses, and Gdb.Run the steps that can happen in any order.
--   Gdb.Tally, Gdb.Valid, Gdb.Moves and Gdb.Stop show what each operation does to the commands,
--   Gdb.Safe has the results on whole runs, Gdb.Chunks and Gdb.Close those on the output and its
--   end.
-- - Handles models ValueHandleRegistry and ValueHandleRegistryPrimitive
--   (packages/shared/src/handles.ts). The key of a value and its truth value are parameters.
--   Handles.Laws has the invariant, Handles.Add and Handles.Release the operations, Handles.Reach
--   the relation of the registries that calls lead to. Maps is JavaScript's Map.
-- - Itm models ITMDecoder and handleData of SWOCore
--   (packages/mcu-debug/src/common/swo/swo-core.ts): processByte is process_byte, its switch is
--   step, and the handlers registered with emit see the events that it returns. Itm.Sync holds
--   checkSync, Itm.Inv the invariant, Itm.Window and Itm.Frames the wire format, Itm.Stream and
--   Itm.Resync the behaviour over streams.
-- - Lines models what cuts streams into lines: Lines.Cut the loop, which Gdb uses too,
--   Lines.Splitter LineSplitter (packages/shared/src/line-splitter.ts) and LineBuffer
--   (packages/mcu-debug/src/common/utils.ts); Lines.Reader is a reader of lines that does without
--   the replacement, and Lines.Chunks compares chunks with the whole text.
-- - Memory models packages/mcu-debug/src/adapter/memory.ts: Memory.Numbers the texts of addresses
--   and bytes, with parts of packages/mcu-debug/src/common/utils.ts, and Memory.Requests the
--   reads in chunks, the writes and the two requests. The loop of a read has as fuel the number
--   of bytes and one more, and each turn takes a byte at least. Memory.Reads says what a read
--   returns, Memory.Bounds what it asks of gdb, Memory.Words that a word written is read back.
-- - Mi models the GDB/MI parser (packages/mcu-debug/src/adapter/gdb-mi/mi-parser.ts): Mi.Chars
--   the white space, names and quoted constants, Mi.Keys the loop that makes a repeated key
--   unique, Mi.Parser the recursive functions nextValue, nextResult, nextTuple and nextList on
--   fuel, and Mi.Record the lines and the whole output. Mi.Fuel shows that three times the length
--   of a text and three more is fuel enough, Mi.Print writes the MI grammar down as a printer,
--   and Mi.Consts, Mi.RoundTrip, Mi.Unique, Mi.Lines and Mi.Answers hold the results.
-- - Ports models packages/shared/src/find-free-ports.ts: Ports.Scan the claims of ports by
--   listening sockets and the search for a range, Ports.Scanner TcpPortScanner. The loop of the
--   search counts the ports that are left up to the ceiling. Ports.Sockets and Ports.Claims count
--   the sockets that are held, Ports.Search has the result of a search, Ports.Given that no port
--   is given out twice.
-- - RingBuffer models BinaryRingBuffer (packages/mcu-debug/src/common/ring-buffer.ts), one
--   function per method. RingBuffer.Queue is its specification, and RingBuffer.Refine the
--   refinement, with snapshot as the abstraction function.
-- - Sequential models SeqDebugSession (packages/mcu-debug/src/adapter/seq-debug-session.ts), the
--   queue in front of the request handlers. Sequential.Fifo has the relation of its runs and
--   their order, Sequential.Turns which request is under way, Sequential.Drain that all requests
--   that wait go out when those that go out are answered.
-- - VarRef models packages/mcu-debug/src/adapter/var-scopes.ts, with JavaScript's bit operations
--   on 32-bit patterns; VarRef.Codec relates encoding and decoding.
-- - Variables models the handles of packages/mcu-debug/src/adapter/variables.ts: addFrameInfo,
--   getFrameInfo, createVariable, getVariableByRef, getVarOrFrameInfo. It stands on Handles and
--   VarRef.
--
-- Prelude holds the shared names, lists over the native numbers and the tables for masks of a
-- byte. Loops over a buffer or a string are structural recursion, or take as fuel a bound that a
-- theorem shows to be enough. Packages that are not part of the repository are parameters with
-- their documented behaviour. Not modelled: processes, sockets, terminals, the file system, the
-- user interface, and the programs written in Rust.
pub mod Breakpoints
pub mod Gdb
pub mod Handles
pub mod Itm
pub mod Lines
pub mod Maps
pub mod Memory
pub mod Mi
pub mod Ports
pub mod Prelude
pub mod RingBuffer
pub mod Sequential
pub mod VarRef
pub mod Variables
