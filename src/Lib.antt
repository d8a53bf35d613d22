-- ===== src/Lib.antt =====
-- arm_simulator-1.4: a simulator of the ARM architecture, version 5, in C.
--
-- The simulator keeps a processor (arm_core.c), which owns a register file (registers.c) and a
-- memory (memory.c). A step (arm_step of arm_instruction.c) fetches the word at the program counter,
-- tests its condition against the flags, and gives it to the handler of its kind: data processing
-- (arm_data_processing.c), loads and stores (arm_load_store.c), or branches and the rest
-- (arm_branch_other.c). A step whose result is not 0 enters an exception (arm_exception.c). The main
-- program (arm_simulator.c) starts a processor and two threads, of which one serves a debugger
-- (scanner.l, gdb_protocol.c) and the other takes interrupts from the network (send_irq.c sends them).
-- The modules follow these files, and a module Valid below one holds the lemmas that its operations
-- keep the well-formed states of Arm/Valid; all paths are below arm_simulator-1.4/.
--
--   Common          names shared by all modules, and tests on numbers
--   Bits            the binary digits of numbers under &, |, ^, and masks
--   Word            32-bit words, shifts, bytes of words, and the signed numbers they stand for
--   Outcome         how a run of C code ends
--   Constants       arm_constants.h, arm_constants.c
--   Util            util.h, util.c
--   Memory          memory.c; Memory/Words is its specification as words in an array of bytes
--   Registers       registers.c; Registers/Bank says which registers modes share
--   Arm             arm_core.c
--   Heap            the blocks that memory.c, registers.c, arm_core.c and gdb_protocol.c allocate
--                   and free
--   Exception       arm_exception.c, and arm_create of arm_core.c
--   Shifter         shifter_operand of arm_instruction.c
--   Branch          arm_branch_other.c
--   DataProcessing  arm_data_processing.c
--   LoadStore       arm_load_store.c
--   Instruction     arm_instruction.c without shifter_operand
--   Trace           trace.c and the macros of trace_location.h; Trace/Core the traced accesses
--   Gdb             gdb_protocol.c: Gdb/State the connection, Gdb/Packet the packets, Gdb/Commands
--                   the handlers, Gdb/Handlers the table of them; of scanner.l, Gdb/Lexer the
--                   patterns and Gdb/Scanner the actions
--   Text            the functions of the C library on strings that the code calls
--   Debug           the table of debug.c; Output: the macros of debug.h
--   Network         the calls of sockets in the next two
--   Simulator       arm_simulator.c; Simulator/Threads its two threads, Simulator/Server their sockets
--   SendIrq         send_irq.c; SendIrq/Socket its connection
--   MemoryTest      memory_test.c
--   InsertionSort   Examples/insertion_sort.c
--   Tests           the theorems at a concrete host and machine
--
-- State. A C function that changes an object through a pointer returns the new object with its own
-- result: memory_write_word(mem, a, v) is Memory.write_word host mem a v, whose value is the status
-- and the memory; for a read the value is the status and what the target of the pointer holds
-- afterwards. The prefix of a C name is the module: arm_read_register is Arm.read_register, and
-- read_register of registers.c is Registers.read_register. The register file is a function from
-- indices to words, of which the code allocates 37: an index beyond them is not a fault here, and the
-- theorems that speak of all that can go wrong ask for one of the sixteen registers. Memory is a function from indices to bytes with
-- the size of the allocation; an access outside it is the outcome `fault`, since C gives it no meaning,
-- `exited` is a call of exit, and `unfinished` is a loop that has not ended after the rounds that it
-- was given. Heap looks at the blocks alone, as a list of the addresses in use; elsewhere malloc finds
-- room, and what it finds there is an argument.
--
-- Numbers. Unsigned words are natural numbers with their wrap-around written out. An int that the
-- code uses as a word is its 32-bit pattern, which is how the compilers that the build uses treat
-- left shifts of negative numbers. A shift by the width or more has no meaning in C: the parameter
-- `Host` gives its value, with the byte order of the machine that runs the simulator and the value
-- of an uninitialised variable, so that a theorem holds for every machine; and whether the build
-- defines BIG_ENDIAN_SIMULATOR. The class of hosts that mask the count of a shift is `MasksCounts`.
--
-- Loops. Most loops count: those of LDM and STM over sixteen registers, those of the
-- debugger protocol over the bytes of a word, the registers, or the size that a packet names. They are
-- recursions on the rounds that are left, so there is no fuel. Three do not: the loop of cont, which ends
-- only if the program reaches a breakpoint, gets a number of rounds as an argument; the binary search of
-- debug.c and the search of a name in send_irq.c get one round more than there are names. The scanner
-- of scanner.l gets one round more than there are characters, since each match takes one.
--
-- Debugger protocol. Characters are their ASCII codes and strings are lists without the final 0. A
-- connection shares the memory of its processor, as arm_simulator.c sets it up. The table of handlers
-- is an argument of gdb_packet_analysis, and the system call behind kill_request one of the table. An
-- answer that does not fit the packet buffer, a packet without the separator that its handler looks
-- for, and a failed assertion are `fault`.
--
-- Traces. Trace models the trace as a state of its own, whose output is a list of what each line shows,
-- with files as numbers. Trace/Core has the functions of arm_core.c with their calls of it, under the
-- macros of trace_location.h, which close a location after the call that it names; C leaves that order
-- open. The macros add what closing returns to the value of the call. The names that a line shows are
-- read from the tables of arm_constants.c, and a number outside a table is a fault. The other modules use the functions without the trace, and Trace/Silent relates the two.
--
-- Threads. The two threads act on the processor under one lock. A run is a sequence of actions, each
-- the work that is done for one token of the debugger's input, or the entry into one exception. What a
-- thread does without the lock touches the connection only.
--
-- Network. The functions of csapp.c and the system return what the parameter `Network` says. A program
-- is the list of its calls that change a socket, and the descriptors in the calls are those that
-- were returned.
--
-- Not modelled: the calls of the debug output in the other parts, which change no state that
-- instructions see; the texts on the standard error; the tables that flex generates from the patterns of
-- scanner.l, which are read as flex documents them; getopt_long and fopen, whose results are arguments;
-- csapp.c, which is a copy of a library; the masks of arm_constants.h for MSR, which nothing uses.
pub mod Common
pub mod Bits
pub mod Word
pub mod Util
pub mod Outcome
pub mod Constants
pub mod Memory
pub mod Registers
pub mod Arm
pub mod Exception
pub mod Shifter
pub mod Branch
pub mod DataProcessing
pub mod LoadStore
pub mod Instruction
pub mod Tests
pub mod Gdb
pub mod Trace
pub mod Text
pub mod Debug
pub mod Simulator
pub mod SendIrq
pub mod MemoryTest
pub mod InsertionSort
pub mod Heap
pub mod Network
