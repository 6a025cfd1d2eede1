-- ===== src/Lib.antt =====
-- The chat program miaouchat (the C files under src/ of the repository). Peers exchange UDP
-- datagrams, each a message of TLVs: hello, neighbour, data, ack, go away, warning and padding.
-- src/connect.c sends and receives them, src/serialization.c writes and reads them through a
-- growing byte buffer, src/types.c makes and frees their parts, and src/dllist.c holds the
-- messages that wait for a peer.
--
-- Common: tests and lists on native numbers, bytes, and Run, the outcome of C code: a result, a
-- fault (undefined behaviour), a loop without fuel, or a thread that is blocked.
--
-- Wire: the messages. Types and TlvType are the structs and enums of src/types.h; Make the
-- constructors new_* of src/types.c; Free its destructors; Sbuff the buffer sbuff_t; Host the
-- byte order of the machine with htonll and ntohll; Serial the functions serial_* and Dserial
-- the functions dserial_* of src/serialization.c. Serial/Format says the wire format by itself
-- for TLVs without strings; Dserial/Content and Dserial/Meant do for all, and Dserial/Restored
-- shows that dserial_msg reads the latter back. An integer is a natural number; a conversion
-- that C makes is written out as a remainder. A char pointer is its address with the bytes from
-- there to the end of the object. malloc and realloc succeed, but for the length of a text of
-- 2 ^ 31 bytes or more in dserial_str, which faults there: malloc gives null for the lengths
-- that wrapped. The sizes of sbuff_reserve_space are natural numbers that do not wrap, which is
-- right for buffers of fewer than 2 ^ 63 bytes, and the loops of new_msg and serial_msg over the
-- TLVs count without the bound of an int, which is right for fewer than 2 ^ 31 TLVs.
--
-- Store: memory for lists, as nodes by address; a read through null or a freed address is a
-- fault. malloc gives a fresh address and arbitrary links.
--
-- Dllist: the functions dllist_* of src/dllist.c and src/types.c on a header and the memory.
-- Dllist/Rep relates a header and the memory to the elements of a list. A loop that counts with
-- an int faults where that would overflow, so theorems bound a list or an index by 2 ^ 31.
-- Nothing is said of the links at the ends of a list, as the first push leaves them unassigned;
-- where a theorem needs a null link there, it says so. Dllist/Spec says what a list promises, as
-- calls on a sequence of pointers, and Dllist/Keeps, Dllist/Calls and Dllist/Refine hold the
-- functions against it.
--
-- Connect: udp_send, the functions send_* and process_datagram of src/connect.c. The handlers
-- process_hello to process_warning are an interface, a record of functions on a state, that
-- process_datagram takes and Process fills. Which datagrams sendto accepts is a parameter too.
--
-- Neighbours: map_add_neighbour_entry, map_pop_neighbour, map_delete_entry and
-- map_transfer_neighbour of src/neighbour_map.c, with the entries and keys of src/types.c, over
-- the calls of the hash map as a record; also new_data_key, new_dllist_msg, free_dllist_msg and
-- set_time_send of src/types.c. set_time_send takes powers of two without bound, where the code
-- converts a double to 64 bits.
--
-- Shared: the state that the threads share, with the globals and the mutexes of
-- src/shared_resources.c, the socket, the memory and the window of Gui. A function of the
-- program is an action on that state. A thread that takes a mutex which it holds is blocked, as
-- on Linux; to release one that is not held is a fault. What the C library, the network and the
-- hash map do is a record, Env.
--
-- MsgList: the functions of src/msg_list.c. Process: the handlers of src/connect.c and
-- add_new_neighbour of src/neighbour_map.c; they are an instance of the interface of Connect.
-- Worker: src/worker.c, where a pass is the body of the loop of worker_loop, and map_next after
-- a round that removed the key is a fault, as map_remove has freed the node that it reads.
-- Theorems stand in the child modules. In these three a thread runs by itself.
--
-- Server: the thread udp_server of src/connect.c, from the outcomes of the system calls of its
-- setup, and a list of what select and recvfrom give, round by round. The array of a round is a
-- local variable, which free may not be given; whether malloc gave an object is an argument of
-- process_datagram and free_sbuff.
--
-- Printing: src/msg.c and the printing of src/neighbour_map.c, as the text that is printed. A
-- string that is read behind the end of its object is a fault.
--
-- Threads: the worker and the server side by side. Each is the sequence of the mutexes that it
-- takes and releases, and a step is the next action of one of them. The actions of Shared keep
-- the trace of the mutexes, and the theorems on Process, MsgList and Worker say that it is that
-- of the sequences of Threads; for Worker that is a pass that finds no neighbour, as another one
-- faults.
--
-- Reached: the states that the operations of the threads lead to from the start, in any order,
-- each operation to its end. What holds of all of them is shown by induction; Connect/Kept
-- carries it from the handlers to process_datagram.
--
-- Gui: src/gui.c, with the window as a state. Terminal: src/interface.c, and the loop of
-- src/main.c that asks for a name.
--
-- Fuel: the loop of sbuff_reserve_space doubles a size that is not 0, so as many rounds as bytes
-- are needed are enough; dserial_msg takes two bytes at least for each TLV, so one round more
-- than the datagram has bytes is enough; dllist_free, dllist_empty, is_in_msg_list and
-- rm_nbr_msg visit each node once, so one round more than the size is enough. The loop of
-- worker_iter_msg takes its fuel as an argument, and what is said of it holds for every fuel.
--
-- Not modelled: the hash map src/map.c is another project's, and its calls are parameters. The
-- set-up of the window in init_gui and the start of the threads in main are input and output. Of
-- exec_command, what follows the use of a variable that is not assigned is left out.
pub mod Common
pub mod Wire
pub mod Store
pub mod Dllist
pub mod Connect
pub mod Neighbours
pub mod Shared
pub mod MsgList
pub mod Process
pub mod Server
pub mod Printing
pub mod Worker
pub mod Threads
pub mod Gui
pub mod Terminal
pub mod Reached
pub mod Tests
