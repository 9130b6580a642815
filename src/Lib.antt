-- ===== src/Lib.antt =====
-- Verification of the GPR C library (include/ and src/ of the repository): the containers, the error
-- messages they leave, and the contract that the containers share.
--
-- The program's parts and the files about them:
--   * the machine: Machine.antt. A C function is a command: from a world (the thread's error message,
--     the log of the client callbacks that were called, and the component's heap) to a result and a
--     world, to `fault` (undefined behaviour, such as a read through `NULL` or out of a block), or to
--     `out_of_fuel`. The predicate `Returns` of a run excludes the last two.
--   * src/gpr_utils.c: Utils.antt, the bounded formatting. What `vsnprintf` expands a format to is an
--     argument.
--   * src/gpr_err.c: Err.antt, the codes and the message buffer `Err_Msg` of GPR_ERR_MSG_LEN bytes,
--     which every container operation writes through `gpr_err_raise`.
--   * the contract: Seq.antt, a sequence of elements with the operations that include/gpr_array.h and
--     include/gpr_dlklist.h document. `step` gives the code, the elements, the message and the calls
--     of the callback of one operation; `run` of any number of them. The traits say where the two
--     containers differ.
--   * src/gpr_array.c: Array.antt, with a function for each function of the file under its name.
--     The heap is the `struct gpr_array`, whose block is a list of cells; `realloc` is granted or
--     refused by an argument and fills what it adds with arbitrary cells; `memmove` faults outside of
--     the block. Below: Array/Block and Array/Inv (the invariant), Array/Grow, Array/Insert,
--     Array/Shrink, Array/Pop, Array/Remove, Array/Reset, Array/Replace, Array/Scan (map, search, free),
--     Array/Refine (the contract) and Array/Tests.
--   * src/gpr_dlklist.c: Dlklist.antt (the nodes), Dlklist/Ops.antt (the operations) and
--     Dlklist/Visit.antt (map, search). The heap is the `struct gpr_dlklist` and a map from addresses
--     to nodes; `malloc` answers an address or `NULL` by an argument. Below: Dlklist/Image (the heap
--     that a list of cells stands for), Dlklist/Link, Dlklist/Between, Dlklist/Position (the search by
--     position), Dlklist/Push, Dlklist/Inside, Dlklist/Unlink, Dlklist/Clear (what each operation does
--     to that heap), Dlklist/Contract, Dlklist/Add, Dlklist/Insert, Dlklist/Take, Dlklist/Refine,
--     Dlklist/Runs (the contract) and Dlklist/Tests.
--   * src/gpr_tree.c: Tree.antt (the nodes, freeing, the containment test and the searches) and
--     Tree/Ops.antt (making nodes and linking them). The heap is a map from addresses to nodes. Below:
--     Tree/Shape (the tree that a heap holds), Tree/Read, Tree/Search, Tree/Free, Tree/Graft and
--     Tree/Attach (a tree put into another), Tree/Place, Tree/Add, Tree/New and Tree/Tests.
--   * include/gpr_klist.h: Klist.antt, the functions and the loop macros. The heap is a map from
--     addresses to the links of entries. Below: Klist/Chain (entries that follow each other),
--     Klist/Splice (the two changes of links), Klist/Edit (pushing), Klist/Delete, Klist/Visit and
--     Klist/Loops (the macros) and Klist/Tests.
--   * src/gpr_net.c: Net.antt (the socket, the system's calls), Net/Setup (making and closing sockets),
--     Net/Steps (the static functions), Net/Ops (listen, connect, accept, copy) and Net/Transfer
--     (receiving, sending, addresses). The heap is the `struct gpr_socket` with the open descriptors,
--     the number of address lists, `errno` and the number of system calls; what the system answers to
--     each call is an argument. Below: Net/Own and Net/Make (what the static functions keep), Net/Serve
--     (the loop of listen), Net/Listen, Net/Dial (the loop of connect), Net/Connect,
--     Net/Close and Net/Tests.
--   * src/gpr_log.c: Log.antt, Log/Filter and Log/Tests. The heap is the default level and what was
--     written; `freopen` and `fflush` are arguments.
--   * src/gpr_buf.c: Buf.antt, Buf/Sizes and Buf/Tests. The heap is the `struct gpr_buffer` and the
--     allocated blocks.
--   * src/gpr_bin.c: Bin.antt. It is a function of the buffers' bytes; past the end is `none`.
--   * src/gpr_str.c: Str.antt and Str/Case (the case conversions), Str/Trim and Str/Tests. The memory is
--     one list of bytes and a pointer is a place in it, so that two pointers may overlap; outside of the
--     memory is `none`. `tolower`, `toupper` and `isspace` of the C library are arguments.
--
-- Conventions. `debug` says whether `DEBUG` is defined, so both builds are modelled. Pointers are 8
-- bytes and `size_t` is 64 bits: sizes and byte counts keep their wrap-around, `% 2 ^ 64`. The field
-- `data` of a node is called `item`, and a callback is an argument that says whether it is given; its
-- calls are logged, and it is taken not to change the container. Loops with a counter are recursion
-- on the rounds left. The loops of the doubly linked list follow links, and have the size of the list
-- and one as fuel, one round for each node and one to see the end. The functions on trees and the
-- loops over circular lists take their fuel as an argument, and the theorems ask for more than the
-- number of nodes or entries, which each follows once.
--
-- Not modelled: src/gpr_bit.c, include/gpr_arrtpl.h, src/gpr_time.c and the macros of include/gpr_log.h,
-- on which the modelled parts do not depend; the unit tests under tests/, the templates under models/
-- and the build.
pub mod Base
pub mod Machine
pub mod Utils
pub mod Err
pub mod Seq
pub mod Array
pub mod Dlklist
pub mod Tree
pub mod Klist
pub mod Net
pub mod Log
pub mod Buf
pub mod Bin
pub mod Str
