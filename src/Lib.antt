-- ===== src/Lib.antt =====
-- The TécnicoFS message broker: its file system, fs/, and its parts around it.
--
-- fs/state.c keeps six tables in globals: the inodes and their map of free ones, the bytes of the
-- disk and its map of free blocks, the open files and their map of free handles. fs/operations.c
-- offers open, close, read, write and unlink over these tables, each under g_library_mutex. The
-- broker (mbroker/), the manager, the publisher and the subscriber (manager/, publisher/,
-- subscriber/) talk through named pipes, and the broker stores each box of messages as a file.
-- producer-consumer/ is the queue between the broker's threads.
--
-- Files:
--   Prelude      helpers: `int` as integers with four bytes, `size_t` as numbers below 2^64 with
--                the wrap written out, C arrays, Boolean tests, list lemmas
--   Fs/State     the types and globals of fs/state.h and fs/state.c as the record State, and the
--                commands over it; a run ends with a value, with PANIC, or with a fault
--   Fs/Tables    inode_alloc, data_block_alloc, data_block_free, data_block_get and the open file
--                table of fs/state.c
--   Fs/Strings   strcmp, strncmp and strncpy on a string in memory
--   Fs/Inodes    inode_create, inode_delete, inode_get
--   Fs/Directory find_in_dir, add_dir_entry, clear_dir_entry, on the bytes of the directory block
--   Fs/Init      state_init, state_destroy, tfs_init, tfs_destroy, tfs_default_params
--   Fs/Operations  tfs_open, tfs_close, tfs_write, tfs_read, tfs_unlink of fs/operations.c
--   Fs/Returns, Fs/Layout, Fs/Invariant  runs that return, the sizes of the tables, and the
--                invariant IsValid r s: the root directory is in block r, each file in use has a
--                block of its own if it is not empty, each name leads to a file in use
--   Fs/Contents  the bytes of a file, as a list, and what the operations do to it
--   Fs/History   calls of fs/operations.c one after the other, by a program that truncates and
--                removes no open file, and in History/Spec what is promised of each: of the names,
--                the contents and the handles
--   Fs/Example, Fs/Tests, Fs/History/Tests  a small disk with one file, and runs on it
--   Queue, Queue/Places, Queue/Fifo, Queue/Tests  pcq_create, pcq_destroy, pcq_enqueue and
--                pcq_dequeue of producer-consumer/producer-consumer.c, as one thread sees them, and
--                the list of elements that a ring buffer holds
--   Queue/Threads  one thread in pcq_enqueue and one in pcq_dequeue on one queue: the code between
--                a lock and its unlock is one move, and the moves interleave in any order
--   Libc         character arrays, strings in memory, atoi and strtok, as the programs use them
--   Broker       the globals of mbroker/mbroker.c as the record Broker, and commands over it that
--                end with a value, with exit(EXIT_FAILURE), by waiting for ever, or with a fault
--   Broker/Requests  how main reads a request
--   Broker/Sessions  the loops of threadFun, its answers, and in Sessions/Commands its cases: 1
--                publisher, 2 subscriber, 3 creator, 5 remover, 7 lister
--   Broker/Main  main: the start, and the loops around pthread_join
--   Broker/Keeps, Broker/Sessions/Safe, Broker/Sessions/Steps, Broker/Tests  what holds wherever a
--                command ends, the steps of threadFun, and runs
--   Clients/Manager, Clients/Publisher, Clients/Subscriber  the arguments, the bytes sent and what
--                is made of the bytes received of manager/manager.c, publisher/pub.c and
--                subscriber/sub.c
--   Clients/System  the calls that the clients make of the operating system, in their order
--   Clients/Manager/Main, Clients/Publisher/Main, Clients/Subscriber/Main  their whole programs
--   Clients/Manager/Sorting  compare_box_names and sort_boxes of manager/manager.c
--   Clients/Manager/Order, Clients/Manager/Runs, Clients/Manager/Creates, Clients/Publisher/Sends,
--   Clients/Subscriber/Shows, Clients/Failures, Clients/Statuses, Clients/RunTests  the order of
--                the boxes, what whole runs do, also where a call fails, and runs
--   Logging, Logging/Levels, Logging/Tests  utils/logging.h and utils/logging.c: the macros, what is
--                printed at which level, and a run
--   Clients/Exchange, Clients/Registrations, Clients/Answers, Clients/Tests  what the broker makes
--                of requests, what the clients make of answers, and runs
--
-- Conventions. The functions keep the names of the source; a part of a function is a helper next
-- to it, and open_body, close_body, read_body, write_body and unlink_body are tfs_open, tfs_close,
-- tfs_read, tfs_write and tfs_unlink between lock and unlock. A pointer into a table is an index, a
-- pointer into the disk is an address, and NULL is `none`. The globals are passed explicitly. The
-- commands fault on an access outside a table, so a theorem that a run returns says that there is
-- none. The disk is a function from addresses to bytes with a size, and so are character arrays.
--
-- Assumptions on the platform: 64-bit size_t, 32-bit little-endian int; dir_entry_t takes 44
-- bytes, inode_t 24, open_file_entry_t 16, allocation_state_t 4. What malloc and the pthread calls
-- return are parameters; the theorems ask of the pthread calls that they never return -1. A C
-- string is the list of its bytes without NUL. The loops count down a number of rounds that is the
-- bound of the loop in the source, so no fuel is chosen. The loops on pipes go through the list of
-- what open, read and write give: one that has used the list up waits for ever. `beyond` is the
-- string that stands in memory behind the one byte of str_op_code, `stack` what an array on the
-- stack holds before it is written, and an Image the bytes of a box in memory. In Queue/Threads a
-- section is atomic, and the sizes are those of Queue. The clients ask a Kernel, which gives what
-- a call of the system returns after the calls before it; the words of the input, the bytes that
-- come into a pipe between two reads and `qsort` are parameters too. A Kernel on which no call
-- fails and insertion sort show that what is asked of them can hold.
--
-- Not modelled: insert_delay (no effect), and what the programs print on the standard error and
-- the broker on its outputs. Threads meet in the file system only inside g_library_mutex, so an
-- operation is one step. The counters of the broker and the number of boxes that the manager
-- counts do not overflow, the sessions run one after the other, and pthread_create succeeds: two
-- sessions that interleave on the globals are not modelled.
pub mod Prelude
pub mod Fs
pub mod Queue
pub mod Broker
pub mod Clients
pub mod Libc
pub mod Logging
