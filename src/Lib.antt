-- ===== src/Lib.antt =====
-- FreeRTOS-in-Rust: a model of the kernel's communication objects, lists, task selection, tick and
-- delays (`src/kernel/`) and of its heap (`src/memory/heap_4.rs`), and the proofs about them.
--
-- The kernel gives tasks and interrupts three kinds of objects to communicate by: queues (with
-- semaphores and mutexes, `queue.rs`), stream and message buffers (`stream_buffer.rs`) and event
-- groups (`event_groups.rs`). Each keeps its own storage or bits and knows the tasks that wait for
-- it; the scheduler (`tasks.rs`) suspends and wakes these, keeps the time of their waits, and selects
-- the task to run from its lists (`list.rs`); its tick wakes the tasks whose time has come. A call
-- of an object runs in a critical section, so that a call is a step here: a function from the
-- object's state to its next state and what it answers. An assertion that fails is the outcome
-- `panic` (`configASSERT` does not return). What is created at run time lies in the heap of
-- `src/memory/`.
--
-- The modules:
--   Prelude          the shared names: native numbers, lists, bits, 32-bit words, outcomes
--   StreamBuffer     `StreamBuffer_t`, the copies into and out of its circular storage and the
--                    framing of messages; Ring: the bytes held; Framing: what writes and reads do to
--                    them; Calls: the calls from interrupts, the wake-ups, creation and reset, with
--                    the refinements to a queue of bytes and a queue of messages
--   Queue            `xQUEUE`, its copies and locks; Storage, Items: the items held; Calls: the calls
--                    from interrupts and the reset, refined to a bounded deque, and what a lock defers
--   EventGroups      the bits and the waiting tasks, each call that changes them, and the transition
--                    system that these make
--   Tasks.Ready      the ready lists; Selection: the task that `taskSELECT_HIGHEST_PRIORITY_TASK` selects
--   Tasks.Delays     the delayed lists and `xTaskIncrementTick`; Tidy, Moves: the lists and tasks in order;
--                    Unblocking, Waking, Loop: tasks that wake; Clock, Start, Ticks: the tick count and its
--                    overflow; Sleeping: `prvAddCurrentTaskToDelayedList`
--   Tasks.Suspension `vTaskSuspendAll`, `xTaskResumeAll` and the delays; Elapsed, Resuming: ticks in a
--                    row and pended ones; Delaying, Periods: how long a delay takes
--   Tasks.Events     the moves to and from the lists of tasks that wait for an event; Unblocked: a task is
--                    woken; Waiting: a wait with a timeout
--   Tasks.Priorities the inheritance of priorities by the holders of mutexes; Inheritance, Steps, Returning:
--                    its rules
--   Tasks.Notifications  the notification array of a task; Rendezvous: a wait and a notification in
--                    either order; Semaphore: notification values as counts
--   Lists            the doubly linked lists of `list.rs`; Segments, Splicing, Shape: sequences of items in
--                    a store; Ordered, Insertion, Removal, Rotation: the operations on them;
--                    Members, World: several lists in one store
--   Memory.Heap4     `heap_4.rs`: the headers and the free list; Tiles: the heap as a row of blocks; Taking,
--                    Passing, Search, Malloc: first fit; Link, Release, Freeing, Free: coalescing;
--                    Runs: what clients rely on; Stats, Alloc: statistics, Rust's allocator
--   Tasks.TimeOut    the tick count and the timeouts of blocking calls
-- A function of the code keeps its name without the prefix and in snake case: `prvCopyDataToQueue` is
-- `Queue.copy_data_to_queue`, `xEventGroupSetBits` is `EventGroups.set_bits`.
--
-- Numbers. The configuration is the 32-bit one without queue sets. Sums and differences of `usize`
-- in `stream_buffer.rs` wrap at 2^32, as release builds do; the validity of a buffer asks that twice
-- its length be smaller, so that none does wrap there. Ticks and the overflow counter wrap at 2^32.
-- In `queue.rs` pointers into the storage are offsets, and the lock counts are numbers with the
-- assertion of the code at `queueINT8_MAX`; sums of offsets and counts do not wrap, since they are
-- bounded by the size of the storage. In `heap_4.rs` addresses and sizes are
-- `usize` of 32 bits, and `vPortFree` is the one of release builds, without its `debug_assert!`s.
-- Recursions are on lists and numbers; only the loops along a list
-- have fuel: as many rounds as the region has bytes along the free list of the heap, whose blocks are
-- not empty, and one more than there are items in `vListInsert`, in the loop of the tick and in those of
-- `xTaskResumeAll`.
--
-- Memory. The storage behind a pointer is the list of its bytes, which has one owner; the source and
-- destination buffers of the caller are lists as well. `pvPortMalloc` is a parameter of the creation
-- of a buffer. The heap's headers and the items of lists are stores of their own, by address.
--
-- Not modelled: the blocking loops of send and receive, the calls of mutexes, queue sets, the
-- store of the scheduler in the objects' calls (there an unblocked task is returned or dropped
-- from the waiters, and whether it outranks the running task is a parameter), creation,
-- deletion and suspension of tasks, timers and the other heaps, which are planned;
-- `ucDelayAborted`, the tick hook and run-time statistics, which features switch on; the
-- wrappers of `src/sync/`, which pass calls on; the ports, which are assembly and registers;
-- traces, which are empty.
pub mod Prelude
pub mod EventGroups
pub mod Lists
pub mod Memory
pub mod Queue
pub mod StreamBuffer
pub mod Tasks
