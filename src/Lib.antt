-- ===== src/Lib.antt =====
-- Verification of coio, a C++ library of coroutines, senders and asynchronous I/O.
--
-- The library's own state lives in a few containers and synchronisation primitives; the senders, the
-- contexts and the sockets are built on them. This development models these parts, from the headers
-- under include/coio.
--
-- Intrusive chains. The nodes are numbers, and a link is a field of every node, a function that a
-- store changes at one place (Links). Chains are reversed in place by a loop (Links.Reverse).
--   OpQueue          detail/op_queue.h, `op_queue`: many producers push on `incoming_`, the consumer
--                    takes from `front_` and refills it by reversing what came in.
--                    OpQueue.Contents is the queue of operations it stands for, OpQueue.Fifo its laws.
--   TimerQueue       detail/op_queue.h, `timer_queue`: a pairing heap on the links `prev`, `child` and
--                    `sibling` of its operations. TimerQueue.Shape is the heap the links stand for;
--                    Meld, Merge, Fold and Unlink are about one private function each, Laws,
--                    Remove and Ready about the calls.
--   IntrusiveList    detail/intrusive_list.h: `push_back`, `append`, `pop_front`, `release`, `clear`.
--   AtomicStack      detail/atomic_intrusive_stack.h: `push`, `pop_all`, `status`, `empty`.
--   ObjectPool       detail/object_pool.h: `acquire` and `release` on the free list, with clients that hold
--                    objects.
--   A compare-exchange that succeeds is one step; one that fails changes nothing and is tried again.
--
-- Synchronisation, include/coio/sync_primitives.h. Latch and mutex are state machines: every thread
-- has a program counter, a step is one access of shared state, `Step` picks any thread, and `Reach` is
-- any sequence of steps; so is the lock of utils/atomutex.h.
--   AsyncLatch       `async_latch`: `count_down`, the `start` of a wait state, `notify_waiters_`. The
--                    waiting stack is seen through AtomicStack.Laws. AsyncLatch.Invariant holds in
--                    every reachable state, AsyncLatch.Safety draws what follows for a client.
--   AsyncMutex       `async_mutex`: lock states, `try_lock`, `unlock`. AsyncMutex.Moves shows that every
--                    step keeps AsyncMutex.Invariant; AsyncMutex.Reversal is the loop of `unlock` on its
--                    links, which the steps take for `reverse`.
--   AsyncSemaphore   `async_semaphore`: `try_acquire`, `start`, `release`, `unregister_`. An operation
--                    that holds `mtx_` is one step. The waiting list is doubly linked
--                    (AsyncSemaphore.Chain, AsyncSemaphore.Unlink); AsyncSemaphore.Permits follows the
--                    permits along any sequence of operations.
--   Atomutex         utils/atomutex.h: the lock that guards the list of the semaphore, with the threads that
--                    block in `wait` on its flag.
--
-- Containers.
--   FlatBuffer       utils/flat_buffer.h: the buffer with its read and write positions, 64-bit sizes with
--                    wrap-around, exceptions as results, the allocator as a parameter.
--   StreamBuffer     utils/streambuf.h: the get area and the put area of a `std::streambuf` over a vector, whose
--                    `resize` is a parameter; StreamBuffer.Dynamic fills DynamicBuffer with it.
--   InplaceVector    utils/inplace_vector.h: a storage of slots, in which an object is or is not alive,
--                    the operations that construct behind the last one (Laws, Fill), and those inside of it
--                    (Editing, with Insert, Erase and Assign). The copy constructor of the elements is a
--                    parameter and may throw.
--   RetainPtr        utils/retain_ptr.h: `retain_ptr` variables on objects that derive from `retain_base`; any
--                    sequence of assignments, resets and swaps, each of them one step.
--
-- Algorithms on devices, include/coio/asyncio/io.h. A device is a parameter, one call of `read_some` or
-- `write_some` on a state; `Supplies` and `Accepts` say what is documented of it: it moves no more than it
-- is given room for, and something, or it fails.
--   Transfer         `read`, `write`, `read_at`, `write_at` on a span; `async_read` on
--                    `transfer_bytes_sender` (Transfer.Async, Transfer.Counting), `async_write`
--                    (Transfer.AsyncWrite), the forms at an offset (Transfer.AsyncAt), and all of them on
--                    a dynamic buffer (Transfer.Dynamic).
--   DynamicBuffer    the concept `dynamic_buffer` as a record of operations and promises, which the
--                    algorithms take as a parameter; DynamicBuffer.Flat fills it with FlatBuffer.
--   ReadUntil        `read_until`; its searches (ReadUntil.Search), its loop (ReadUntil.Loop), and
--                    `async_read_until` on `read_until_state` (ReadUntil.Async).
--
-- The life of an operation, include/coio/execution_context.h.
--   OperationPhase   `operation_phase`: the thread in `start`, the stop callback and the thread that takes the
--                    operation from the backend are interleaved. OperationPhase.Invariant says who has the
--                    operation, OperationPhase.Safety what follows.
--
--   TimeLoop         execution_context.h, the loop of `time_loop` on OpQueue and TimerQueue, whose
--                    operations share their links: TimeLoop.Publishing is `publish_pending`, Passing a
--                    round of the loop, Polling and Waking are `do_one` without and with waiting, and
--                    Sleeping is the start and the cancellation of a sleep. What a completion does,
--                    and what the other threads do between the calls of a round, are parameters.
--
-- Base has the numbers, lists and results (Base.Outcome) that the parts share.
--
-- Loops. The loops over intrusive chains run on fuel. A chain that is longer than the fuel is no
-- result (`none`), and the laws ask for as much fuel as there are nodes, or one more, and then prove a
-- result. The doubling loop of FlatBuffer has 64 rounds; since it starts at 512 bytes at least, it
-- reaches any 64-bit size within them (FlatBuffer.Growth). A transfer has as many rounds as the buffer
-- has bytes, and `read_until` one more than its buffer can hold, since every round moves a byte. A pass
-- over the children in TimerQueue has one round more than there are operations, and so has
-- `take_ready_timers`. TimeLoop has one fuel for all of these, and a wakeup for each round. All other
-- loops are structural recursions.
--
-- Not modelled: memory orders (all accesses are sequentially consistent), the allocation and release
-- of coroutine frames, the senders' types, the run loops of the I/O contexts, sockets and files, which
-- call the operating system. The counters of latch, semaphore and `retain_base` are natural numbers.
-- That a wait state is not destroyed before its receiver was called is assumed.
pub mod Base
pub mod FlatBuffer
pub mod Links
pub mod OpQueue
pub mod IntrusiveList
pub mod AtomicStack
pub mod AsyncLatch
pub mod AsyncMutex
pub mod AsyncSemaphore
pub mod InplaceVector
pub mod Atomutex
pub mod Transfer
pub mod DynamicBuffer
pub mod ReadUntil
pub mod OperationPhase
pub mod StreamBuffer
pub mod RetainPtr
pub mod ObjectPool
pub mod TimerQueue
pub mod TimeLoop
