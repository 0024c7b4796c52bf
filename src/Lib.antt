-- ===== src/Lib.antt =====
-- A verification library for magio, a coroutine network library in C++20 (src/magio-v3 in the
-- repository).
--
-- The parts, and how they interact. A CoroContext (core/coro_context.cpp) is an event loop on one
-- thread: it runs queued tasks, then the timers that are due, then waits in the service that it owns,
-- until a completion, a signal or the next deadline. A service carries out requests: IoService
-- (core/io_service.h, net/io_service.cpp) builds them, and IoUring (net/io_uring.cpp) or
-- IoCompletionPort (net/iocp.cpp) hands them to the system and calls their callbacks. Sockets, files
-- and pipes own the handles that the requests are for. Coroutines synchronise by Mutex and Condition
-- (core/mutex.cpp), which queue handles in contexts, and wait for one another by co_await, join, select
-- and series (core/coro.h, core/impl/coro.hpp). A ThreadPool (core/thread_pool.cpp) runs blocking
-- work, a CoroContextPool (core/coro_context_pool.cpp) runs one context per thread, and AsyncLogger
-- (utils/async_logger.h) writes log lines from all of them in a thread of its own, and Logger
-- (utils/logger.h) prints its own at once. What fails is told by a Result (core/error.h), and a callback
-- is held in a Functor (utils/functor.h).
--
-- Which file models which part.
--   Prelude          library names passed on; Boolean tests, lists, options and integers over the
--                    native numbers, and the lemmas on them that the parts share
--   Mutex            core/mutex.h, core/mutex.cpp: the flag and the queues; Mutex/System interleaves
--                    coroutines at the critical sections
--   PriorityQueue    what TimerQueue relies on in std::priority_queue, as an interface;
--                    PriorityQueue/Sorted is an instance, a sorted list
--   Timer            core/timer_queue.h, over any such queue, with a store for the shared timers;
--                    Timer/Bag is its abstract view, a quotient that forgets the order;
--                    Timer/Sleepers has sleep_for and sleep_until (core/impl/coro.hpp)
--   Context          core/coro_context.h, core/coro_context.cpp; Context/Loop is the loop of start,
--                    step by step, against other threads; Context/Waits is how long it waits in either
--                    service
--   ThreadPool       core/thread_pool.h, core/thread_pool.cpp; ThreadPool/System interleaves workers,
--                    clients in wait, and callers, at the condition variables,
--                    ThreadPool/Jobs has async and spawn_blocking
--   ContextPool      core/coro_context_pool.cpp and utils/wait_group.h, with the threads of the pool;
--                    ContextPool/Turns is the order in which contexts are handed out
--   Io, IoService    core/io_context.h and net/io_service.cpp: requests
--   IoUring          net/io_uring.cpp; IoUring/Poll has the loop of poll with the calls that callbacks
--                    make on the way, IoUring/History any number of rounds of it,
--                    IoUring/Callbacks what a round of completions must call, IoUring/Deliveries what
--                    it calls after any history
--   Iocp             net/iocp.cpp: the loop of poll; Iocp/Rounds is it against the packets, Iocp/Requests
--                    has the requests, Iocp/Startup the constructor
--   Handle           what the classes that own a handle share, as an interface, with the context that
--                    an object is attached to; Handle/Ownership is the abstract ledger of open handles,
--                    Handle/World the objects of a class, which keep that ledger
--   Result           core/error.h: Result and the operators that take one apart
--   Socket, File, Pipe   net/socket.cpp, core/file.cpp, core/pipe.cpp, in their Linux form; each fills
--                    the interface of Handle; Socket/Awaited, File/Awaited and Pipe/Awaited are what
--                    the awaitable forms and the callbacks hand back, File/Windows is the opening of
--                    files on Windows, File/Pending the files at their addresses while requests
--                    are pending,
--                    File/Sync the flushing
--   Acceptor         net/acceptor.cpp: listen with its calls of the system, and accept
--   Address          net/address.cpp, over any inet_pton and inet_ntop
--   Coro             core/coro.h: the frames of coroutines (Coro/Frames) and the objects that hold them,
--                    as a step relation (Coro/System), with what an assignment loses (Coro/Lost);
--                    core/impl/coro.hpp: join, select and series (Coro/Join); utils/traits.h: the
--                    places of their results (Coro/Types)
--   Generator        core/generator.h: the promises of a generator and its nested ones, and the loop over
--                    it
--   Functor          utils/functor.h, which fills the interface of Handle for callable objects
--   Logger           utils/logger.h: the filter and the line, over StaticBuffer; Logger/Pattern is the
--                    line as the fields of a pattern tell it
--   Buffer           utils/buffer.h
--   AsyncLogger      utils/async_logger.h; AsyncLogger/System interleaves writers, the background
--                    thread and the destructor, AsyncLogger/Files has the files that it opens
-- A function of the model has the name of the function it models; where two functions overload one
-- name, the class or the operation is added (accept_on, listen_on, slice_at). A file Tests below a
-- part runs its definitions and applies its theorems to concrete inputs.
--
-- How the state is modelled. A class is a record with the fields of the class, an operation a function
-- from the state and the arguments to the state afterwards and the result; a result of `none` is a
-- fatal error or undefined behaviour, as each file says. Concurrent parts have a step relation, one
-- step for each critical section and each call of a condition variable or a signal, and a relation of
-- reachable states; a theorem about all runs is an induction on it. Handles, pointers, callbacks,
-- contexts and threads are numbers; what a callback or a task does is a parameter. A lock is taken to
-- exclude and a condition variable to wake at least the threads it promises to; spurious wake-ups are
-- steps. The system's answers (results of requests, the order of completions, handles that it opens)
-- are arguments or steps without restriction but for those that the file states.
--
-- Bounds and fuel. size_t counters wrap at 2 ^ 64. The loops of the timer queue run on fuel, the number
-- of timers queued, which is enough since each round takes one off; the loop of IoCompletionPort::poll
-- runs the 1024 rounds of the source; a loop over a generator is given the size of the generator's body,
-- and so is each resumption, since each move of control takes something off what is left; all other
-- loops are recursions on a list. Buffers have the sizes of utils/buffer.h, or any size below 2 ^ 64. The
-- order of timers with equal deadlines is left open by the interface of the priority queue.
--
-- Not modelled: the text of an error code; the Windows form of the rest of files and pipes; the
-- socket options that IoCompletionPort sets. The other type traits, macros and examples have no
-- state. The printing of numbers, dates and addresses is the libraries'.
pub mod Acceptor
pub mod Address
pub mod AsyncLogger
pub mod Buffer
pub mod Context
pub mod ContextPool
pub mod Coro
pub mod File
pub mod Functor
pub mod Generator
pub mod Handle
pub mod Io
pub mod IoService
pub mod IoUring
pub mod Iocp
pub mod Logger
pub mod Mutex
pub mod Pipe
pub mod Prelude
pub mod PriorityQueue
pub mod Result
pub mod Socket
pub mod ThreadPool
pub mod Timer
