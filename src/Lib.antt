-- ===== src/Lib.antt =====
-- eframework: a C framework of coroutines over non-blocking system calls.
--
-- The program. A pool of coroutines (src/coroutine.c) runs fibers, which are stacks that are
-- switched in user space (src/fiber.c). A coroutine that would block registers its descriptor with a
-- back end and yields; the framework (src/framework.c) waits on the back end and resumes the
-- coroutines whose descriptors have events. The back ends (src/poll.c, src/epoll.c, src/epollet.c,
-- src/port.c) implement the table of functions in src/poll.h. The protocols stand on buffers,
-- strings, vectors, a hash table, tables of strings and of headers,
-- and buffered input and output (src/structure/).
--
-- The files.
--   Base, Base/*: names passed on from the libraries, tests, lists over the native numbers, machine
--     words (`_ % 2 ^ 64`), single bits, and C's signed integers.
--   Structure/Memory: blocks of memory as lists of cells, malloc and realloc as answers of an
--     allocator, and memcpy as a write that is a fault outside of its block.
--   Structure/Util, Buffer, Vector, Str, BufferIo, HashTable, StringTab, HeaderTab, DList:
--     src/structure/util.h, buffer.c, vector.c, string.c, bufferio.c, hashtable.c, stringtab.c,
--     headertab.c, list.h, one function for each of theirs, named as there
--     without the prefix (`ef_buffer_append` is `Buffer.append`).
--   Table: the pair of arrays that both back ends keep, from descriptors to positions and back.
--   Poll, Epollet: src/poll.c and src/epollet.c. `create`, `expand`, `associate`, `dissociate`,
--     `unset` and `wait` are their functions; the parts of a function have names of their own.
--   Epoll, Port: src/epoll.c and src/port.c, whose table is the kernel's; the kernel is a parameter.
--     Their Session files are the wrapped system calls of src/framework.c over these back ends.
--   Fiber: src/fiber.c, src/fiber.h, and the end of a fiber in src/amd64/fiber.s.
--   Coroutine: src/coroutine.c and src/coroutine.h.
--   Framework/Wrapped: `ef_routine_read`, `write`, `recv`, `send` (one body, `routine_io`), and connect,
--     close and `ef_proc`. Framework/Queue: the accept queues and the start of coroutines.
--     Framework/Loop, Framework/Loop/Run: the turns and the end of `ef_run_loop`, and its set-up.
--   FastCgi/Params, FastCgi/Response: `fcgi_parse_params` and `fcgi_write_response` of src/fastcgi.c.
--   Redis, Redis/Array: the reading of replies in src/redis.c, `ef_redis_read_reply` and all below it;
--     Redis/Command: `ef_redis_cmd` and `ef_redis_get`.
--   Basic: src/basic/basic.c.
--   A file called Tests runs the theorems on small inputs.
--
-- Conventions. State is a record and is passed on. An allocation, a system call and the kernel's
-- answer are parameters: a flag, an allocator, or a script of answers. An array is a function from
-- positions with its capacity beside it where the bounds are part of the invariant, and a block with
-- checked accesses elsewhere. -1 in an index is `none`. Descriptors, counts and capacities are
-- numbers that are not negative; their `int` overflow is outside of the model, while `size_t` and
-- `uint32_t` arithmetic wraps. The machine is x86_64.
--
-- Rounds. `Buffer.append` runs `copy_data:` at most twice, and two rounds are enough. The walks of
-- the hash table and its `alloc_bucket:` take their rounds as an argument. The loops of bufferio.c
-- follow the script of answers; what is still in its loop when the script ends is `unfinished`.
-- So do the wrapped system calls, with one script of wake-ups and one of answers, the accept loop,
-- and the reads of a redis reply. The loop over the queues takes as many rounds as connections wait,
-- `ef_run_loop` one round per turn, `fcgi_parse_params` as many as there are bytes, and arrays in
-- redis arrays their depth.
--
-- Not modelled: the switch of stacks, the signal handler, the kernel, freeing of memory beyond the
-- contents that are given up; `fcgi_read_request`; connecting and freeing of replies in
-- src/redis.c; src/http.c, which stands on the tables, and the example in src/main.c.
pub mod Base
pub mod Structure
pub mod Table
pub mod Poll
pub mod Epollet
pub mod Fiber
pub mod Coroutine
pub mod Framework
pub mod Epoll
pub mod Port
pub mod FastCgi
pub mod Redis
pub mod Basic
