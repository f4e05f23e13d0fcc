-- ===== src/Lib.antt =====
-- A model of the Streem runtime, the C files under src/, and what its theorems show.
--
-- Streem runs a program as a graph of streams. A stream has a mode, callbacks, a queue of tasks and
-- the streams it gives values to. A callback takes one value and emits others, and each emitted
-- value becomes a task of every stream downstream. Workers take streams off two global queues and
-- run their tasks. A stream closes when its upstreams have closed, or when nobody takes its values.
--
-- The files, and the code that each is about:
--   * Base: lists and tests over the machine's natural numbers, 32-bit integers, the status of a
--     call (`STRM_OK`, `STRM_NG`, and a failed assertion or an access outside memory).
--   * Value (src/strm.h, src/value.c, src/array.c, src/string.c): the dynamic values. Value.Box is
--     about the 64-bit words, Value.Equal about `strm_value_eq`, Value.Dump about `str_dump`.
--   * Khash: the interface of src/khash.h, a copy of a library, with its documented laws; the
--     definitions that use a table take it as a parameter. Khash.Assoc is an instance for the tests.
--   * Env (src/env.c): variables in the frames of a scope and in the globals; Env.Lookup and
--     Env.Copy have the theorems.
--   * Args (src/args.c): `strm_parse_args`; Args.Accept says what it accepts.
--   * Queue (src/queue.c with NO_LOCKFREE_QUEUE, the default build): the linked list in its own
--     memory. Queue.Chain is the invariant, Queue.Fifo and Queue.Free are about single operations,
--     Queue.Trace about sequences of them.
--   * Core (src/core.c): the streams, `strm_emit`, `strm_stream_connect`, `strm_stream_close`,
--     `task_exec`, and a round of `task_loop`. Core.Push, Core.Emit and Core.Close are about
--     single operations, Core.Schedule and Core.Round about the streams that have tasks and the
--     queues that they wait in. The queues are lists here. Core.Workers is the loop of several
--     workers, step by step, with Core.Exclusive about its flag.
--   * Latch (src/latch.c): the latch on its two queues; Latch.Pairing.
--   * Kvs (src/kvs.c): the store and transactions; Kvs.Store, Kvs.Commit, Kvs.Retry.
--   * Iter (src/iter.c): the callbacks as functions from a stream's data and a value to what the
--     call did, and runs of them over a list of values. Iter.Map, Iter.Bound, Iter.Fold, Iter.Window
--     (Iter.Cut, Iter.Consec) and Iter.Source go by what the callbacks do.
--   * Node (src/node.h) and Exec (src/exec.c, with src/ns.c): the tree and the interpreter. Exec has
--     the memory: states, tables, lambdas and generic functions at addresses. Exec.State is what the
--     interpreter does with states, Exec.Match `pmatch` and `pattern_match`, Exec.Eval `exec_expr`
--     and the functions it calls (Exec.Eval.Parts has what they are made of), Exec.Run the stages of
--     a pipe. Exec.Extends and Exec.Fuel are
--     about fuel, Exec.Keep, Exec.Once, Exec.Within and Exec.Assign about variables, Exec.Block
--     about the stages.
--   * Csv (src/csv.c): the fields of a line; Csv.Convert their values, Csv.Line the callbacks.
--     Csv.Count, Csv.Rows and Csv.Quoted have the theorems.
--   * Sort (src/sort.c): the comparisons; Sort.Stream the callbacks; Sort.Library what the C
--     library's qsort does, Sort.Order, Sort.Room and Sort.Sorted the theorems.
--   * Text (src/string.c): Text.Split, Text.Chars, Text.Intern (the making and interning of
--     strings) and Text.Canonical. Array (src/array.c): Array.Reverse. Number
--     (src/number.c): Number.Wrap.
--   * Node.Escape (src/node.c): the escapes of a string literal; Node.Quote sets them against
--     `str_dump` of src/value.c. Node.Build (src/node.c) is what builds the tree, with the memory that
--     lists have; Node.Headers is about the labels of an array.
--   * Io (src/io.c): the reader of lines, with the tasks that it asks for. Io.Lines is what lines are,
--     Io.Waiting and Io.Mapped are about the two ways to read.
--   * Stat (src/stat.c): Stat.Sum, Stat.Window and Stat.Spread have the code; Stat.Exact, Stat.Arrays
--     and Stat.Rolling the theorems.
--   * Random (src/random.c): the generator and samples; Random.Places, Random.Sample.
--   * Time (src/time.c): zones and `struct timeval`; Time.Parse reads times, Time.Make makes them;
--     Time.Carry, Time.Zone, Time.Offset and Time.Reading have the theorems.
--   * Graph (src/graph.c): the bars; Graph.Shown.
--   * The Tests modules apply the theorems to concrete inputs.
--
-- Conventions. An `int32_t` is its pattern below 2 ^ 32, with the wrap-around written out; a double
-- is its pattern, with the machine's operations as the parameter `FloatOps`. An address is a number,
-- and NULL is `none`. A failed assertion and an access outside memory are results (`abort`, `none`).
-- The functions of the program that callbacks call are parameters. Code that holds a mutex for all
-- of its work is one step; where it lets go of the mutex to call the program, the state after the
-- call is a parameter.
--
-- Seconds, offsets and microseconds are integers. Where C leaves it undefined that a signed number
-- is too large, the model goes on with the number, but for what `parse_tz` computes, the length in
-- `readline_cb` and the capacities in src/sort.c, which are 32 bits wide. `task_round` is told which
-- streams other workers hold.
--
-- Fuel: `source` counts the calls of a producer, for which the theorems name a sufficient number;
-- `run_tasks` counts the tasks of one round, which a callback may extend without end; `kvs_retry`
-- counts the calls of a transaction's function; `free_nodes` counts nodes, and the length of the
-- queue is enough. Each call of the interpreter spends one unit; Exec.Fuel is about
-- more of it. A turn of `str_chars` spends one, and the number of bytes is enough. A task of a reader
-- takes one number of the schedule, and three for each byte, and one more, are enough. A turn of
-- `timeradd` and `timersub` spends one, and the number of microseconds is enough.
--
-- Not modelled: the generated parser, nodes of patterns and what frees nodes, mathematics, the
-- thread that waits for epoll, what is written, sockets and signals, normally distributed random
-- numbers; `strm_connect` as the interpreter calls it, medians; what the tasks do while several
-- workers run, and the lock-free variant of the queue; memory that runs out, but for the nodes
-- of a queue and the slots of a hash table.
pub mod Base
pub mod Value
pub mod Khash
pub mod Env
pub mod Args
pub mod Queue
pub mod Core
pub mod Latch
pub mod Kvs
pub mod Iter
pub mod Node
pub mod Exec
pub mod Csv
pub mod Sort
pub mod Text
pub mod Array
pub mod Number
pub mod Io
pub mod Stat
pub mod Random
pub mod Time
pub mod Graph
