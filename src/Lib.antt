-- ===== src/Lib.antt =====
-- Work Queue, a master that sends tasks to workers, and the containers of dttools it is built on.
--
-- The program. An application submits tasks to a `struct work_queue`; the master keeps the tasks
-- that are ready, running, finished and complete, decides by each task's resource labels which
-- worker may take it, commits it there and reaps it. All paths are under queue/cctools.
--
-- Parts:
-- - Prelude: shared names, Boolean tests, lists over the native numbers, the integers.
-- - Tables: the chained hash tables of dttools/src. Tables/Key and Tables/Chain are the bucket lists;
--   Tables/Core is the struct with its cursor and the operations (insert, lookup, remove,
--   double_buckets, first, next) that itable.c, hash_table.c and set.c write out three times.
--   Tables/Placed, Insert, Iterate, Move and Remove hold the lemmas about them.
--   Tables/Itable, Tables/HashTable and Tables/Set are the three files' own functions;
--   Tables/Jenkins is the hash function of hash_table.c (`jenkins_hash`, `mix`, `hash_string`).
-- - Strings: routines of dttools/src on texts. Path is path.c (`path_split`, `path_split_multi`,
--   `path_remove_trailing_slashes`), Url is url_encode.c, Match and Quotes are `string_match` and
--   `string_split_quotes` of stringtools.c: patterns, and command lines cut into arguments;
--   Search is `strpos`, `strrpos` and `string_prefix_is`.
-- - Lists: list.c of dttools/src on nodes in memory. Lists is `struct list` and the functions at its
--   ends, `list_remove` and `list_splice`; Lists/Loops is `list_split`, `list_find`,
--   `list_iterate` and `list_delete`; Lists/Heap the memory, in which a wrong access is a fault.
--   Lists/Linked and Relink are about linked nodes; Ends, Pops, Remove, Split, Splice and Walks about
--   the functions, and Lists/Deque about sequences of calls. The other parts use native lists for it.
-- - WorkQueue: work_queue/src. Resources is work_queue_resources.c; Task is
--   `work_queue_task_create` and `work_queue_task_specify_*`; Aggregate is
--   `aggregate_workers_resources` (its laws in Aggregate/Sums); Master is `struct work_queue`,
--   `check_worker_against_task`, `commit_task_to_worker` and `reap_task_from_worker`; Accounting,
--   Commit and Admit hold the laws of its books; Cleanup is `cleanup_worker`; Schedule is the
--   `find_worker_by_*` functions and `find_best_worker`, with their contract in Schedule/Choice;
--   Transfer is `send_input_file(s)` and `get_output_file(s)`; Failure is `remove_worker` and the
--   `handle_*_failure` functions; Submit is `work_queue_submit`; Start is `start_one_task`,
--   `start_task_on_worker`, `available_workers` and `start_tasks`; Receive is `process_result`,
--   `process_available_results`, `fetch_output_from_worker`, `add_task_report` and `receive_tasks`;
--   Cancel is `work_queue_cancel_by_taskid`, and Cancel/All `work_queue_cancel_all_tasks`, which is no
--   step of the runs. Wait is `work_queue_create`, the task that
--   `work_queue_wait` returns, and `work_queue_empty`; Join is `add_worker`, `process_workqueue` and
--   `process_resource`; Release is `work_queue_shut_down_workers` and `work_queue_reset`.
--   Places is the abstract view of the master: a task is with the application, ready, running or
--   finished at a worker, or complete. Places/Held, Moves, Frame and Lists say what the tables have to do
--   when a task moves; the Sound modules show it of each operation. Steps has the runs of the
--   operations and of the places, with the events that the application sees; Steps/Refine relates
--   them, Steps/Counted counts the tasks that the master has, Steps/Loops and Ends cover the loops.
-- - Process: the worker, work_queue/src/work_queue_worker.c. Process is its state, `start_task`,
--   `check_for_resources` and the loop of `work_for_master` that starts tasks; Process/Collect is
--   `handle_tasks`, Process/Report `report_tasks`, Process/Kill `do_kill`, `kill_all_tasks` and
--   `handle_master`. Process/Served and Turns are about the start of tasks, Process/Tally and its
--   children about the resources that are held, Process/Steps about the runs, Process/Leaks about
--   resources that are lost. The master and the worker share Task and Resources.
-- - Examples: runs on concrete inputs.
--
-- Bounds and fuel. An insertion nests one doubling, since a table of twice the buckets is not
-- overloaded while the entries move: its depth is 2. The loop of a doubling has one round more than
-- there are entries. A table has fewer than 2^22 buckets, so that the test of the load, a quotient of
-- floats, is exact and no `int` overflows. The loop of `string_split_quotes` has a round for each byte.
-- The loops that start tasks and fetch outputs take a list of what their turns meet, and end with it,
-- as the code does when the time is over; a turn for each finished task is enough to fetch them all.
-- The loop of a worker that starts tasks has a turn for each waiting task, `handle_tasks` a walk for
-- each active one and one more; both are enough. `kill_all_tasks` takes the list of what `wait` returns.
-- Resource counts and the numbers of tasks do not overflow. Words of the hash have 64 bits.
--
-- The one cursor of the worker table is modelled by its effect: `remove_worker` leaves it at the end, so
-- the walks of `release_all_workers` and `work_queue_shut_down_workers` are over behind it.
--
-- Not modelled: failures of malloc, but for the memory of an output; printing and logging; the network,
-- the files and the clock, whose outcomes are arguments; `list_push_priority`, `list_sort` and
-- `list_duplicate`; monitoring, cancellation by tag, fast abort and keepalives, and the loop of
-- `work_queue_wait` around these; what the signals of a worker do, but for one that reaches the worker
-- itself; foremen; how a worker finds its master and moves files; chirp. Parameters stand for
-- `make_cached_name`, which digests by MD5, `rand`, the products of doubles, `isspace`, `sscanf`
-- and a `memcpy` whose regions overlap.
pub mod Examples
pub mod Lists
pub mod Prelude
pub mod Process
pub mod Strings
pub mod Tables
pub mod WorkQueue
