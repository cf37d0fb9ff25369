-- ===== src/WorkQueue/Submit.antt =====
-- `work_queue_submit` of work_queue.c, without monitoring. A task number is an `int` in the code; the
-- model's numbers do not overflow.
pub mod Fresh
pub mod Sound
use cyque.Prelude.{ℕ, ◌+◌, Bool, Option, none, List, [], ◌∷◌, ◌++◌, if◌then◌else◌}
use cyque.WorkQueue.Master.{Pointer, Queue, write}
use cyque.WorkQueue.Task.{Task}

-- "If the task has been used before, clear out accumulated state."
unfoldable pub clear_state : ℕ → Task → Task
clear_state now t = record t {
  output = none;
  hostname = none;
  total_bytes_received = 0;
  total_bytes_sent = 0;
  total_transfer_time = 0;
  cmd_execution_time = 0;
  result = 0;
  time_task_submit = now;
}

-- `work_queue_submit_internal`, at the time `now`; its result is the number of the task
unfoldable pub submit_internal : ℕ → Queue → Pointer → ℕ × Queue
unfolding clear_state
submit_internal now q tp =
    let t = q.task tp in
    (
      t.taskid,
      record q {
        task = write q.task tp (clear_state now t);
        ready_list = if q.lifo then tp ∷ q.ready_list else q.ready_list ++ tp ∷ [];
        total_tasks_submitted = q.total_tasks_submitted + 1;
      },
    )

unfoldable pub submit : ℕ → Queue → Pointer → ℕ × Queue
unfolding submit_internal
submit now q tp =
    submit_internal now
      (record q {
        task = write q.task tp (record (q.task tp) { taskid = q.next_taskid });
        next_taskid = q.next_taskid + 1;
      })
      tp
