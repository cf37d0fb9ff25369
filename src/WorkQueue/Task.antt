-- ===== src/WorkQueue/Task.antt =====
-- The resources that a task asks for: `work_queue_task_create` and the `work_queue_task_specify_*`
-- functions of work_queue.c. A negative number stands for "not specified".
use cyque.Prelude.{
  Option, none, Bytes, ◌≡◌, refl, List, [], ◌∷◌, ℕ, Bool, true, false, ◌&&◌, arith, if◌then◌else◌,
}
use cyque.Prelude.Int.{ℤ, pos, negsuc, ltb_ℤ}

-- `work_queue_file_t`
pub data FileType : Type 0 where
  file buffer remote_cmd file_piece directory url : FileType

pub record File : Type 0 where
  pub type : FileType
  pub flags : ℕ
  pub payload : Bytes
  pub remote_name : Bytes

-- The fields of `struct work_queue_task` that the modelled operations read or write.
pub record Task : Type 0 where
  pub taskid : ℕ
  pub unlabeled : Bool
  pub cores : ℤ
  pub memory : ℤ
  pub disk : ℤ
  pub gpus : ℤ
  pub worker_selection_algorithm : ℕ
  pub total_submissions : ℕ
  pub time_committed : ℕ
  pub result : ℕ
  pub output : Option Bytes
  pub total_bytes_transferred : ℕ
  pub total_transfer_time : ℕ
  pub cmd_execution_time : ℕ
  pub time_execute_cmd_start : ℕ
  pub total_cmd_execution_time : ℕ
  pub input_files : List File
  pub output_files : List File
  pub return_status : ℤ
  pub hostname : Option Bytes
  pub total_bytes_received : ℕ
  pub total_bytes_sent : ℕ
  pub time_task_submit : ℕ
  pub time_task_finish : ℕ
  pub time_send_input_start : ℕ
  pub time_send_input_finish : ℕ
  pub time_execute_cmd_finish : ℕ
  pub time_receive_result_start : ℕ
  pub time_receive_result_finish : ℕ
  pub time_receive_output_start : ℕ
  pub time_receive_output_finish : ℕ

unfoldable pub create : Task
create = record {
  taskid = 0;
  unlabeled = true;
  cores = negsuc 0;
  memory = negsuc 0;
  disk = negsuc 0;
  gpus = negsuc 0;
  worker_selection_algorithm = 0;
  total_submissions = 0;
  time_committed = 0;
  result = 0;
  output = none;
  total_bytes_transferred = 0;
  total_transfer_time = 0;
  cmd_execution_time = 0;
  time_execute_cmd_start = 0;
  total_cmd_execution_time = 0;
  input_files = [];
  output_files = [];
  return_status = negsuc 0;
  hostname = none;
  total_bytes_received = 0;
  total_bytes_sent = 0;
  time_task_submit = 0;
  time_task_finish = 0;
  time_send_input_start = 0;
  time_send_input_finish = 0;
  time_execute_cmd_finish = 0;
  time_receive_result_start = 0;
  time_receive_result_finish = 0;
  time_receive_output_start = 0;
  time_receive_output_finish = 0;
}

abbrev pub negative : ℤ → Bool
negative n = ltb_ℤ n (pos 0)

unfoldable pub set_unlabel_flag : Task → Task
set_unlabel_flag t =
    if negative t.cores && negative t.memory && negative t.disk && negative t.gpus
    then record t { unlabeled = true }
    else t

unfoldable pub specify_memory : Task → ℤ → Task
unfolding set_unlabel_flag
specify_memory t memory = set_unlabel_flag (
    if negative memory
    then record t { memory = negsuc 0 }
    else record t { memory = memory; unlabeled = false })

unfoldable pub specify_disk : Task → ℤ → Task
unfolding set_unlabel_flag
specify_disk t disk = set_unlabel_flag (
    if negative disk
    then record t { disk = negsuc 0 }
    else record t { disk = disk; unlabeled = false })

unfoldable pub specify_cores : Task → ℤ → Task
unfolding set_unlabel_flag
specify_cores t cores = set_unlabel_flag (
    if negative cores
    then record t { cores = negsuc 0 }
    else record t { cores = cores; unlabeled = false })

unfoldable pub specify_gpus : Task → ℤ → Task
unfolding set_unlabel_flag
specify_gpus t gpus = set_unlabel_flag (
    if negative gpus
    then record t { gpus = negsuc 0 }
    else record t { gpus = gpus; unlabeled = false })

-- A task is unlabeled exactly if no resource is specified.
abbrev pub IsFlagged : Task → Type 0
IsFlagged t =
    t.unlabeled ≡ (negative t.cores && negative t.memory && negative t.disk && negative t.gpus)

-- The calls by which an application labels a task.
pub data Label : Type 0 where
  memory : ℤ → Label
  disk : ℤ → Label
  cores : ℤ → Label
  gpus : ℤ → Label

unfoldable pub specify : Task → Label → Task
unfolding specify_memory specify_disk specify_cores specify_gpus
specify t (memory n) = specify_memory t n
specify t (disk n) = specify_disk t n
specify t (cores n) = specify_cores t n
specify t (gpus n) = specify_gpus t n

specify_keeps : (t : Task) (l : Label) → IsFlagged t → IsFlagged (specify t l)
unfolding specify
specify_keeps t (memory n) h = ground arith
specify_keeps t (disk n) h = ground arith
specify_keeps t (cores n) h = ground arith
specify_keeps t (gpus n) h = ground arith

-- the tasks that calls of the four functions make of a new one
unfoldable pub specify_all : Task → List Label → Task
specify_all t [] = t
specify_all t (l ∷ ls) = specify_all (specify t l) ls

specify_all-IsFlagged : (t : Task) (ls : List Label) → IsFlagged t → IsFlagged (specify_all t ls)
unfolding specify_all
specify_all-IsFlagged t [] h = h
specify_all-IsFlagged t (l ∷ ls) h = specify_all-IsFlagged (specify t l) ls (specify_keeps t l h)

-- A task made by `work_queue_task_create` and any calls of the four `work_queue_task_specify`
-- functions, with whatever arguments, is flagged unlabeled exactly if all four resources are
-- unspecified.
pub create-IsFlagged : (ls : List Label) → IsFlagged (specify_all create ls)
create-IsFlagged ls = specify_all-IsFlagged create ls (unfold create in refl)
