-- ===== src/Mock/Store/Finished.antt =====
-- The task that a handler reports is over: proxmox/mockpve/qemu.go, read back by proxmox/tasks.
use proxmox_go_sdk.Base.{ℕ, ◌<◌, ◌≡◌, refl, List, [], ◌∷◌, some, arith, true}
use proxmox_go_sdk.Base.Eq.{text_Eq, text_eq, eq_refl}
use proxmox_go_sdk.Base.Map.{lookup, insert, lookup-insert}
use proxmox_go_sdk.Base.Text.{Text, text, colon, join, split, split-join, Lacks}
use proxmox_go_sdk.Base.Number.{pos, parse_int, parse_int-format_nat, format_nat, two63}
use proxmox_go_sdk.Pverr.{ok}
use proxmox_go_sdk.Tasks.Upid.{TaskId, parse_upid, parse_parts}
use proxmox_go_sdk.Tasks.Upid.RoundTrip.{hex-Lacks-colon}
use proxmox_go_sdk.Mock.{State, TaskRecord}
use proxmox_go_sdk.Mock.Store.{
  synth_upid, finished_task, finish_task, add_task, lookup_task, new_task, task_user, put_task,
  or_empty_map,
}

-- The identifier that a synthetic task stands for.
abbrev pub synthetic : Text → Text → Text → ℕ → TaskId
synthetic node kind id clock = record {
  raw = synth_upid node kind id clock;
  node = node;
  pid = pos 1;
  pstart = pos 1;
  start_time = pos clock;
  kind = kind;
  id = id;
  user = task_user;
}

abbrev upid_parts : Text → Text → Text → ℕ → List Text
upid_parts node kind id clock =
    text "UPID"
    ∷ node
    ∷ text "00000001"
    ∷ text "00000001"
    ∷ format_nat 16 clock
    ∷ kind
    ∷ id
    ∷ task_user
    ∷ []
    ∷ []

module _ (node kind id : Text) (clock : ℕ) (node_clean : Lacks colon node)
    (kind_clean : Lacks colon kind) (id_clean : Lacks colon id) (fits : clock < two63) where
  split-synth_upid : split colon (synth_upid node kind id clock) ≡ upid_parts node kind id clock
  unfolding synth_upid join
  split-synth_upid = split-join colon (text "UPID") _ (
    omega arith,
    (
      node_clean,
      (
        omega arith,
        (omega arith, (hex-Lacks-colon clock, (kind_clean, (id_clean, (omega arith, (tt, tt)))))),
      ),
    ),
  )

  -- Decoding the identifier of a synthetic task gives its node, type and id back, with the fixed pid
  -- and the clock's time, when none of the three texts holds a colon.
  pub parse_upid-synth_upid :
      parse_upid (synth_upid node kind id clock) ≡ ok (synthetic node kind id clock)
  unfolding parse_upid parse_parts text_eq parse_int
  parse_upid-synth_upid =
      rw (split-synth_upid, parse_int-format_nat 16 (omega arith) (omega arith) clock fits) refl

-- The record of a task that ended well.
abbrev pub over : Text → Text → Text → ℕ → TaskRecord
over node kind id clock =
    record (new_task node (synth_upid node kind id clock) kind id task_user (pos clock) []) {
      stopped = true;
      exit_status = text "OK";
    }

lookup_task-put_task :
    (node upid : Text) (t : TaskRecord) (s : State)
    → lookup_task node upid (put_task node upid t s) ≡ some t
unfolding lookup_task
lookup_task-put_task node upid t s =
    rw
      (
        lookup-insert node node (insert upid t (or_empty_map (lookup node s.nodes))) s.nodes,
        eq_refl node,
        lookup-insert upid upid t (or_empty_map (lookup node s.nodes)),
        eq_refl upid,
      )
      refl

pub lookup_task-finished_task :
    (node kind id : Text) (clock : ℕ) (s : State)
    → lookup_task node (finished_task node kind id clock s).0 (finished_task node kind id clock s).1
      ≡ some (over node kind id clock)
unfolding finished_task finish_task add_task
lookup_task-finished_task node kind id clock s =
    let upid : Text = synth_upid node kind id clock in
    rw
      (
        finished_task,
        finish_task,
        add_task,
        lookup_task-put_task node upid (new_task node upid kind id task_user (pos clock) []) s,
      )
      (lookup_task-put_task node upid (over node kind id clock)
        (put_task node upid (new_task node upid kind id task_user (pos clock) []) s))
