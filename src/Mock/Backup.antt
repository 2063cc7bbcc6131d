-- ===== src/Mock/Backup.antt =====
-- Scheduled and immediate backups: proxmox/mockpve/pbs.go.
use proxmox_go_sdk.Mock.Guests.{Same, SameData}
use proxmox_go_sdk.Base.{◌≡◌, refl, suc, true, not, [], ◌++◌, if◌then◌else◌, Bool-cases, inl, inr}
use proxmox_go_sdk.Base.Eq.{◌==◌, text_Eq}
use proxmox_go_sdk.Base.Text.{Text, text, is_empty}
use proxmox_go_sdk.Base.Number.{pos, itoa}
use proxmox_go_sdk.Mock.{
  State, Request, Handler, passed, ◌>>=◌, ◌>>◌, refuse_if, respond, Form, form_get, backup_job,
  backup_jobs, null,
}
use proxmox_go_sdk.Mock.BackupRecords.{BackupJobRecord, BackupJobPayload}
use proxmox_go_sdk.Mock.Store.{finished_task}
use proxmox_go_sdk.Mock.Server.{check_auth, parse_form}
use proxmox_go_sdk.Mock.Vm.{task_data}
use proxmox_go_sdk.Mock.Ha.{flag}
use proxmox_go_sdk.Mock.Checks.{then-Grants, bind-Grants, respond-keeps}
use proxmox_go_sdk.Mock.Store.Reads.{vms-finished_task}
use proxmox_go_sdk.Mock.Collection.{
  Collection, path_value, text_or, flag_or, put_record, handle_all, handle_one, handle_change,
  handle_drop,
}
use proxmox_go_sdk.Mock.Collection.Keeps.{
  handle_all-keeps, handle_one-keeps, handle_change-keeps, handle_drop-keeps,
}

unfoldable pub backup_payload : BackupJobRecord → BackupJobPayload
backup_payload rec = record {
  id = rec.id;
  schedule = rec.schedule;
  storage = rec.storage;
  mode = rec.mode;
  enabled = flag rec.enabled;
  mailto = rec.mailto;
  comment = rec.comment;
}

abbrev pub job_records : Collection BackupJobRecord
job_records = record {
  entries = λ s. s.pbs.jobs;
  set_entries = λ m s. record s { pbs = record s.pbs { jobs = m } };
  missing = text "no such backup job";
  payload = λ rec. backup_job (backup_payload rec);
  entries_set = λ m s. refl;
}

unfoldable pub add_backup_job : Text → Text → Text → State → State
add_backup_job id storage schedule = put_record job_records id (record {
  id = id;
  schedule = schedule;
  storage = storage;
  mode = text "snapshot";
  enabled = true;
  mailto = [];
  comment = [];
})

unfoldable pub handle_job_list : Handler
handle_job_list = handle_all job_records backup_payload backup_jobs

unfoldable pub handle_job_get : Handler
handle_job_get r = handle_one job_records (path_value r (text "id")) r

unfoldable pub new_job : Form → Text → BackupJobRecord
new_job form id = record {
  id = id;
  schedule = form_get form (text "schedule");
  storage = form_get form (text "storage");
  mode = form_get form (text "mode");
  enabled = not (form_get form (text "enabled") == text "0");
  mailto = form_get form (text "mailto");
  comment = form_get form (text "comment");
}

-- the id that comes next
abbrev pub next_id : State → Text
next_id s = text "backup-" ++ itoa (pos (suc s.pbs.seq))

-- the job, under its own id or the next one
unfoldable pub put_job : Form → State → State
put_job form s =
    if is_empty (form_get form (text "id"))
    then put_record job_records (next_id s) (new_job form (next_id s))
        (record s { pbs = record s.pbs { seq = suc s.pbs.seq } })
    else put_record job_records (form_get form (text "id"))
        (new_job form (form_get form (text "id"))) s

unfoldable pub handle_job_create : Handler
handle_job_create r s = respond s (do
  check_auth r s
  form ← parse_form r
  refuse_if (is_empty (form_get form (text "storage"))) 400 (text "missing storage")
  passed (null, put_job form s))

unfoldable pub apply_job_form : Form → BackupJobRecord → BackupJobRecord
apply_job_form form rec = record rec {
  schedule = text_or rec.schedule form (text "schedule");
  storage = text_or rec.storage form (text "storage");
  mode = text_or rec.mode form (text "mode");
  mailto = text_or rec.mailto form (text "mailto");
  comment = text_or rec.comment form (text "comment");
  enabled = flag_or rec.enabled form (text "enabled");
}

unfoldable pub handle_job_update : Handler
handle_job_update r = handle_change job_records (path_value r (text "id")) apply_job_form r

unfoldable pub handle_job_delete : Handler
handle_job_delete r = handle_drop job_records (path_value r (text "id")) r

unfoldable pub handle_vzdump : Handler
handle_vzdump r s = respond s (do
  check_auth r s
  form ← parse_form r
  refuse_if (is_empty (form_get form (text "storage"))) 400 (text "missing storage")
  passed (task_data (finished_task r.node (text "vzdump") (text "vzdump") r.clock s)))

pub data BackupRoute : Type 0 where
  get_jobs : BackupRoute
  post_jobs : BackupRoute
  get_job : BackupRoute
  put_backup_job : BackupRoute
  delete_job : BackupRoute
  post_vzdump : BackupRoute

unfoldable pub serve_backup : BackupRoute → Handler
serve_backup get_jobs = handle_job_list
serve_backup post_jobs = handle_job_create
serve_backup get_job = handle_job_get
serve_backup put_backup_job = handle_job_update
serve_backup delete_job = handle_job_delete
serve_backup post_vzdump = handle_vzdump

vms-put_job : (form : Form) (s : State) → Same s (put_job form s)
unfolding put_job put_record
vms-put_job form s = elim (Bool-cases (is_empty (form_get form (text "id")))) [
  | inl e ↦ rw e refl
  | inr e ↦ rw e refl
]

vms-handle_job_create : (r : Request) (s : State) → Same s ((handle_job_create r s).1)
unfolding handle_job_create
vms-handle_job_create r s = respond-keeps (Same s) s _ refl (
    then-Grants (SameData s) (check_auth r s) _ (λ _.
      bind-Grants (SameData s) (parse_form r) _
        (λ form _. then-Grants (SameData s) (refuse_if _ _ _) _ (λ _. vms-put_job form s))))

vms-handle_vzdump : (r : Request) (s : State) → Same s ((handle_vzdump r s).1)
unfolding handle_vzdump
vms-handle_vzdump r s = respond-keeps (Same s) s _ refl (
    then-Grants (SameData s) (check_auth r s) _ (λ _.
      bind-Grants (SameData s) (parse_form r) _ (λ form _.
        then-Grants (SameData s) (refuse_if _ _ _) _ (λ _. vms-finished_task r.node _ _ _ _))))

-- Whatever request for backups is served, every QEMU guest is as before.
pub vms-serve_backup :
    (route : BackupRoute) (r : Request) (s : State) → ((serve_backup route r s).1).vms ≡ s.vms
unfolding serve_backup handle_job_list handle_job_get handle_job_update handle_job_delete
vms-serve_backup get_jobs r s = handle_all-keeps job_records (Same s) (λ m t e. e) r s refl _ _
vms-serve_backup post_jobs r s = vms-handle_job_create r s
vms-serve_backup get_job r s = handle_one-keeps job_records (Same s) (λ m t e. e) r s refl _
vms-serve_backup put_backup_job r s =
    handle_change-keeps job_records (Same s) (λ m t e. e) r s refl _ _
vms-serve_backup delete_job r s = handle_drop-keeps job_records (Same s) (λ m t e. e) r s refl _
vms-serve_backup post_vzdump r s = vms-handle_vzdump r s
