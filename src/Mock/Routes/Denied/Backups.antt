-- ===== src/Mock/Routes/Denied/Backups.antt =====
-- Requests that are not let in: the handlers of proxmox/mockpve/pbs.go.
use proxmox_go_sdk.Base.{◌≡◌, false}
use proxmox_go_sdk.Mock.{Request, State, error_of}
use proxmox_go_sdk.Mock.Server.{is_authorized, authentication_failure}
use proxmox_go_sdk.Mock.Routes.Denied.{denied}
use proxmox_go_sdk.Mock.Backup.{
  BackupRoute, serve_backup, get_jobs, post_jobs, get_job, put_backup_job, delete_job, post_vzdump,
}
use proxmox_go_sdk.Mock.Backup.{
  handle_job_list, handle_job_create, handle_job_get, handle_job_update, handle_job_delete,
  handle_vzdump,
}
use proxmox_go_sdk.Mock.{respond}
use proxmox_go_sdk.Mock.Collection.{handle_all}
use proxmox_go_sdk.Mock.Collection.{handle_one}
use proxmox_go_sdk.Mock.Collection.{handle_change}
use proxmox_go_sdk.Mock.Collection.{handle_drop}

pub serve_backup_refused :
    (route : BackupRoute) (r : Request) (s : State)
    → is_authorized r s ≡ false
    → serve_backup route r s ≡ (error_of 401 authentication_failure, s)
unfolding serve_backup handle_job_list handle_job_create handle_job_get handle_job_update
    handle_job_delete handle_vzdump respond handle_all handle_one handle_change handle_drop
serve_backup_refused get_jobs r s h = denied r s _ h
serve_backup_refused post_jobs r s h = denied r s _ h
serve_backup_refused get_job r s h = denied r s _ h
serve_backup_refused put_backup_job r s h = denied r s _ h
serve_backup_refused delete_job r s h = denied r s _ h
serve_backup_refused post_vzdump r s h = denied r s _ h
