-- ===== src/Mock/Server.antt =====
-- Authentication, login, the version and the tasks: proxmox/mockpve/server.go, handlers.go.
use proxmox_go_sdk.Base.{Bool, false, ◌||◌, not, Option, none, some, ◌∷◌, ◌++◌, if◌then◌else◌}
use proxmox_go_sdk.Base.Eq.{◌==◌, text_Eq}
use proxmox_go_sdk.Base.Map.{lookup, insert, contains}
use proxmox_go_sdk.Base.Text.{Text, text, cut_prefix, contains_text}
use proxmox_go_sdk.Mock.{
  State, Request, Handler, Checked, passed, ◌>>=◌, ◌>>◌, refuse_if, found_or, respond, version,
  ticket, task, log, Form, TaskRecord, TaskStatus, form_get, data_of, error_of, Response,
}
use proxmox_go_sdk.Mock.Store.{lookup_task}

abbrev pub authentication_failure : Text
authentication_failure = text "authentication failure"

-- a header of the form `PVEAPIToken=<id>=<secret>`
unfoldable pub has_token : Text → Bool
has_token authorization = elim (cut_prefix authorization (text "PVEAPIToken=")) [
  | none ↦ false
  | some rest ↦ contains_text rest (text "=")
]

unfoldable pub has_ticket : Option Text → State → Bool
has_ticket none s = false
has_ticket (some value) s = contains value s.tickets

unfoldable pub is_authorized : Request → State → Bool
is_authorized r s = has_token r.authorization || has_ticket r.cookie s

-- `checkAuth`
unfoldable pub check_auth : Request → State → Checked (Unit {0})
check_auth r s = refuse_if (not (is_authorized r s)) 401 authentication_failure

-- `parseForm`, which the handlers of qemu.go spell out
unfoldable pub parse_form : Request → Checked Form
parse_form r = found_or r.form 400 (text "invalid form body")

unfoldable pub handle_version : Handler
handle_version r s = respond s (do check_auth r s; passed (version s.version, s))

-- `Form.Get`: the body's value first, then the query's
unfoldable pub any_value : Form → Form → Text → Text
any_value form query key = elim (lookup key form) [ some (v ∷ vs) ↦ v | _ ↦ form_get query key ]

abbrev pub ticket_of : Text → Text
ticket_of user = text "mock-ticket-" ++ user

abbrev pub csrf_of : Text → Text
csrf_of user = text "mock-csrf-" ++ user

-- `ok && want == pass`
abbrev pub password_matches : Text → Option Text → Bool
password_matches pass none = false
password_matches pass (some want) = want == pass

unfoldable pub login : Text → Text → State → Response × State
login user pass s =
    if password_matches pass (lookup user s.users)
    then (
      data_of (ticket (record { ticket = ticket_of user; csrf = csrf_of user; username = user })),
      record s {
        tickets =
            insert (ticket_of user) (record { username = user; csrf = csrf_of user }) s.tickets;
      },
    )
    else (error_of 401 authentication_failure, s)

unfoldable pub handle_ticket : Handler
handle_ticket r s = elim r.form [
  | none ↦ (error_of 400 (text "invalid form body"), s)
  | some form ↦
      login (any_value form r.query (text "username")) (any_value form r.query (text "password")) s
]

abbrev pub task_payload : TaskRecord → TaskStatus
task_payload t = record {
  upid = t.upid;
  node = t.node;
  kind = t.kind;
  id = t.id;
  user = t.user;
  status = if t.stopped then text "stopped" else text "running";
  exit_status = t.exit_status;
  pid = t.pid;
  start_time = t.start_time;
}

unfoldable pub handle_task_status : Handler
handle_task_status r s = respond s (do
  check_auth r s
  t ← found_or (lookup_task r.node r.upid s) 404 (text "no such task")
  passed (task (task_payload t), s))

unfoldable pub handle_task_log : Handler
handle_task_log r s = respond s (do
  check_auth r s
  t ← found_or (lookup_task r.node r.upid s) 404 (text "no such task")
  passed (log t.log, s))
