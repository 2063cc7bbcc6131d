-- ===== src/Mock/Routes/Reports.antt =====
-- What the server reports of its tasks and tickets: proxmox/mockpve/handlers.go.
use proxmox_go_sdk.Base.{◌≡◌, refl, true, some, arith, ℕ}
use proxmox_go_sdk.Base.Eq.{text_Eq, eq_refl}
use proxmox_go_sdk.Base.Map.{lookup, lookup-insert}
use proxmox_go_sdk.Base.Text.{Text, text}
use proxmox_go_sdk.Mock.{Request, State, Form, respond, data_of, task, ticket, found_or, pos}
use proxmox_go_sdk.Mock.Store.{finished_task}
use proxmox_go_sdk.Mock.Store.Finished.{lookup_task-finished_task}
use proxmox_go_sdk.Mock.Server.{
  is_authorized, has_ticket, handle_task_status, handle_ticket, login, any_value, password_matches,
  ticket_of, csrf_of,
}
use proxmox_go_sdk.Mock.Vm.Lifecycle.{check_auth-passed}

-- The status of the task that a handler has answered with is read back at its node by every authorized
-- request as `stopped`, with exit status `OK`, the handler's type and id, the user `root@pam`, and the
-- clock of the handler's request as its start.
pub status-finished_task :
    (node kind id : Text) (clock : ℕ) (s : State) (r : Request)
    → r.node ≡ node
    → r.upid ≡ (finished_task node kind id clock s).0
    → is_authorized r (finished_task node kind id clock s).1 ≡ true
    → (handle_task_status r (finished_task node kind id clock s).1).0
      ≡ data_of (
          task (record {
            upid = (finished_task node kind id clock s).0;
            node = node;
            kind = kind;
            id = id;
            user = text "root@pam";
            status = text "stopped";
            exit_status = text "OK";
            pid = pos 1000;
            start_time = pos clock;
          }))
unfolding handle_task_status respond found_or finished_task
status-finished_task node kind id clock s r at_node at_upid allowed =
    rw
      (
        check_auth-passed r (finished_task node kind id clock s).1 allowed,
        at_node,
        at_upid,
        lookup_task-finished_task node kind id clock s,
      )
      refl

-- A request whose form can be read. A login with a user's own password answers with a ticket, and
-- from then on the server accepts every request with that ticket as its cookie.
pub login_accepted :
    (r q : Request) (s : State) (form : Form)
    → r.form ≡ some form
    → password_matches
        (any_value form r.query (text "password"))
        (lookup (any_value form r.query (text "username")) s.users)
      ≡ true
    → q.cookie ≡ some (ticket_of (any_value form r.query (text "username")))
    → ((handle_ticket r s).0
        ≡ data_of (
            ticket (record {
              ticket = ticket_of (any_value form r.query (text "username"));
              csrf = csrf_of (any_value form r.query (text "username"));
              username = any_value form r.query (text "username");
            })))
      × (is_authorized q (handle_ticket r s).1 ≡ true)
unfolding handle_ticket login is_authorized has_ticket
login_accepted r q s form parsed matches cookie =
    let user : Text = any_value form r.query (text "username") in
    (
      rw (handle_ticket, parsed, login, matches) refl,
      rw
          (
            handle_ticket,
            parsed,
            login,
            matches,
            is_authorized,
            cookie,
            has_ticket,
            lookup-insert (ticket_of user) (ticket_of user)
                (record { username = user; csrf = csrf_of user }) s.tickets,
            eq_refl (ticket_of user),
          )
          (ground arith),
    )
