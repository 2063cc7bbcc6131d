-- ===== src/Tasks/Tests.antt =====
-- Tasks at concrete inputs: the first poll finds the task running, the second finds it stopped.
use proxmox_go_sdk.Base.{ℕ, zero, suc, ◌*◌, ◌/◌, ◌<◌, ◌≡◌, refl, none, some, [], ◌∷◌, arith, true}
use proxmox_go_sdk.Base.Text.{text, join}
use proxmox_go_sdk.Base.Number.{pos, format_nat}
use proxmox_go_sdk.Pverr.{ok, err, Err, Error, pve, plain}
use proxmox_go_sdk.Tasks.Upid.{Ref, parse_upid, new_ref, valid}
use proxmox_go_sdk.Tasks.Upid.RoundTrip.{Fields, parse_upid-encode_hex}
use proxmox_go_sdk.Tasks.Upid.Hex.{hex_text}
use proxmox_go_sdk.Tasks.Wait.{Status, WaitPolicy, World, status, is_done, wait, wait_for}
use proxmox_go_sdk.Tasks.Wait.Poll.{sleeps, interrupted, wait_for_first, GoesOn}
use proxmox_go_sdk.Tasks.Wait.Outcome.{Succeeded, ReportsFailure, wait_outcome}
use proxmox_go_sdk.Tasks.Upid.{parse_parts}
use proxmox_go_sdk.Base.Text.{split}
use proxmox_go_sdk.Base.Eq.{text_eq}
use proxmox_go_sdk.Base.Number.{parse_int}

abbrev fields : Fields
fields = record {
  node = text "pve";
  pid = 662316;
  pstart = 11259375;
  epoch = 1686744013;
  kind = text "qmstart";
  id = text "100";
  user = text "root@pam";
}

parse_upid-encode_hex_example :
    parse_upid (text "UPID:pve:000A1B2C:00ABCDEF:6489ABCD:qmstart:100:root@pam:")
    ≡ ok (record {
      raw = text "UPID:pve:000A1B2C:00ABCDEF:6489ABCD:qmstart:100:root@pam:";
      node = text "pve";
      pid = pos 662316;
      pstart = pos 11259375;
      start_time = pos 1686744013;
      kind = text "qmstart";
      id = text "100";
      user = text "root@pam";
    })
unfolding hex_text format_nat join
parse_upid-encode_hex_example = parse_upid-encode_hex fields true 8 (omega arith)

upper_case :
    new_ref (text "UPID:pve:000A1B2C:00ABCDEF:6489ABCD:qmstart:100:root@pam:")
    ≡ ok (record {
      node = text "pve";
      upid = text "UPID:pve:000A1B2C:00ABCDEF:6489ABCD:qmstart:100:root@pam:";
    })
unfolding new_ref parse_upid parse_parts split text_eq parse_int
upper_case = refl

-- an empty node is read, and refused only when the ref is used
empty_node :
    (r : Ref) × (new_ref (text "UPID::1:1:1:t:1:u:") ≡ ok r)
    × (valid r ≡ err (plain (text "tasks: incomplete ref")))
unfolding new_ref parse_upid parse_parts split text_eq parse_int valid
empty_node = (record { node = []; upid = text "UPID::1:1:1:t:1:u:" }, refl, refl)

abbrev ref : Ref
ref = record { node = text "pve"; upid = text "UPID" }

abbrev running : Status
running = record {
  upid = text "UPID";
  node = text "pve";
  kind = [];
  id = [];
  user = [];
  state = text "running";
  exit_status = [];
  pid = pos 1;
  start_time = pos 0;
}

abbrev failed : Status
failed = record running { state = text "stopped"; exit_status = text "exit code 1" }

abbrev world : World
world = record {
  answer = λ n. elim n [ zero ↦ ok running | suc _ ↦ ok failed ];
  cancelled = λ n. none;
  log = ok (record { number = pos 1; text = text "no space left" } ∷ []);
}

abbrev policy : WaitPolicy
policy = record { initial = 10; max = 40; grow = λ d. d * 3 / 2 }

runs_on : (m : ℕ) → m < 1 → GoesOn world policy ref is_done m
unfolding status valid is_done text_eq
runs_on zero h = (running, refl, refl, refl)
runs_on (suc m) h = absurd (omega arith)

wait_outcome_example :
    (Succeeded failed → wait world policy ref 2 ≡ some ((failed, none), sleeps policy 1 10))
    × (¬ Succeeded failed
        → (e : Error) × (wait world policy ref 2
            ≡ some ((failed, some (pve e)), sleeps policy 1 10))
          × ReportsFailure failed e)
unfolding status valid is_done text_eq
wait_outcome_example = wait_outcome world policy ref 1 2 failed runs_on refl refl (omega arith)

abbrev deadline : Err
deadline = plain (text "context deadline exceeded")

abbrev impatient : World
impatient = record world { cancelled = λ n. some deadline }

wait_for_first_example :
    wait_for impatient policy ref is_done 1 ≡ some (err deadline, sleeps policy 1 10)
unfolding status valid is_done text_eq
wait_for_first_example =
    wait_for_first impatient policy ref is_done 0 1 (λ m h. elim h [ ]) (interrupted refl refl refl)
      (omega arith)
