-- ===== src/Tasks/Upid.antt =====
-- Worker identifiers: proxmox/tasks/upid.go. Go's `int` has 64 bits, so `int(pid)` changes nothing;
-- the start time is the epoch second that the code hands to `time.Unix`.
pub mod RoundTrip
pub mod Hex
use proxmox_go_sdk.Base.{
  ℕ, Bool, true, false, ◌||◌, Option, none, some, List, [], ◌∷◌, ◌++◌, if◌then◌else◌,
}
use proxmox_go_sdk.Base.Eq.{◌==◌, text_Eq}
use proxmox_go_sdk.Base.Text.{Text, text, is_empty, split, colon}
use proxmox_go_sdk.Base.Number.{ℤ, parse_int}
use proxmox_go_sdk.Pverr.{Result, ok, err, Err, plain, wrap, ◌>>=◌, or_fail}

-- `UPID`
pub record TaskId : Type 0 where
  pub raw : Text
  pub node : Text
  pub pid : ℤ
  pub pstart : ℤ
  pub start_time : ℤ
  pub kind : Text
  pub id : Text
  pub user : Text

abbrev pub malformed : Err
malformed = plain (text "tasks: malformed UPID")

abbrev pub hex : Text → Text → Result ℤ
hex field label = or_fail (parse_int 16 field) (plain label)

-- at least eight parts, the first of them `UPID`; what follows the user is ignored
unfoldable pub parse_parts : Text → List Text → Result TaskId
parse_parts s (tag ∷ node ∷ pid ∷ pstart ∷ epoch ∷ kind ∷ id ∷ user ∷ rest) =
    if tag == text "UPID"
    then (do
      pid' ← hex pid (text "parse pid")
      pstart' ← hex pstart (text "parse pstart")
      epoch' ← hex epoch (text "parse starttime")
      ok (record {
        raw = s;
        node = node;
        pid = pid';
        pstart = pstart';
        start_time = epoch';
        kind = kind;
        id = id;
        user = user;
      }))
    else err malformed
parse_parts s _ = err malformed

unfoldable pub parse_upid : Text → Result TaskId
parse_upid s = parse_parts s (split colon s)

pub record Ref : Type 0 where
  pub node : Text
  pub upid : Text

unfoldable pub new_ref : Text → Result Ref
new_ref upid = do u ← parse_upid upid; ok (record { node = u.node; upid = upid })

unfoldable pub is_zero : Ref → Bool
is_zero r = is_empty r.upid

unfoldable pub valid : Ref → Result (Unit {0})
valid r =
    if is_empty r.node || is_empty r.upid then err (plain (text "tasks: incomplete ref")) else ok tt

-- `svcutil.TaskRef`: a parse failure is tagged with the calling operation
unfoldable pub task_ref : Text → Text → Result Ref
task_ref op upid = elim (new_ref upid) [ err e ↦ err (wrap op e) | ok r ↦ ok r ]
