-- ===== src/Mock/Ha/Options.antt =====
-- The datacenter options, which hold the scheduling settings of high availability: the handlers of
-- `/cluster/options` in proxmox/mockpve/ha.go.
use proxmox_go_sdk.Base.{List, [], ◌∷◌, if◌then◌else◌}
use proxmox_go_sdk.Base.Eq.{◌==◌, text_Eq}
use proxmox_go_sdk.Base.Map.{Map, insert}
use proxmox_go_sdk.Base.Text.{Text, text, is_empty}
use proxmox_go_sdk.Mock.{State, Handler, passed, ◌>>=◌, ◌>>◌, respond, null, strings, Form}
use proxmox_go_sdk.Mock.Server.{check_auth, parse_form}
use proxmox_go_sdk.Mock.Ha.{set_crs}

-- the stored options, with `crs` where it is set
unfoldable pub merged_options : State → Map Text Text
merged_options s =
    if is_empty s.ha.crs then s.cluster_options else insert (text "crs") s.ha.crs s.cluster_options

unfoldable pub handle_options_get : Handler
handle_options_get r s = respond s (do check_auth r s; passed (strings (merged_options s), s))

-- one key of the form: a key without values is passed over, `crs` goes to the settings
unfoldable pub store_option : Text → List Text → State → State
store_option k [] s = s
store_option k (v ∷ vs) s =
    if k == text "crs"
    then set_crs v s
    else record s { cluster_options = insert k v s.cluster_options }

unfoldable pub store_options : Form → State → State
store_options [] s = s
store_options ((k, vs) ∷ form) s = store_options form (store_option k vs s)

unfoldable pub handle_options_set : Handler
handle_options_set r s =
    respond s (do check_auth r s; form ← parse_form r; passed (null, store_options form s))
