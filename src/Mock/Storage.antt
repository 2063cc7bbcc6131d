-- ===== src/Mock/Storage.antt =====
-- The cluster's storages: proxmox/mockpve/storage.go. A map that a request ranges over is in the
-- order of the range.
pub mod Volumes
pub mod Routes
use proxmox_go_sdk.Base.{
  zero, ℕ, suc, Bool, true, false, not, ◌&&◌, ◌||◌, Option, none, some, List, [], ◌∷◌, ◌++◌,
  if◌then◌else◌, map, ltb, leb, length, is_some, ◌-◌, ◌+◌,
}
use proxmox_go_sdk.Base.Eq.{◌==◌, text_Eq}
use proxmox_go_sdk.Base.Map.{Map, lookup, insert, erase, contains}
use proxmox_go_sdk.Base.Text.{Text, text, is_empty, split, join, comma, trim_space}
use proxmox_go_sdk.Base.TextOrder.{sort_strings}
use proxmox_go_sdk.Base.Number.{ℤ, pos, negsuc, format_nat}
use proxmox_go_sdk.Mock.{
  State, Request, Handler, Checked, passed, refused, ◌>>=◌, ◌>>◌, refuse_if, found_or, respond,
  Payload, Form, form_get, Value, number, string, datastore, datastores, datastore_written,
  storage_status, storage_statuses, null,
}
use proxmox_go_sdk.Mock.StorageRecords.{StoreRecord, StorageState, StorageStatus}
use proxmox_go_sdk.Mock.Server.{check_auth, parse_form}
use proxmox_go_sdk.Mock.Ha.{flag}

-- `%040x`: zeros up to a width
unfoldable pub pad_to : ℕ → Text → Text
pad_to zero s = s
pad_to (suc n) s = if ltb n (length s) then s else b'0' ∷ pad_to n s

unfoldable pub storage_digest : ℕ → Text
storage_digest version = pad_to 40 (format_nat 16 version)

-- `bumpStorageDigest`
unfoldable pub bump_digest : StorageState → StorageState
bump_digest st = record st {
  cfg_version = suc st.cfg_version;
  cfg_digest = storage_digest (suc st.cfg_version);
}

unfoldable pub listed : Text → List Text → Bool
listed x [] = false
listed x (y ∷ ys) = (y == x) || listed x ys

-- the items that are not blank, each once
unfoldable pub distinct_items : List Text → List Text → List Text
distinct_items [] seen = seen
distinct_items (item ∷ items) seen =
    let x = trim_space item in
    distinct_items items (if is_empty x || listed x seen then seen else x ∷ seen)

-- `normalizeSet`
unfoldable pub normalize_set : Text → Text
normalize_set csv =
    if is_empty csv
    then []
    else join (comma ∷ []) (sort_strings (distinct_items (split comma csv) []))

abbrev pub new_store : Text → Text → StoreRecord
new_store id kind = record {
  storage = id;
  kind = kind;
  content = [];
  path = [];
  pool = [];
  nodes = [];
  shared = false;
  disable = false;
  total = pos 0;
  used = pos 0;
  extra = [];
}

-- a store is written, and the digest advances
unfoldable pub write_store : Text → StoreRecord → State → State
write_store id rec s = record s {
  storage = bump_digest (record s.storage { stores = insert id rec s.storage.stores });
}

unfoldable pub add_storage : Text → Text → Text → ℤ → ℤ → State → State
add_storage id kind content total used =
    write_store id
      (record (new_store id kind) { content = normalize_set content; total = total; used = used })

-- `applyStorageForm`
unfoldable pub apply_storage_form : Text → Text → StoreRecord → StoreRecord
apply_storage_form key val rec =
    if key == text "content"
    then record rec { content = normalize_set val }
    else if key == text "nodes"
    then record rec { nodes = normalize_set val }
    else if key == text "path"
    then record rec { path = val }
    else if key == text "pool"
    then record rec { pool = val }
    else if key == text "shared"
    then record rec { shared = val == text "1" }
    else if key == text "disable"
    then record rec { disable = val == text "1" }
    else record rec { extra = insert key val rec.extra }

unfoldable pub clear_storage_key : Text → StoreRecord → StoreRecord
clear_storage_key key rec =
    if key == text "content"
    then record rec { content = [] }
    else if key == text "nodes"
    then record rec { nodes = [] }
    else if key == text "path"
    then record rec { path = [] }
    else if key == text "pool"
    then record rec { pool = [] }
    else if key == text "shared"
    then record rec { shared = false }
    else if key == text "disable"
    then record rec { disable = false }
    else record rec { extra = erase key rec.extra }

-- every key of the form but two
unfoldable pub apply_but : Text → Text → Form → Form → StoreRecord → StoreRecord
apply_but skip skip' whole [] rec = rec
apply_but skip skip' whole ((key, vs) ∷ form) rec = apply_but skip skip' whole form (
    if (key == skip) || (key == skip')
    then rec
    else apply_storage_form key (form_get whole key) rec)

abbrev pub or_empty : Option Text → Text
or_empty none = []
or_empty (some v) = v

-- the mountpoint that PVE gives a ZFS pool
unfoldable pub mountpoint : StoreRecord → StoreRecord
mountpoint rec =
    if (rec.kind == text "zfspool")
      && (not (is_empty rec.pool) && is_empty (or_empty (lookup (text "mountpoint") rec.extra)))
    then record rec { extra = insert (text "mountpoint") (text "/" ++ rec.pool) rec.extra }
    else rec

unfoldable pub handle_datastore_create : Handler
handle_datastore_create r s = respond s (do
  check_auth r s
  form ← parse_form r
  refuse_if (is_empty (form_get form (text "storage")) || is_empty (form_get form (text "type")))
      400 (text "missing storage or type")
  refuse_if (is_some (lookup (form_get form (text "storage")) s.storage.stores)) 400
      (text "storage ID '" ++ (form_get form (text "storage") ++ text "' already defined"))
  passed (
    datastore_written (form_get form (text "storage")) (form_get form (text "type")),
    write_store (form_get form (text "storage"))
        (mountpoint (
          apply_but (text "storage") (text "type") form form
            (new_store (form_get form (text "storage")) (form_get form (text "type")))))
        s,
  ))

abbrev pub create_fixed_keys : List Text
create_fixed_keys =
    text "type"
    ∷ text "path"
    ∷ text "export"
    ∷ text "share"
    ∷ text "target"
    ∷ text "portal"
    ∷ text "vgname"
    ∷ text "thinpool"
    ∷ text "base"
    ∷ text "datastore"
    ∷ text "iscsiprovider"
    ∷ text "authsupported"
    ∷ []

-- the first key that is fixed at creation and is in the form
unfoldable pub refuse_fixed : List Text → Form → Checked (Unit {0})
refuse_fixed [] form = passed tt
refuse_fixed (key ∷ keys) form =
    if contains key form
    then refused 400 (text "parameter '" ++ (key ++ text "' is fixed at creation"))
    else refuse_fixed keys form

-- `delete`, before the keys that are set
unfoldable pub clear_keys : List Text → StoreRecord → StoreRecord
clear_keys [] rec = rec
clear_keys (key ∷ keys) rec = clear_keys keys (clear_storage_key (trim_space key) rec)

unfoldable pub clear_deleted : Text → StoreRecord → StoreRecord
clear_deleted del rec = if is_empty del then rec else clear_keys (split comma del) rec

-- a digest that is given and is not the one the config has
abbrev pub is_stale : Form → State → Bool
is_stale form s =
    not (is_empty (form_get form (text "digest")))
    && not (form_get form (text "digest") == s.storage.cfg_digest)

unfoldable pub handle_datastore_update : Handler
handle_datastore_update r s = respond s (do
  check_auth r s
  form ← parse_form r
  refuse_fixed create_fixed_keys form
  rec ← found_or (lookup r.storage s.storage.stores) 404 (text "no such storage")
  refuse_if (is_stale form s) 400
      (text "detected modified configuration - file changed by other user? Try again.")
  passed (
    datastore_written rec.storage rec.kind,
    write_store r.storage
        (apply_but (text "delete") (text "digest") form form
          (clear_deleted (form_get form (text "delete")) rec))
        s,
  ))

unfoldable pub handle_datastore_delete : Handler
handle_datastore_delete r s = respond s (do
  check_auth r s
  rec ← found_or (lookup r.storage s.storage.stores) 404 (text "no such storage")
  passed (
    null,
    record s {
      storage = bump_digest (record s.storage { stores = erase r.storage s.storage.stores });
    },
  ))

-- a text that is not empty, a flag that is set, and the remaining keys
abbrev pub with_text : Text → Text → Map Text Value → Map Text Value
with_text key v p = if is_empty v then p else insert key (string v) p

abbrev pub with_flag : Text → Bool → Map Text Value → Map Text Value
with_flag key b p = if b then insert key (number (pos 1)) p else p

unfoldable pub with_extra : Map Text Text → Map Text Value → Map Text Value
with_extra [] p = p
with_extra ((k, v) ∷ extra) p = with_extra extra (insert k (string v) p)

-- `datastoreToPayload`
unfoldable pub datastore_payload : Text → StoreRecord → Map Text Value
datastore_payload digest rec = with_extra rec.extra (
    with_text (text "digest") digest (
      with_flag (text "disable") rec.disable (
        with_flag (text "shared") rec.shared (
          with_text (text "nodes") rec.nodes (
            with_text (text "pool") rec.pool (
              with_text (text "path") rec.path (
                with_text (text "content") rec.content (
                  (text "storage", string rec.storage) ∷ (text "type", string rec.kind) ∷ []))))))))

unfoldable pub handle_datastore_list : Handler
handle_datastore_list r s = respond s (do
  check_auth r s
  passed (datastores (map (λ e. datastore_payload s.storage.cfg_digest e.1) s.storage.stores), s))

-- the message of a missing id is PVE's, with its status 500
unfoldable pub handle_datastore_get : Handler
handle_datastore_get r s = respond s (do
  check_auth r s
  rec ←
      found_or (lookup r.storage s.storage.stores) 500
        (text "storage '" ++ (r.storage ++ text "' does not exist"))
  passed (datastore (datastore_payload s.storage.cfg_digest rec), s))

abbrev pub nat_sub : ℕ → ℕ → ℤ
nat_sub m n = if leb n m then pos (m - n) else negsuc (n - m - 1)

-- the sizes are seeded, so the difference is not taken to wrap
abbrev pub int_sub : ℤ → ℤ → ℤ
int_sub (pos m) (pos n) = nat_sub m n
int_sub (pos m) (negsuc n) = pos (m + n + 1)
int_sub (negsuc m) (pos n) = negsuc (m + n)
int_sub (negsuc m) (negsuc n) = nat_sub n m

unfoldable pub storage_to_status : StoreRecord → StorageStatus
storage_to_status rec = record {
  storage = rec.storage;
  kind = rec.kind;
  content = rec.content;
  active = 1;
  enabled = 1;
  shared = flag rec.shared;
  total = rec.total;
  used = rec.used;
  avail = int_sub rec.total rec.used;
}

unfoldable pub handle_node_storage_list : Handler
handle_node_storage_list r s = respond s (do
  check_auth r s
  passed (storage_statuses (map (λ e. storage_to_status e.1) s.storage.stores), s))

unfoldable pub handle_node_storage_status : Handler
handle_node_storage_status r s = respond s (do
  check_auth r s
  rec ← found_or (lookup r.storage s.storage.stores) 404 (text "no such storage")
  passed (storage_status (storage_to_status rec), s))
