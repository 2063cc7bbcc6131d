-- ===== src/Mock/Access/Tokens.antt =====
-- The API tokens of a user: proxmox/mockpve/access.go.
use proxmox_go_sdk.Base.{false, [], ◌∷◌, ◌++◌, if◌then◌else◌}
use proxmox_go_sdk.Base.Eq.{◌==◌, text_Eq}
use proxmox_go_sdk.Base.Map.{lookup, insert, contains}
use proxmox_go_sdk.Base.Text.{Text, text}
use proxmox_go_sdk.Base.Number.{pos}
use proxmox_go_sdk.Mock.{
  State, Handler, passed, ◌>>=◌, ◌>>◌, found_or, respond, Payload, Form, form_get, token, tokens,
  strings, null,
}
use proxmox_go_sdk.Mock.AccessRecords.{AccessTokenRecord, AccessTokenPayload}
use proxmox_go_sdk.Mock.Server.{check_auth, parse_form}
use proxmox_go_sdk.Mock.Ha.{flag}
use proxmox_go_sdk.Mock.Sdn.{or_empty_map-insert}
use proxmox_go_sdk.Mock.Store.{or_empty_map}
use proxmox_go_sdk.Mock.Collection.{
  Collection, path_value, int_or, flag_or, find_record, put_record, handle_all, handle_one,
  handle_drop,
}

unfoldable pub token_payload : AccessTokenRecord → AccessTokenPayload
token_payload rec = record {
  tokenid = rec.tokenid;
  comment = rec.comment;
  expire = rec.expire;
  privsep = flag rec.privsep;
}

-- the tokens of one user, who need not be known
abbrev pub token_records : Text → Collection AccessTokenRecord
token_records userid = record {
  entries = λ s. or_empty_map (lookup userid s.access.tokens);
  set_entries =
      λ m s. record s { access = record s.access { tokens = insert userid m s.access.tokens } };
  missing = text "no such token";
  payload = λ rec. token (token_payload rec);
  entries_set = λ m s. or_empty_map-insert userid m s.access.tokens;
}

unfoldable pub add_token : Text → Text → State → State
add_token userid tokenid =
    put_record (token_records userid) tokenid
      (record { tokenid = tokenid; comment = []; expire = pos 0; privsep = false })

unfoldable pub handle_token_list : Handler
handle_token_list r =
    handle_all (token_records (path_value r (text "userid"))) token_payload tokens r

unfoldable pub handle_token_get : Handler
handle_token_get r =
    handle_one (token_records (path_value r (text "userid"))) (path_value r (text "tokenid")) r

-- `tokenSecretPayload`
unfoldable pub token_secret : Text → Text → Text → Payload
token_secret userid tokenid value =
    strings ((text "full-tokenid", userid ++ (text "!" ++ tokenid)) ∷ (text "value", value) ∷ [])

unfoldable pub new_token : Form → Text → AccessTokenRecord
new_token form tokenid = record {
  tokenid = tokenid;
  comment = form_get form (text "comment");
  expire = int_or (pos 0) form (text "expire");
  privsep = form_get form (text "privsep") == text "1";
}

unfoldable pub handle_token_create : Handler
handle_token_create r s = respond s (do
  check_auth r s
  form ← parse_form r
  passed (
    token_secret (path_value r (text "userid")) (path_value r (text "tokenid"))
        (text "secret-" ++ path_value r (text "tokenid")),
    put_record (token_records (path_value r (text "userid"))) (path_value r (text "tokenid"))
        (new_token form (path_value r (text "tokenid"))) s,
  ))

-- a comment is taken whenever it is given, so an empty one clears it
unfoldable pub apply_token_form : Form → AccessTokenRecord → AccessTokenRecord
apply_token_form form rec = record rec {
  comment = if contains (text "comment") form then form_get form (text "comment") else rec.comment;
  privsep = flag_or rec.privsep form (text "privsep");
  expire = int_or rec.expire form (text "expire");
}

-- the record is changed, or else its secret is minted again
unfoldable pub handle_token_update : Handler
handle_token_update r s = respond s (do
  check_auth r s
  form ← parse_form r
  rec ←
      found_or
        (find_record (token_records (path_value r (text "userid"))) (path_value r (text "tokenid"))
          s)
        404 (text "no such token")
  passed (
      if form_get form (text "regenerate") == text "1"
      then (
        token_secret (path_value r (text "userid")) (path_value r (text "tokenid"))
            (text "rotated-" ++ path_value r (text "tokenid")),
        s,
      )
      else (
        null,
        put_record (token_records (path_value r (text "userid"))) (path_value r (text "tokenid"))
            (apply_token_form form rec) s,
      )))

unfoldable pub handle_token_delete : Handler
handle_token_delete r =
    handle_drop (token_records (path_value r (text "userid"))) (path_value r (text "tokenid")) r
