-- ===== src/Tasks/Upid/RoundTrip.antt =====
-- Reading an identifier from its fields: proxmox/tasks/upid.go.
use proxmox_go_sdk.Base.{ℕ, ◌<◌, ◌≢◌, ◌≡◌, refl, List, [], ◌∷◌, some, arith, Bool}
use proxmox_go_sdk.Base.Eq.{text_Eq, text_eq}
use proxmox_go_sdk.Base.Text.{Text, text, colon, join, split, split-join, Lacks, All-map}
use proxmox_go_sdk.Base.Number.{
  pos, parse_int, format_nat, format_nat-IsDigitByte, IsDigitByte, two63,
}
use proxmox_go_sdk.Tasks.Upid.Hex.{hex_text, parse_int-hex_text, hex_text-Lacks-colon}
use proxmox_go_sdk.Pverr.{ok}
use proxmox_go_sdk.Tasks.Upid.{TaskId, parse_parts, parse_upid}

-- The fields of an identifier before they are joined: three numbers and the texts.
pub record Fields : Type 0 where
  pub node : Text
  pub pid : ℕ
  pub pstart : ℕ
  pub epoch : ℕ
  pub kind : Text
  pub id : Text
  pub user : Text

-- No text holds a colon, and the numbers are 64-bit.
pub record IsClean (f : Fields) : Type 0 where
  pub node_clean : Lacks colon f.node
  pub kind_clean : Lacks colon f.kind
  pub id_clean : Lacks colon f.id
  pub user_clean : Lacks colon f.user
  pub pid_fits : f.pid < two63
  pub pstart_fits : f.pstart < two63
  pub epoch_fits : f.epoch < two63

module _ (print : ℕ → Text) where
  -- the parts of the printed form, whatever prints the three numbers; PVE ends it with a colon
  abbrev pub parts : Fields → List Text
  parts f =
      text "UPID"
      ∷ f.node
      ∷ print f.pid
      ∷ print f.pstart
      ∷ print f.epoch
      ∷ f.kind
      ∷ f.id
      ∷ f.user
      ∷ []
      ∷ []

  abbrev pub encode : Fields → Text
  encode f = join (colon ∷ []) (parts f)

  -- The identifier that the fields stand for.
  abbrev pub decoded : Fields → TaskId
  decoded f = record {
    raw = encode f;
    node = f.node;
    pid = pos f.pid;
    pstart = pos f.pstart;
    start_time = pos f.epoch;
    kind = f.kind;
    id = f.id;
    user = f.user;
  }

  module _ (f : Fields) (clean : IsClean f)
      (reads : (n : ℕ) → n < two63 → parse_int 16 (print n) ≡ some (pos n))
      (lacks : (n : ℕ) → Lacks colon (print n)) where
    split-encode : split colon (encode f) ≡ parts f
    split-encode = split-join colon (text "UPID") _ (
      omega arith,
      (
        clean.node_clean,
        (
          lacks f.pid,
          (
            lacks f.pstart,
            (lacks f.epoch, (clean.kind_clean, (clean.id_clean, (clean.user_clean, (tt, tt))))),
          ),
        ),
      ),
    )

    pub parse_upid-encode : parse_upid (encode f) ≡ ok (decoded f)
    unfolding parse_upid parse_parts text_eq
    parse_upid-encode =
        rw
          (
            split-encode,
            reads f.pid clean.pid_fits,
            reads f.pstart clean.pstart_fits,
            reads f.epoch clean.epoch_fits,
          )
          refl

pub hex-Lacks-colon : (n : ℕ) → Lacks colon (format_nat 16 n)
hex-Lacks-colon n =
    All-map IsDigitByte (λ c. c ≢ colon) (format_nat 16 n) (λ c h. ground arith)
      (format_nat-IsDigitByte 16 (omega arith) (omega arith) n)

-- Decoding the identifier that was built from clean fields gives the fields back and keeps the text,
-- when its numbers are printed in hexadecimal, in capitals or in small letters and with zeros in front
-- up to any width: PVE's own `%08X`, in capitals at width 8, among them.
pub parse_upid-encode_hex :
    (f : Fields) (upper : Bool) (width : ℕ)
    → IsClean f
    → parse_upid (encode (hex_text upper width) f) ≡ ok (decoded (hex_text upper width) f)
parse_upid-encode_hex f upper width clean =
    parse_upid-encode (hex_text upper width) f clean (parse_int-hex_text upper width)
      (hex_text-Lacks-colon upper width)
