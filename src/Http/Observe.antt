-- ===== src/Http/Observe.antt =====
-- src/http/observability.rs: what is recorded of a completed request. A counter is the list of its
-- increments, the log the list of its lines; the duration's histogram is left out.
use srh_rs.Base.{
  ℕ, zero, suc, ◌≡◌, Bool, ◌&&◌, List, [], ◌∷◌, Option, none, some, Text, text, text_eq,
  text_eq_refl, to_upper, to_ascii_uppercase, from_utf8_lossy, IsAscii, from_utf8_lossy_ascii, take,
  ltb, leb, if◌then◌else◌, arith,
}
use srh_rs.Identity.{Identity}
use srh_rs.Failure.{status_label, is_probe}

-- The bytes written so far, the first `len` of the array.
pub record CommandLabel : Type 0 where
  pub bytes : Text

abbrev pub command_label_capacity : ℕ
command_label_capacity = 32

unfoldable pub uppercase : Text → CommandLabel
unfolding to_ascii_uppercase
uppercase command = record { bytes = to_ascii_uppercase (take command_label_capacity command) }

-- `from_utf8`: bytes are UTF-8 exactly if nothing in them is replaced.
unfoldable pub as_str : CommandLabel → Text
unfolding from_utf8_lossy
as_str label = if text_eq (from_utf8_lossy label.bytes) label.bytes then label.bytes else text "-"

pub record AuditFields : Type 0 where
  pub identity : Option Identity
  pub command : Option CommandLabel
  pub pipeline_len : ℕ

abbrev pub no_fields : AuditFields
no_fields = record { identity = none; command = none; pipeline_len = 0 }

unfoldable pub note_identity : Identity → AuditFields → AuditFields
note_identity i fields = record fields { identity = some i }

unfoldable pub note_command : Option Text → ℕ → AuditFields → AuditFields
unfolding uppercase
note_command name pipeline_len fields = record fields {
  command = elim name [ none ↦ none | some t ↦ some (uppercase t) ];
  pipeline_len = pipeline_len;
}

-- A line of the log.
pub record Line : Type 0 where
  pub subject : Text
  pub pool : Text
  pub command : Text
  pub status : ℕ
  pub latency_ms : ℕ
  pub pipeline_len : ℕ
  pub endpoint : Text

-- The labels of each count of a request, and the log's lines, the last first.
pub record Recorded : Type 0 where
  pub counted : List (Text × Text)
  pub lines : List Line

abbrev pub succeeds : ℕ → Bool
succeeds status = leb 200 status && ltb status 300

unfoldable pub line_of : Text → AuditFields → ℕ → ℕ → Line
unfolding as_str
line_of endpoint fields status latency_ms = record {
  subject = elim fields.identity [ none ↦ text "-" | some i ↦ i.subject ];
  pool = elim fields.identity [ none ↦ text "-" | some i ↦ i.pool ];
  command = elim fields.command [ none ↦ text "-" | some label ↦ as_str label ];
  status = status;
  latency_ms = latency_ms;
  pipeline_len = fields.pipeline_len;
  endpoint = endpoint;
}

unfoldable pub record_request : Text → AuditFields → ℕ → ℕ → Recorded → Recorded
unfolding status_label is_probe line_of
record_request endpoint fields status latency_ms r =
    let counted = (endpoint, status_label status) ∷ r.counted in
    if is_probe endpoint && succeeds status
    then record r { counted = counted }
    else record { counted = counted; lines = line_of endpoint fields status latency_ms ∷ r.lines }

take-IsAscii : (n : ℕ) (t : Text) → IsAscii t → IsAscii (to_ascii_uppercase (take n t))
unfolding to_ascii_uppercase to_upper
take-IsAscii zero t h = tt
take-IsAscii (suc n) [] h = tt
take-IsAscii (suc n) (b ∷ t) (lt, h) = (ground arith, take-IsAscii n t h)

-- The label of a command whose name is ASCII is the name's first 32 bytes, uppercased.
pub as_str-uppercase :
    (name : Text)
    → IsAscii name
    → as_str (uppercase name) ≡ to_ascii_uppercase (take command_label_capacity name)
unfolding as_str uppercase
as_str-uppercase name h =
    let t : Text = to_ascii_uppercase (take command_label_capacity name) in
    ground
      (arith, from_utf8_lossy_ascii t (take-IsAscii command_label_capacity name h), text_eq_refl t)
