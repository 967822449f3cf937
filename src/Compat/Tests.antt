-- ===== src/Compat/Tests.antt =====
-- Normalization at concrete inputs.
use srh_rs.Base.{◌≡◌, refl, [], ◌∷◌, text, take, false, none, text_eq, contains, to_ascii_lowercase}
use srh_rs.Identity.{Identity}
use srh_rs.Resp.{RedisCommand}
use srh_rs.Acl.{check}
use srh_rs.Compat.{normalize, check-normalize}

abbrev writer : Identity
writer = record {
  subject = text "w";
  bucket_key = text "w";
  pool = text "default";
  read_only = false;
  is_admin = false;
  legacy = false;
  allowed_commands = none;
  blocked_commands = [];
  allowed_script_sha256 = [];
  key_prefix = none;
}

abbrev distance : RedisCommand
distance = record { name = text "GEODIST"; args = text "k" ∷ text "a" ∷ text "b" ∷ text "KM" ∷ [] }

normalize_unit : (normalize distance).args ≡ text "k" ∷ text "a" ∷ text "b" ∷ text "km" ∷ []
unfolding normalize text_eq contains to_ascii_lowercase
normalize_unit = refl

check-normalize_example :
    check (take 1) writer (normalize distance) ≡ check (take 1) writer distance
check-normalize_example = check-normalize (take 1) writer distance
