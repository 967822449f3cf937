-- ===== src/Acl/Tests.antt =====
-- Runs of the policy, and its theorems at concrete inputs. The digest of a script is stood in for
-- by its first byte.
use srh_rs.Base.{
  is_empty, ◌≡◌, refl, ◌≢◌, ◌↔◌, true, false, [], ◌∷◌, none, Text, text, take, to_ascii_uppercase,
  contains, Contains, ok, err, inl,
}
use srh_rs.Identity.{Identity}
use srh_rs.Resp.{RedisCommand}
use srh_rs.Acl.Lists.{hard_deny, scripting, read_commands, default_block}
use srh_rs.Acl.{
  invalid_command, denied, admin_allow, hard_denied, blocks, sorts_by_keys, default_denied,
  check_scripting, check_name, check,
}
use srh_rs.Acl.Decision.{IsPermitted, check-ok_iff}

policy : Unit {0}
unfolding check check_name check_scripting hard_denied blocks sorts_by_keys default_denied
    admin_allow denied hard_deny scripting default_block read_commands contains
policy = tt

abbrev first_byte : Text → Text
first_byte = take 1

abbrev reader : Identity
reader = record {
  subject = text "r";
  bucket_key = text "r";
  pool = text "default";
  read_only = true;
  is_admin = false;
  legacy = false;
  allowed_commands = none;
  blocked_commands = [];
  allowed_script_sha256 = [];
  key_prefix = none;
}

abbrev scripter : Identity
scripter = record reader { read_only = false; allowed_script_sha256 = text "72" ∷ [] }

abbrev admin : Identity
admin = record reader { read_only = false; is_admin = true }

abbrev get_key : RedisCommand
get_key = record { name = text "get"; args = text "k" ∷ [] }

abbrev config_set : RedisCommand
config_set = record { name = text "Config"; args = text "SET" ∷ [] }

abbrev run_script : RedisCommand
run_script = record { name = text "eval"; args = text "return 1" ∷ [] }

check_tests :
    (check first_byte reader get_key ≡ ok tt)
    × (check first_byte reader config_set ≡ err (denied (text "CONFIG")))
    × (check first_byte admin config_set ≡ err (denied (text "CONFIG")))
    × (check first_byte admin (record config_set { args = text "get" ∷ [] }) ≡ ok tt)
    × (check first_byte scripter run_script ≡ ok tt)
    × (check first_byte scripter (record run_script { name = text "evalsha" })
        ≡ err (denied (text "EVALSHA")))
    × (check first_byte admin (record get_key { name = [] }) ≡ err invalid_command)
unfolding policy is_empty
check_tests = (refl, refl, refl, refl, refl, refl, refl)

check-ok_iff_example : (check first_byte reader get_key ≡ ok tt) ↔ (
    (get_key.name ≢ []) × IsPermitted first_byte reader (to_ascii_uppercase get_key.name) get_key)
check-ok_iff_example = check-ok_iff first_byte reader get_key

config_is_hard : Contains hard_deny (to_ascii_uppercase config_set.name)
unfolding hard_deny to_ascii_uppercase
config_is_hard = inl refl
