-- ===== src/Acl.antt =====
-- src/domain/acl.rs: which commands an identity may run. SHA-256 is a parameter.
pub mod Lists
pub mod Decision
pub mod Guarantees
mod Tests
use srh_rs.Base.{
  Bool, true, false, ◌&&◌, ◌||◌, not, List, [], ◌∷◌, ◌++◌, map, Option, none, some, String, Text,
  text, text_eq, to_ascii_uppercase, eq_ignore_ascii_case, contains, is_empty, Result, ok, err,
  ok_or, ◌>>=◌, ◌>>◌, any, head?, is_some, if◌then◌else◌, ltb, ℕ, ◌/◌, ◌%◌, ◌+◌, from_utf8_lossy,
  hex_digest,
}
use srh_rs.Identity.{Identity}
use srh_rs.Resp.{RedisCommand}
use Lists.{hard_deny, scripting, default_block, read_commands}

pub data AclError : Type 0 where
  invalid_command : AclError
  forbidden : Text → AclError

-- `matches!(name, "A" | "B")`
abbrev pub one_of : List String → Text → Bool
one_of words = contains (map text words)

unfoldable pub denied : Text → AclError
denied name =
    forbidden (text "NOPERM this token does not have permission to run '" ++ (name ++ text "'"))

-- An early `return Err(error)`.
abbrev pub refuse : Bool → AclError → Result (Unit {0}) AclError
refuse true e = err e
refuse false e = ok tt

abbrev is_none : List Text → Bool
is_none [] = true
is_none (_ ∷ _) = false

abbrev found_in : List String → Option Text → Bool
found_in words none = false
found_in words (some s) = one_of words s

abbrev uppercased : Option Text → Option Text
uppercased none = none
uppercased (some value) = some (to_ascii_uppercase (from_utf8_lossy value))

unfoldable pub admin_allow : Text → Option Text → Bool
unfolding contains to_ascii_uppercase from_utf8_lossy
admin_allow name subcommand =
    let sub = uppercased subcommand in
    (text_eq name (text "CONFIG") && found_in ("GET" ∷ []) sub)
    || (text_eq name (text "CLIENT") && found_in ("LIST" ∷ "INFO" ∷ []) sub)
    || (text_eq name (text "SLOWLOG") && found_in ("GET" ∷ "LEN" ∷ []) sub)
    || text_eq name (text "INFO")
    || (text_eq name (text "COMMAND") && found_in ("COUNT" ∷ "INFO" ∷ "DOCS" ∷ []) sub)
    || (text_eq name (text "LATENCY") && found_in ("HISTORY" ∷ "LATEST" ∷ []) sub)
    || (text_eq name (text "MEMORY") && found_in ("USAGE" ∷ "STATS" ∷ "DOCTOR" ∷ []) sub)
    || (text_eq name (text "ACL") && found_in ("WHOAMI" ∷ []) sub)

abbrev is_allowed : Option (List Text) → Text → Bool
is_allowed none name = false
is_allowed (some commands) name = contains commands name

abbrev is_excluded : Option (List Text) → Text → Bool
is_excluded none name = false
is_excluded (some commands) name = not (contains commands name)

-- The tests of `check`, each for an uppercase name.
unfoldable pub hard_denied : Identity → Text → RedisCommand → Bool
hard_denied identity name command =
    contains hard_deny name && not (identity.is_admin && admin_allow name (head? command.args))

unfoldable pub blocks : Text → RedisCommand → Bool
blocks name command =
    one_of ("XREAD" ∷ "XREADGROUP" ∷ []) name
    && any (λ argument. eq_ignore_ascii_case argument (text "BLOCK")) command.args

unfoldable pub sorts_by_keys : Identity → Text → RedisCommand → Bool
sorts_by_keys identity name command =
    is_some identity.key_prefix
    && one_of ("SORT" ∷ "SORT_RO" ∷ []) name
    && any
        (λ argument.
          eq_ignore_ascii_case argument (text "BY") || eq_ignore_ascii_case argument (text "GET"))
        command.args

unfoldable pub default_denied : Identity → Text → RedisCommand → Bool
default_denied identity name command =
    not identity.legacy
    && contains default_block name
    && not (is_allowed identity.allowed_commands name)
    && not (identity.is_admin && admin_allow name (head? command.args))

module _ (sha256 : Text → Text) where
  unfoldable pub check_scripting : Identity → Text → RedisCommand → Result (Unit {0}) AclError
  unfolding denied hex_digest
  check_scripting identity name command =
      if not (contains scripting name)
      then ok tt
      else if not (one_of ("EVAL" ∷ "EVAL_RO" ∷ []) name) || is_none identity.allowed_script_sha256
      then err (denied name)
      else do
        script ← ok_or (head? command.args) (denied name)
        refuse (not (contains identity.allowed_script_sha256 (hex_digest (sha256 script))))
            (denied name)

  -- `check` once the name has been uppercased.
  unfoldable pub check_name : Identity → Text → RedisCommand → Result (Unit {0}) AclError
  check_name identity name command = do
    refuse (hard_denied identity name command) (denied name)
    check_scripting identity name command
    refuse (blocks name command) (forbidden (text "NOPERM blocking XREAD is not allowed"))
    refuse (sorts_by_keys identity name command) (denied name)
    refuse (contains identity.blocked_commands name) (denied name)
    refuse (default_denied identity name command) (denied name)
    refuse (is_excluded identity.allowed_commands name) (denied name)
    refuse (identity.read_only && not (contains read_commands name)) (denied name)

  unfoldable pub check : Identity → RedisCommand → Result (Unit {0}) AclError
  unfolding check_name
  check identity command =
      if is_empty command.name
      then err invalid_command
      else check_name identity (to_ascii_uppercase command.name) command
