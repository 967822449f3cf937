-- ===== src/Acl/Decision.antt =====
-- src/domain/acl.rs: `check` decides the policy.
use srh_rs.Base.{
  ◌≡◌, refl, ◌≢◌, ◌↔◌, ◌⊎◌, inl, inr, Bool, true, false, ◌&&◌, not, List, [], ◌∷◌, map, Option,
  none, some, Text, text, to_ascii_uppercase, contains, Contains, contains_iff, Result, ok, err,
  ◌>>◌, head?, if◌then◌else◌, arith, hex_digest, is_empty, Bool-cases,
}
use srh_rs.Identity.{Identity}
use srh_rs.Resp.{RedisCommand}
use srh_rs.Acl.Lists.{hard_deny, scripting, default_block, read_commands}
use srh_rs.Acl.{
  AclError, invalid_command, forbidden, denied, refuse, admin_allow, is_allowed, is_excluded,
  hard_denied, blocks, sorts_by_keys, default_denied, check_scripting, check_name, check,
}

-- The admin subcommands that the policy exempts, for an uppercase command name.
pub record IsExempt (identity : Identity) (name : Text) (command : RedisCommand) : Type 0 where
  pub admin : identity.is_admin ≡ true
  pub listed : admin_allow name (head? command.args) ≡ true

module _ (sha256 : Text → Text) where
  -- A script whose digest the identity's policy lists.
  abbrev pub RunsListedScript : Identity → Text → RedisCommand → Type 0
  RunsListedScript identity name command =
      ((name ≡ text "EVAL") ⊎ (name ≡ text "EVAL_RO"))
      × ((script : Text) × (head? command.args ≡ some script)
          × Contains identity.allowed_script_sha256 (hex_digest (sha256 script)))

  -- What the policy asks of a command, its name in upper case.
  pub record IsPermitted (identity : Identity) (name : Text) (command : RedisCommand) : Type 0 where
    pub not_hard : Contains hard_deny name → IsExempt identity name command
    pub listed_script : Contains scripting name → RunsListedScript identity name command
    pub no_blocking : blocks name command ≡ false
    pub no_key_sort : sorts_by_keys identity name command ≡ false
    pub not_blocked : ¬ Contains identity.blocked_commands name
    pub by_default :
        Contains default_block name
        → (identity.legacy ≡ true)
          ⊎ ((is_allowed identity.allowed_commands name ≡ true) ⊎ IsExempt identity name command)
    pub in_allowlist :
        (commands : List Text) → identity.allowed_commands ≡ some commands → Contains commands name
    pub reads : identity.read_only ≡ true → Contains read_commands name

  -- The head of the arguments as a variable.
  check_scripting-ok_cases :
      (identity : Identity) (name : Text) (command : RedisCommand) (first : Option Text)
      → head? command.args ≡ first
      → (check_scripting sha256 identity name command ≡ ok tt)
        ↔ (Contains scripting name → RunsListedScript identity name command)
  unfolding check_scripting
  check_scripting-ok_cases identity name command none e =
      ground
        (arith, contains_iff scripting name, contains_iff (map text ("EVAL" ∷ "EVAL_RO" ∷ [])) name)
  check_scripting-ok_cases identity name command (some script) e = (
    (λ passed called. (
      ground (
        arith,
        contains_iff scripting name,
        contains_iff (map text ("EVAL" ∷ "EVAL_RO" ∷ [])) name,
      ),
      (
        script,
        e,
        ground (
          arith,
          contains_iff scripting name,
          contains_iff identity.allowed_script_sha256 (hex_digest (sha256 script)),
        ),
      ),
    )),
    (λ listed. elim (Bool-cases (contains scripting name)) [
      | inl called ↦
          let run = listed ((contains_iff scripting name).0 called) in
          ground (
            arith,
            contains_iff (map text ("EVAL" ∷ "EVAL_RO" ∷ [])) name,
            contains_iff identity.allowed_script_sha256 (hex_digest (sha256 run.1.0)),
          )
      | inr other ↦ ground arith
    ]),
  )

-- The `do` block of `check_name`.
checks_iff :
    (a c d f g h i : Bool) (e e' : AclError) (m : Result (Unit {0}) AclError)
    → ((do refuse a e; m; refuse c e'; refuse d e; refuse f e; refuse g e; refuse h e; refuse i e)
        ≡ ok tt)
      ↔ ((a ≡ false)
          × (m ≡ ok tt)
          × (c ≡ false)
          × (d ≡ false)
          × (f ≡ false)
          × (g ≡ false)
          × (h ≡ false)
          × (i ≡ false))
checks_iff a c d f g h i e e' m = ground arith

excluded_iff :
    (allowed : Option (List Text)) (name : Text)
    → (is_excluded allowed name ≡ false)
      ↔ ((commands : List Text) → allowed ≡ some commands → Contains commands name)
excluded_iff none name = ((λ h commands e. cc), λ h. refl)
excluded_iff (some commands) name = (
  (λ h others e. ground (arith, contains_iff commands name)),
  (λ h. ground (arith, contains_iff commands name, h commands refl)),
)

module _ (sha256 : Text → Text) (identity : Identity) (name : Text) (command : RedisCommand) where
  -- The checks as Booleans.
  abbrev Passes : Type 0
  Passes =
      (hard_denied identity name command ≡ false)
      × (check_scripting sha256 identity name command ≡ ok tt)
      × (blocks name command ≡ false)
      × (sorts_by_keys identity name command ≡ false)
      × (contains identity.blocked_commands name ≡ false)
      × (default_denied identity name command ≡ false)
      × (is_excluded identity.allowed_commands name ≡ false)
      × ((identity.read_only && not (contains read_commands name)) ≡ false)

  passes_iff : (check_name sha256 identity name command ≡ ok tt) ↔ Passes
  unfolding check_name
  passes_iff =
      checks_iff (hard_denied identity name command) (blocks name command)
        (sorts_by_keys identity name command) (contains identity.blocked_commands name)
        (default_denied identity name command) (is_excluded identity.allowed_commands name)
        (identity.read_only && not (contains read_commands name)) (denied name)
        (forbidden (text "NOPERM blocking XREAD is not allowed"))
        (check_scripting sha256 identity name command)

  IsPermitted-of_Passes : Passes → IsPermitted sha256 identity name command
  unfolding hard_denied default_denied
  IsPermitted-of_Passes (hard, script, block, sort, blocked, default', excluded, read) = record {
    not_hard = λ listed. ground (arith, contains_iff hard_deny name);
    listed_script = (check_scripting-ok_cases sha256 identity name command _ refl).0 script;
    no_blocking = block;
    no_key_sort = sort;
    not_blocked = λ listed. ground (arith, contains_iff identity.blocked_commands name);
    by_default = λ listed. ground (arith, contains_iff default_block name);
    in_allowlist = (excluded_iff identity.allowed_commands name).0 excluded;
    reads = λ only. ground (arith, contains_iff read_commands name);
  }

  Passes_of_IsPermitted : IsPermitted sha256 identity name command → Passes
  unfolding hard_denied default_denied
  Passes_of_IsPermitted v = (
    ground (arith, contains_iff hard_deny name, v.not_hard),
    (check_scripting-ok_cases sha256 identity name command _ refl).1 v.listed_script,
    v.no_blocking,
    v.no_key_sort,
    ground (arith, contains_iff identity.blocked_commands name, v.not_blocked),
    ground (arith, contains_iff default_block name, v.by_default),
    (excluded_iff identity.allowed_commands name).1 v.in_allowlist,
    ground (arith, contains_iff read_commands name, v.reads),
  )

named_iff :
    (name : Text) (r : Result (Unit {0}) AclError)
    → ((if is_empty name then err invalid_command else r) ≡ ok tt) ↔ ((name ≢ []) × (r ≡ ok tt))
unfolding is_empty
named_iff [] r = ((λ e. cc), λ v. absurd (v.0 refl))
named_iff (c ∷ name) r = ((λ e. ((λ h. cc), e)), λ v. v.1)

-- A command passes the policy exactly if its name is not empty and, in upper case, meets every
-- rule: an administrator's exempt subcommand if it is on the hard list; a script whose digest is
-- listed if it runs code; no blocking read; no sorting by other keys under a key prefix; not among
-- the identity's blocked commands; where it is blocked by default, a legacy identity, an explicit
-- permission or an administrator's exemption; on the identity's allowlist if there is one; and on
-- the list of reads if the identity only reads.
pub check-ok_iff :
    (sha256 : Text → Text) (identity : Identity) (command : RedisCommand)
    → (check sha256 identity command ≡ ok tt) ↔ (
        (command.name ≢ []) × IsPermitted sha256 identity (to_ascii_uppercase command.name) command)
unfolding check
check-ok_iff sha256 identity command =
    let name = to_ascii_uppercase command.name in
    let named = named_iff command.name (check_name sha256 identity name command) in
    let (shown, passed) = passes_iff sha256 identity name command in
    (
      (λ h. (
        (named.0 h).0,
        IsPermitted-of_Passes sha256 identity name command (shown (named.0 h).1),
      )),
      λ v. named.1 (v.0, passed (Passes_of_IsPermitted sha256 identity name command v.1)),
    )
