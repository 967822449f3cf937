-- ===== src/Acl/Guarantees.antt =====
-- src/domain/acl.rs: what follows for an identity whose command passes, and how a command is refused.
use srh_rs.Base.{
  ◌≡◌, refl, ◌≢◌, ◌↔◌, inl, inr, Bool, true, false, ◌&&◌, not, List, [], ◌∷◌, Text,
  to_ascii_uppercase, to_ascii_uppercase_idem, contains, Contains, contains_iff, Result, ok, err,
  arith, is_empty, if◌then◌else◌, ap,
}
use srh_rs.Identity.{Identity}
use srh_rs.Resp.{RedisCommand}
use srh_rs.Acl.Lists.{hard_deny, scripting, read_commands}
use srh_rs.Acl.{
  AclError, invalid_command, denied, check_name, check, check_scripting, hard_denied, blocks,
  sorts_by_keys, default_denied,
}
use srh_rs.Acl.Decision.{RunsListedScript, check-ok_iff}

-- Two lists without a common text.
abbrev disjoint : List Text → List Text → Bool
disjoint [] ys = true
disjoint (x ∷ xs) ys = not (contains ys x) && disjoint xs ys

Disjoint_sound :
    (xs ys : List Text) (a : Text) → disjoint xs ys ≡ true → Contains xs a → ¬ Contains ys a
Disjoint_sound [] ys a h m = absurd m
Disjoint_sound (x ∷ xs) ys a h (inl e) =
    λ n. ground (arith, contains_iff ys x, ap (contains ys) e, contains_iff ys a)
Disjoint_sound (x ∷ xs) ys a h (inr m) = Disjoint_sound xs ys a (ground arith) m

reads_are_soft : disjoint read_commands hard_deny ≡ true
unfolding read_commands hard_deny contains
reads_are_soft = refl

reads_are_no_scripts : disjoint read_commands scripting ≡ true
unfolding read_commands scripting contains
reads_are_no_scripts = refl

is_empty-uppercase : (s : Text) → is_empty (to_ascii_uppercase s) ≡ is_empty s
unfolding is_empty to_ascii_uppercase
is_empty-uppercase [] = refl
is_empty-uppercase (c ∷ s) = refl

only_empty :
    (name : Text) (r : Result (Unit {0}) AclError)
    → (if is_empty name then err invalid_command else r) ≡ err invalid_command
    → r ≢ err invalid_command
    → name ≡ []
unfolding is_empty
only_empty [] r h other = refl
only_empty (c ∷ name) r h other = absurd (other h)

module _ (sha256 : Text → Text) where
  -- A command that passes for an identity that only reads is one of the listed reads, and neither
  -- a server command of the hard list nor one that runs code.
  pub read_only_reads :
      (identity : Identity) (command : RedisCommand)
      → identity.read_only ≡ true
      → check sha256 identity command ≡ ok tt
      → let name = to_ascii_uppercase command.name in
        Contains read_commands name × (¬ Contains hard_deny name) × (¬ Contains scripting name)
  read_only_reads identity command only h =
      let name = to_ascii_uppercase command.name in
      let listed = ((check-ok_iff sha256 identity command).0 h).1.reads only in
      (
        listed,
        Disjoint_sound read_commands hard_deny name reads_are_soft listed,
        Disjoint_sound read_commands scripting name reads_are_no_scripts listed,
      )

  -- Nobody but an administrator gets a command of the hard list through, whatever the identity's
  -- own lists say and in whatever case the name is written.
  pub hard_deny_binds :
      (identity : Identity) (command : RedisCommand)
      → identity.is_admin ≡ false
      → Contains hard_deny (to_ascii_uppercase command.name)
      → check sha256 identity command ≢ ok tt
  hard_deny_binds identity command plain listed h =
      let exempt = ((check-ok_iff sha256 identity command).0 h).1.not_hard listed in cc exempt.admin

  -- A command that passes and runs code is EVAL or EVAL_RO of a script whose SHA-256 the identity
  -- lists: scripts named by SHA-1 and functions never pass.
  pub scripts_are_listed :
      (identity : Identity) (command : RedisCommand)
      → check sha256 identity command ≡ ok tt
      → Contains scripting (to_ascii_uppercase command.name)
      → RunsListedScript sha256 identity (to_ascii_uppercase command.name) command
  scripts_are_listed identity command h listed =
      ((check-ok_iff sha256 identity command).0 h).1.listed_script listed

  -- The case of the command's name does not matter.
  pub case_is_ignored :
      (identity : Identity) (command : RedisCommand)
      → check sha256 identity (record command { name = to_ascii_uppercase command.name })
        ≡ check sha256 identity command
  unfolding check check_name hard_denied check_scripting blocks sorts_by_keys default_denied
  case_is_ignored identity command =
      rw (is_empty-uppercase command.name, to_ascii_uppercase_idem command.name)

  -- An empty name is refused as an invalid command, and nothing else is.
  pub invalid_iff :
      (identity : Identity) (command : RedisCommand)
      → (check sha256 identity command ≡ err invalid_command) ↔ (command.name ≡ [])
  unfolding check check_name check_scripting denied is_empty
  invalid_iff identity command = (
    (λ h.
        only_empty command.name
          (check_name sha256 identity (to_ascii_uppercase command.name) command) h
          (λ e. grind (arith))),
    λ e. rw e refl,
  )
