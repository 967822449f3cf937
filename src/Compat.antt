-- ===== src/Compat.antt =====
-- src/domain/compat.rs: argument normalization after the policy check.
mod Tests
use srh_rs.Base.{
  ◌≡◌, refl, Bool, true, false, ◌&&◌, List, [], ◌∷◌, map, Text, text, text_eq, to_ascii_lowercase,
  to_ascii_uppercase, ap, inl, inr, contains, length, ◌==◌, if◌then◌else◌, arith, text_eq_iff,
  Bool-cases, Result, ◌↔◌,
}
use srh_rs.Identity.{Identity}
use srh_rs.Resp.{RedisCommand}
use srh_rs.Acl.Lists.{hard_deny, scripting, default_block}
use srh_rs.Acl.{
  AclError, hard_denied, check_scripting, blocks, sorts_by_keys, default_denied, check_name, check,
}

-- The write through `last_mut`, for a unit of distance in upper case.
lower_unit : Text → Text
lower_unit unit =
    if contains (map text ("M" ∷ "KM" ∷ "FT" ∷ "MI" ∷ [])) unit
    then to_ascii_lowercase unit
    else unit

lower_last : List Text → List Text
lower_last [] = []
lower_last (unit ∷ []) = lower_unit unit ∷ []
lower_last (arg ∷ other ∷ rest) = arg ∷ lower_last (other ∷ rest)

unfoldable pub normalize : RedisCommand → RedisCommand
unfolding lower_last lower_unit
normalize command =
    if text_eq command.name (text "GEODIST") && length command.args == 4
    then record command { args = lower_last command.args }
    else command

-- The policy does not read the arguments of GEODIST.
geodist_args :
    (sha256 : Text → Text) (identity : Identity) (command : RedisCommand) (args : List Text)
    → check_name sha256 identity (text "GEODIST") (record command { args = args })
      ≡ check_name sha256 identity (text "GEODIST") command
unfolding check_name hard_denied check_scripting blocks sorts_by_keys default_denied contains
    hard_deny scripting default_block
geodist_args sha256 identity command args = ground arith

uppercase_geodist : (name : Text) → name ≡ text "GEODIST" → to_ascii_uppercase name ≡ text "GEODIST"
unfolding to_ascii_uppercase
uppercase_geodist name e = ap to_ascii_uppercase e

-- Normalization runs after the policy check and hands it nothing new: the policy says the same of
-- a command and of its normalized form.
pub check-normalize :
    (sha256 : Text → Text) (identity : Identity) (command : RedisCommand)
    → check sha256 identity (normalize command) ≡ check sha256 identity command
unfolding normalize check
check-normalize sha256 identity command =
    elim (Bool-cases (text_eq command.name (text "GEODIST") && length command.args == 4)) [
      | inl hit ↦
          let named = (text_eq_iff command.name (text "GEODIST")).0 (ground arith) in
          let same = uppercase_geodist command.name named in
          rw (hit, same) (rw (geodist_args sha256 identity command (lower_last command.args)))
      | inr miss ↦ rw miss
    ]
