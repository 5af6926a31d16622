-- ===== src/Answering.antt =====
-- src/agent_runs/answering.py, and `KeyInfo` of src/agent_runs/keys.py: who may answer a paused
-- run and who may cancel one. The texts of the refusals are not kept.
pub mod Rule
use Prim.Native.Char.{code}
use Prim.Native.String.{◌++◌}
use agent_runs.Base.{
  String, Bool, true, false, Option, none, some, List, ◌||◌, not, ◌==◌, str_eq, contains, truthy,
  if◌then◌else◌, Result, ok, err, forbidden, raise_if, ◌>>◌,
}

-- `tenant_id` is `none` for a platform key.
pub record KeyInfo : Type 0 where
  pub key_id : String
  pub tenant_id : Option String
  pub principal : String
  pub role : String
  pub may_act_as : List String

unfoldable pub may_act_for : KeyInfo → String → Bool
may_act_for key who =
    str_eq who key.principal || contains "*" key.may_act_as || contains who key.may_act_as

-- `role in ADMINISTERING_ROLES`
unfoldable pub administers : String → Bool
administers role = str_eq role "admin" || str_eq role "platform"

-- `":" in name`
unfoldable pub has_kind : String → Bool
has_kind String.[] = false
has_kind (String.◌∷◌ c s) = code c == b':' || has_kind s

-- `name.partition(":")[0]`
unfoldable pub kind_of : String → String
kind_of String.[] = String.[]
kind_of (String.◌∷◌ c s) =
    let rest = kind_of s in if code c == b':' then String.[] else String.◌∷◌ c rest

unfoldable pub as_principal : String → String
as_principal name = if has_kind name then name else "user:" ++ name

-- `kind in INDIVIDUAL_KINDS`
unfoldable pub is_individual : String → Bool
is_individual kind = str_eq kind "user" || str_eq kind "agent" || str_eq kind "key"

-- Who a key answers as: the reviewer it names, or itself.
unfoldable pub answering : KeyInfo → Option String → String
answering key none = key.principal
answering key (some reviewer) =
    if truthy (some reviewer) then as_principal reviewer else key.principal

-- The run's assignee, as the rule for a key restricted to listed principals reads it.
unfoldable pub check_assignee : Option String → String → Result (Unit {0})
check_assignee none who = ok tt
check_assignee (some assignee) who =
    let assigned = as_principal assignee in
    if not (is_individual (kind_of assigned)) || not (str_eq assigned who)
    then err forbidden
    else ok tt

unfoldable pub require_may_answer : KeyInfo → Option String → Option String → Result (Unit {0})
unfolding check_assignee
require_may_answer key assignee reviewer =
    if administers key.role || contains "*" key.may_act_as then ok tt else do
      raise_if (not (may_act_for key (answering key reviewer))) forbidden
      check_assignee assignee (answering key reviewer)

-- The reviewer a cancel is checked as: the assignee, where the key may act for it.
unfoldable pub as_assignee : KeyInfo → Option String → Option String
as_assignee key none = none
as_assignee key (some assignee) =
    if truthy (some assignee)
    then (if may_act_for key (as_principal assignee) then some assignee else none)
    else none

unfoldable pub require_may_cancel : KeyInfo → Option String → Result (Unit {0})
unfolding as_assignee
require_may_cancel key assignee = require_may_answer key assignee (as_assignee key assignee)
