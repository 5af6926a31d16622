-- ===== src/Tests/Calls.antt =====
-- A key asked about twice.
use agent_runs.Base.{some, List, []}
use agent_runs.Answering.{KeyInfo}
use agent_runs.Keys.{replied, Entry, resolve, Asking, asked}

abbrev info : KeyInfo
info = record {
  key_id = "k";
  tenant_id = some "t";
  principal = "ann";
  role = "service";
  may_act_as = [];
}

abbrev log : List Asking
log = asked "d" 0 (replied 200 (some info)) [] []

abbrev cache : List Entry
cache = (resolve "d" 0 (replied 200 (some info)) []).1
