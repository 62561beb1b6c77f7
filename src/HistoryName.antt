-- ===== src/HistoryName.antt =====
-- crates/onejudge/src/history_name.rs: the names under which judge-side calls are recorded.
use onejudge.Common.{Option, none, some, ◌++◌, Text, codes, map_some}

pub data JudgeSideCall : Type 0 where
  user judge assess : JudgeSideCall

pub record HistoryScope : Type 0 where
  pub base : Text
  pub label : Option Text

unfoldable pub call_suffix : JudgeSideCall → Text
call_suffix user = codes "user"
call_suffix judge = codes "judge"
call_suffix assess = codes "assess"

-- `labelled` of a name, and the method that gives a scope a label.
unfoldable pub labelled : Text → Option Text → Text
labelled name none = name
labelled name (some label) = name ++ (codes "-" ++ label)

unfoldable pub label_scope : HistoryScope → Text → HistoryScope
label_scope s label = record s { label = some label }

unfoldable pub scope_name : HistoryScope → JudgeSideCall → Text
scope_name s call = labelled (s.base ++ (codes "-" ++ call_suffix call)) s.label

unfoldable pub history_name : Option HistoryScope → JudgeSideCall → Option Text
history_name scope call = map_some (λ s. scope_name s call) scope
