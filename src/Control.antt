-- ===== src/Control.antt =====
-- crates/onejudge/src/control.rs: where a turn in flight can be redirected from outside.
use onejudge.Common.{Option, none, some, Text}

pub record ControlAddress : Type 0 where
  pub session : Text
  pub session_dir : Text
  pub cwd : Text

pub data ControlOutcome : Type 0 where
  not_requested : ControlOutcome
  open_at : ControlAddress → ControlOutcome
  unavailable : Text → ControlOutcome

unfoldable pub address : ControlOutcome → Option ControlAddress
address not_requested = none
address (open_at a) = some a
address (unavailable reason) = none

unfoldable pub unavailable_reason : ControlOutcome → Option Text
unavailable_reason not_requested = none
unavailable_reason (open_at a) = none
unavailable_reason (unavailable reason) = some reason
