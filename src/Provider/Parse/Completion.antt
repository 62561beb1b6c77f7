-- ===== src/Provider/Parse/Completion.antt =====
-- What a supervisor has to answer for its answer to be read as a completion.
use onejudge.Common.{◌≡◌, true, false, none, some, Text, is_empty}
use onejudge.Platform.{Platform}
use onejudge.Provider.Parse.{extract_json_object, read_completion, read_reason, read_message}

-- An object whose `completion` is true, with a reason that is not blank and with no message.
pub record Completes (d : Platform) (text reason : Text) : Type 0 where
  pub json : Text
  pub found : extract_json_object text ≡ some json
  pub parsed : d.parses json ≡ true
  pub completion : read_completion d (d.from_str json) ≡ some true
  pub reads_reason : read_reason d (d.from_str json) ≡ reason
  pub has_reason : is_empty reason ≡ false
  pub no_message : read_message d (d.from_str json) ≡ none
