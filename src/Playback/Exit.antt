-- ===== src/Playback/Exit.antt =====
-- src/playback/exit_policy.h: what the stream loop does when it ends.
use squeeze2raop.Base.{Bool, if◌then◌else◌}

pub data ExitAction : Type 0 where
  silent_stop retry gave_up ended_eof ended_error : ExitAction

pub record ExitInputs : Type 0 where
  pub stopping : Bool
  pub lost : Bool
  pub retry_used : Bool
  pub reached_eof : Bool

unfoldable pub decide_exit : ExitInputs → ExitAction
decide_exit i =
    if i.stopping
    then silent_stop
    else if i.lost
    then (if i.retry_used then gave_up else retry)
    else if i.reached_eof
    then ended_eof
    else ended_error
