-- ===== src/Examples/Admission.antt =====
-- A direct prompt that is admitted, and a run of the daemon on its writers.
use ditch.Prelude.{◌≡◌, refl, false, none, ok, lookup}
use ditch.Runtime.State.{RuntimeState}
use ditch.Runtime.Admission.{WriterAdmission, acquire_with_intent, guard, drop}
use ditch.Runtime.Admission.Kept.{Apart}
use ditch.Runtime.Admission.Laws.{IsAdmitted, acquire-IsAdmitted}
use ditch.Runtime.Admission.Steps.{Run, Run-Apart}
use ditch.Examples.Claims.{calm, desk}
use ditch.Examples.Requests.{queue_board, asking}
use ditch.Runtime.Admission.{acquire_at}
use ditch.Runtime.Admission.{lease_root}
use ditch.Runtime.Admission.{grant}
use ditch.Runtime.Admission.{needed_lease}
use ditch.Runtime.Admission.{check_owner}
use ditch.Prelude.{member}
use ditch.Runtime.Writers.{reap_orphan_writers}
use ditch.Runtime.Writers.{release_all}
use ditch.Runtime.Writers.{exited}
use ditch.Prelude.{values}
use ditch.Runtime.Admission.{reserves}
use ditch.Queue.Board.{board_agent_owned}
use ditch.Queue.Board.{board_task_owns_agent}
use ditch.Runtime.Admission.{check_lease}
use ditch.Runtime.Admission.{excluded}
use ditch.Prelude.{has_key}
use ditch.Runtime.Admission.{check_linked}
use ditch.Runtime.Admission.{linked_task}
use ditch.Prelude.{find}
use ditch.Runtime.Admission.{record_lease}
use ditch.Store.Reservations.{reserve_writer}

abbrev prompted_board : RuntimeState
prompted_board =
    (acquire_with_intent calm 3 desk asking none WriterAdmission.direct_prompt queue_board).0

acquire_ok :
    acquire_with_intent calm 3 desk asking none WriterAdmission.direct_prompt queue_board
    ≡ (prompted_board, ok (guard 3 false))
unfolding acquire_with_intent acquire_at lease_root grant needed_lease check_owner member
    reap_orphan_writers release_all exited values reserves board_agent_owned board_task_owns_agent
    lookup check_lease excluded has_key check_linked linked_task find record_lease reserve_writer
acquire_ok = refl

acquire-IsAdmitted_example :
    IsAdmitted calm 3 desk asking none WriterAdmission.direct_prompt queue_board prompted_board
acquire-IsAdmitted_example =
    acquire-IsAdmitted calm 3 desk asking none WriterAdmission.direct_prompt queue_board
      prompted_board (guard 3 false) acquire_ok refl

no_leases : Apart queue_board
unfolding lookup
no_leases a b x y ha hb other = absurd (cc)

-- The prompt is admitted, and its guard is given up.
Run-Apart_example : Apart (drop calm (guard 3 false) prompted_board)
Run-Apart_example = Run-Apart no_leases (
    Run.dropped (Run.acquired Run.idle calm 3 desk asking none WriterAdmission.direct_prompt) calm
      (guard 3 false))
