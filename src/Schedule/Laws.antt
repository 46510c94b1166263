-- ===== src/Schedule/Laws.antt =====
-- What the schedule form guarantees for the request behind it.
use mini_drop_test.Base.{◌≡◌, true, false, some, List, truthy, arith, head?, num_truthy}
use mini_drop_test.Domain.{HotmethodTask}
use mini_drop_test.Api.{Reply}
use mini_drop_test.Api.Requests.{create_schedule_task}
use mini_drop_test.Effects.{send}
use mini_drop_test.Schedule.{PanelState, can_submit, submit, schedule_payload}

-- An enabled button sends the task at once, with a name, a target, a PID, a duration, a rate and a
-- schedule that are given; nothing is being submitted afterwards.
pub can_submit-submit :
    (s : PanelState) (reply : Reply (Unit {0})) (list : Reply (List HotmethodTask))
    → can_submit s ≡ true
    → (head? (submit reply list s).1 ≡ some (send (create_schedule_task (schedule_payload s.form))))
      × (truthy (schedule_payload s.form).task_name ≡ true)
      × (truthy (schedule_payload s.form).target_ip ≡ true)
      × (num_truthy (schedule_payload s.form).pid ≡ true)
      × (num_truthy (schedule_payload s.form).duration ≡ true)
      × (num_truthy (schedule_payload s.form).hz ≡ true)
      × (truthy (schedule_payload s.form).cron_expr ≡ true)
      × ((submit reply list s).0.submitting ≡ false)
unfolding can_submit submit schedule_payload
can_submit-submit s reply list h = ground arith
