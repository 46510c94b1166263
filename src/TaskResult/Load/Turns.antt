-- ===== src/TaskResult/Load/Turns.antt =====
-- loadTask turn by turn: several loads can be under way at once, and the id can change or the page
-- can be left while they wait. The requests of one try block but the Memray page's are answered in
-- one turn.
pub mod Alone
pub mod Events
pub mod Urls
pub mod Leaving
pub mod Late
pub mod Stale
mod Tests
use mini_drop_test.Base.{
  ℕ, zero, suc, String, Bool, true, false, not, ◌&&◌, Option, none, some, List, [], ◌∷◌, ◌++◌,
  truthy, str_eq, filter, if◌then◌else◌, or_else,
}
use mini_drop_test.Domain.{HotmethodTask, TaskDetailData}
use mini_drop_test.Api.{Reply, response, rejected, failure_text, is_ok}
use mini_drop_test.Api.Requests.{get_task_detail, fetch_artifact_text, trigger_analysis}
use mini_drop_test.Effects.{
  Effect, Run, send, create_object_url, revoke_object_url, notify_success, notify_error,
}
use mini_drop_test.TaskResult.State.{PageState, clear_for_load, reset, leave, initial}
use mini_drop_test.TaskResult.Load.{
  Replies, Reader, Fetched, got, refused, load_suggestions, load_flame, load_files, load_top,
  load_stacks, load_ebpf, load_pprof, load_optional, with_detail, show_html, take_html, key_of,
  memray_file, load_memray,
}

-- The requests between the detail and the Memray page, in their order
pub data Request : Type 0 where
  suggestions flame files top stacks ebpf pprof optional : Request

-- What a load waits for. `settle` is the outer `finally`.
pub data Stage : Type 0 where
  trigger : Reply (Unit {0}) → Stage
  detail memray settle : Stage
  ask : Request → Stage
  memray_answer : String → Stage

abbrev pub requests : List Stage
requests =
    ask suggestions
    ∷ ask flame
    ∷ ask files
    ∷ ask top
    ∷ ask stacks
    ∷ ask ebpf
    ∷ ask pprof
    ∷ ask optional
    ∷ []

-- A turn gives the page, the effects, and the stages that come before the others of the load.
abbrev pub Turn : Type 0 → Type 0
Turn J = (PageState J × List Effect) × List Stage

module _ {J : Type 0} (reader : Reader J) (w : Replies J) (tid : String) where
  abbrev pub load_of : Request → PageState J → Run (PageState J)
  load_of suggestions = load_suggestions reader w tid
  load_of flame = load_flame reader w tid
  load_of files = load_files reader w tid
  load_of top = load_top reader w tid
  load_of stacks = load_stacks reader w tid
  load_of ebpf = load_ebpf reader w tid
  load_of pprof = load_pprof reader w tid
  load_of optional = load_optional reader w tid

  -- `loadTask` up to its first await
  unfoldable pub begin : PageState J → Turn J
  unfolding clear_for_load
  begin s =
      if truthy tid
      then ((clear_for_load J s, send (get_task_detail tid) ∷ []), detail ∷ settle ∷ [])
      else ((record s { error = "缺少任务 ID"; loading = false }, []), [])

  abbrev failed_turn : String → PageState J → Turn J
  failed_turn message s = ((record s { error = message }, []), [])

  pub found_turn : TaskDetailData → Option HotmethodTask → Option String → PageState J → Turn J
  found_turn d none message s = failed_turn (or_else message "任务不存在") s
  found_turn d (some task) message s =
      ((with_detail reader w tid d task s, []), requests ++ (memray ∷ []))

  pub detail_turn : Option TaskDetailData → Bool → Option String → PageState J → Turn J
  unfolding found_turn
  detail_turn (some d) true message s = found_turn d d.task message s
  detail_turn _ _ message s = failed_turn (or_else message "任务不存在") s

  pub reply_turn : Reply TaskDetailData → PageState J → Turn J
  unfolding detail_turn
  reply_turn (rejected e) s = failed_turn (failure_text "任务详情加载失败" e) s
  reply_turn (response res) s = detail_turn res.payload (is_ok res) res.message s

  -- The Memray page is asked for where no object URL is held.
  pub memray_turn : Option String → PageState J → Turn J
  memray_turn none s = ((s, []), [])
  memray_turn (some key) s = if truthy s.memray_object_url then ((s, []), []) else (
    (record s { memray_loading = true }, send (fetch_artifact_text tid key) ∷ []),
    memray_answer key ∷ [],
  )

  -- Another load may have shown its page while this one waited: its URL is released first.
  pub answer_turn : Fetched (Option String) → PageState J → Run (PageState J)
  unfolding take_html show_html
  answer_turn (got (some html)) s =
      let (t, effects) = take_html reader w tid (got (some html)) s in
      (
        record t { memray_loading = false },
        if truthy html && truthy s.memray_object_url
            then revoke_object_url s.memray_object_url ∷ effects
            else effects,
      )
  answer_turn fetched s =
      let (t, effects) = take_html reader w tid fetched s in
      (record t { memray_loading = false }, effects)

  pub trigger_turn : Reply (Unit {0}) → PageState J → Turn J
  unfolding begin
  trigger_turn (rejected e) s = ((s, notify_error (failure_text "触发分析失败" e) ∷ []), [])
  trigger_turn (response res) s =
      let ((t, effects), stages) = begin s in ((t, notify_success "分析已触发" ∷ effects), stages)

  unfoldable pub turn : Stage → PageState J → Turn J
  unfolding reply_turn memray_turn answer_turn trigger_turn
  turn (trigger reply) s = trigger_turn reply s
  turn detail s = reply_turn w.detail s
  turn (ask request) s = (load_of request s, [])
  turn memray s = memray_turn (key_of (memray_file reader w tid)) s
  turn (memray_answer key) s = (answer_turn (w.artifact_text key) s, [])
  turn settle s = ((record s { loading = false }, []), [])
