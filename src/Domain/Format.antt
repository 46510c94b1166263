-- ===== src/Domain/Format.antt =====
-- web/src/domain.ts: formatDate, formatRelativeTime, formatDuration and basename.
-- Instants are milliseconds from 1970 on; `Date` and its locale format are parameters.
use Prim.Native.String.{◌++◌}
use mathlib.Core.Option
use mini_drop_test.Base.{
  ℕ, ◌+◌, ◌-◌, ◌/◌, String, Option, none, some, ltb, leb, if◌then◌else◌, truthy, or_text, show,
  split, filter, get_last?,
}
use mini_drop_test.Domain.Records.{HotmethodTask}
use mini_drop_test.Domain.Params.{Parsed, parse_task_params}

-- `if (!value) return '-'` for an optional text
abbrev with_text : Option String → (String → String) → String
with_text none f = "-"
with_text (some s) f = if truthy s then f s else "-"

abbrev with_time : Option ℕ → (ℕ → String) → String
with_time none f = "-"
with_time (some t) f = f t

relative : ℕ → String
relative delta =
    if ltb delta 60
    then show delta ++ " 秒前"
    else if ltb delta 3600
    then show (delta / 60) ++ " 分钟前"
    else if ltb delta 86400
    then show (delta / 3600) ++ " 小时前"
    else show (delta / 86400) ++ " 天前"

-- `get_time` is `new Date(value).getTime()`, with `none` for NaN.
module _ (get_time : String → Option ℕ) where
  unfoldable pub format_date : (ℕ → String) → Option String → String
  format_date to_locale value = with_text value (λ s. with_time (get_time s) to_locale)

  -- `now - time` stops at 0, as `Math.max(0, ...)` makes it.
  unfoldable pub format_relative_time : ℕ → Option String → String
  unfolding relative
  format_relative_time now value =
      with_text value (λ s. with_time (get_time s) (λ time. relative ((now - time) / 1000)))

  -- `Math.round((end - begin) / 1000)` seconds, if both instants are there and in order
  abbrev elapsed : Option ℕ → Option ℕ → String
  elapsed (some begin) (some end) =
      if leb begin end then show ((end - begin + 500) / 1000) ++ "s" else "-"
  elapsed _ _ = "-"

  abbrev time_at : Option String → Option ℕ
  time_at none = none
  time_at (some s) = if truthy s then get_time s else none

  -- A duration of 0 counts as missing.
  abbrev duration_text : Option ℕ → String → String
  duration_text none fallback = fallback
  duration_text (some n) fallback = if ltb 0 n then show n ++ "s" else fallback

  -- `none` is the TypeError of reading a field of null.
  unfoldable pub format_duration : (String → Parsed) → HotmethodTask → Option String
  unfolding parse_task_params
  format_duration json_parse task =
      Option.map
        (λ params.
          duration_text params.duration (elapsed (time_at task.begin_time) (time_at task.end_time)))
        (parse_task_params json_parse task.request_params)

abbrev basename_of : String → Option String → String
basename_of path none = path
basename_of path (some last) = or_text last path

-- `path.split('/').filter(Boolean).pop() || path`
unfoldable pub basename : Option String → String
basename path = with_text path (λ s. basename_of s (get_last? (filter truthy (split b'/' s))))
