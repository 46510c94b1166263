-- ===== src/TaskResult/View/Attribution.antt =====
-- parseAttributionReport, AttributionSection and the tab of the suggestions. The sections of a
-- report are the entries of its object, in the order in which they are written.
pub mod Laws
mod Tests
use Prim.Native.Char.{Char, code}
use Prim.Native.String
use Prim.Native.String.{◌++◌}
use mini_drop_test.Base.{
  ℕ, zero, suc, ◌+◌, ◌-◌, String, Bool, true, false, not, ◌&&◌, ◌||◌, Option, none, some, List, [],
  ◌∷◌, map, filter, take, truthy, or_text, is_space, trim, trim_start, trim_end, includes, join,
  str_eq, ◌==◌, if◌then◌else◌, is_empty,
}
use mathlib.Core.List
use mini_drop_test.Domain.{AnalysisSuggestion, HotmethodTask}
use mini_drop_test.TaskResult.Evidence.{EvidenceRow, normalize_attribution_section_title}
use mini_drop_test.TaskResult.Panels.{suggestions, empty_panel}

-- The line ends of `^`, `$` and `.`
abbrev is_line_end : ℕ → Bool
is_line_end c = c == 10 || c == 13 || c == 8232 || c == 8233

text_size : String → ℕ
text_size String.[] = 0
text_size (String.◌∷◌ c s) = suc (text_size s)

until_line_end : String → String
until_line_end String.[] = String.[]
until_line_end (String.◌∷◌ c s) =
    if is_line_end (code c) then String.[] else String.◌∷◌ c (until_line_end s)

-- Whether some code point ends no line
inline : String → Bool
inline String.[] = false
inline (String.◌∷◌ c s) = let rest = inline s in not (is_line_end (code c)) || rest

abbrev tail : String → String
tail String.[] = String.[]
tail (String.◌∷◌ c s) = s

abbrev starts_with_space : String → Bool
starts_with_space String.[] = false
starts_with_space (String.◌∷◌ c s) = is_space (code c)

-- `\s+(.+?)\s*$` behind `##`: the title, and the number of code points up to its end. Where only
-- white space is left, `.+?` can still take one that ends no line, and the title is white space.
title_at : String → Option (String × ℕ)
unfolding trim_start until_line_end trim_end text_size inline
title_at s =
    let rest = trim_start s in
    let title = trim_end (until_line_end rest) in
    if not (starts_with_space s)
    then none
    else if truthy rest
    then some (title, text_size s - text_size rest + text_size title)
    else if inline (tail s)
    then some ("", text_size s)
    else none

-- `##` at a place where `^` matches
heading_at : String → Option (String × ℕ)
unfolding title_at
heading_at String.[] = none
heading_at (String.◌∷◌ c String.[]) = none
heading_at (String.◌∷◌ c (String.◌∷◌ d s)) =
    if code c == b'#' && code d == b'#' then title_at s else none

-- The text up to the first heading, and each heading with the text up to the next
abbrev Parts : Type 0
Parts = String × List (String × String)

abbrev push : Char → Parts → Parts
push c (text, sections) = (String.◌∷◌ c text, sections)

abbrev open_section : String → Parts → Parts
open_section title (text, sections) = ("", (title, text) ∷ sections)

-- `skip` code points of a heading are left to pass over; a heading is looked for at a line's start.
parts_from : Bool → ℕ → String → Parts
unfolding heading_at
parts_from start skip String.[] = ("", [])
parts_from start (suc skip) (String.◌∷◌ c s) = parts_from false skip s
parts_from start zero (String.◌∷◌ c s) =
    elim (if start then heading_at (String.◌∷◌ c s) else none) [
      | none ↦ push c (parts_from (is_line_end (code c)) zero s)
      | some (title, size) ↦ open_section title (parts_from false (suc size) s)
    ]

-- `if (key && body) sections[key] = body`
section_of : String × String → List (String × String)
unfolding trim normalize_attribution_section_title
section_of (title, text) =
    let key = normalize_attribution_section_title (trim title) in
    let body = trim text in if truthy key && truthy body then (key, body) ∷ [] else []

sections_of : List (String × String) → List (String × String)
unfolding section_of
sections_of [] = []
sections_of (part ∷ parts) = List.◌++◌ (section_of part) (sections_of parts)

abbrev report_of : String → Parts → List (String × String)
unfolding sections_of trim
report_of markdown (text, []) = ("conclusion", trim markdown) ∷ []
report_of markdown (text, part ∷ parts) = sections_of (part ∷ parts)

unfoldable pub parse_attribution_report : String → List (String × String)
unfolding parts_from sections_of trim
parse_attribution_report markdown =
    if truthy markdown then report_of markdown (parts_from true zero markdown) else []

-- `sections.key`: the last entry of that key
unfoldable pub section : String → List (String × String) → Option String
section key [] = none
section key ((k, body) ∷ sections) = elim (section key sections) [
  | some later ↦ some later
  | none ↦ if str_eq k key then some body else none
]

abbrev or_missing : Option String → String → String
or_missing none other = other
or_missing (some s) other = or_text s other

abbrev text_or_empty : Option String → String
text_or_empty none = ""
text_or_empty (some s) = s

-- AttributionSection: its title and the text below it
unfoldable pub attribution_section : String → String → String → String × String
unfolding join
attribution_section title content extra =
    (title, or_text (join "\n" (filter truthy (extra ∷ content ∷ []))) "暂无")

abbrev evidence_line : EvidenceRow → String
evidence_line row = row.id ++ (" " ++ row.text)

-- The rows of the evidence that stand with the report, at most eight
unfoldable pub evidence_extra : List EvidenceRow → String
unfolding join
evidence_extra rows = join "\n" (map evidence_line (take 8 rows))

abbrev overall_sections :
    List EvidenceRow → String → List (String × String) → List (String × String)
unfolding attribution_section section evidence_extra
overall_sections rows suggestion sections =
    attribution_section "证据" (or_missing (section "evidence" sections) suggestion)
      (evidence_extra rows)
    ∷ attribution_section "结论" (or_missing (section "conclusion" sections) suggestion) ""
    ∷ attribution_section "可验证假设" (text_or_empty (section "hypothesis" sections)) ""
    ∷ attribution_section "追加采集"
        (or_missing (section "collection" sections) (text_or_empty (section "repair" sections))) ""
    ∷ []

-- The labelled texts of a suggestion that is no overall report; a dash where it has none
abbrev labelled : String → String → List (String × String)
labelled label text = if truthy text then (label, text) ∷ [] else []

abbrev or_dash : List (String × String) → List (String × String)
or_dash [] = ("", "-") ∷ []
or_dash (x ∷ xs) = x ∷ xs

abbrev plain_lines : String → String → List (String × String)
plain_lines suggestion ai_suggestion =
    or_dash (List.◌++◌ (labelled "规则命中：" suggestion) (labelled "归因说明：" ai_suggestion))

unfoldable pub is_overall : AnalysisSuggestion → Bool
unfolding includes
is_overall item = str_eq item.func "整体归因报告" || includes "## 证据" item.ai_suggestion

pub data CardBody : Type 0 where
  overall : List (String × String) → CardBody
  plain : List (String × String) → CardBody

unfoldable pub suggestion_card : List EvidenceRow → AnalysisSuggestion → String × CardBody
unfolding is_overall overall_sections parse_attribution_report
suggestion_card rows item = (
  or_text item.func "归因项",
  if is_overall item
      then overall
          (overall_sections rows item.suggestion (parse_attribution_report item.ai_suggestion))
      else plain (plain_lines item.suggestion item.ai_suggestion),
)

-- The tab of the suggestions
pub data SuggestionsTab : Type 0 where
  no_suggestions : String → SuggestionsTab
  suggestion_cards : List (String × CardBody) → SuggestionsTab

unfoldable pub suggestions_tab :
    Option HotmethodTask → List EvidenceRow → List AnalysisSuggestion → SuggestionsTab
unfolding suggestion_card empty_panel
suggestions_tab task rows [] = no_suggestions (empty_panel task suggestions)
suggestions_tab task rows (item ∷ items) =
    suggestion_cards (map (suggestion_card rows) (item ∷ items))
