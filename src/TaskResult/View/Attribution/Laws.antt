-- ===== src/TaskResult/View/Attribution/Laws.antt =====
-- The sections of a report, and the tab of the suggestions when there are none.
use mini_drop_test.Base.{
  ◌≡◌, refl, String, Bool, true, false, ◌&&◌, ◌||◌, Option, List, [], ◌∷◌, arith, All, any, str_eq,
  truthy, includes, trim, if◌then◌else◌,
}
use mathlib.Core.List
use mini_drop_test.Domain.{HotmethodTask}
use mini_drop_test.TaskResult.Evidence.{EvidenceRow, normalize_attribution_section_title}
use mini_drop_test.TaskResult.Panels.{Loaded, suggestions, visible_panel, empty_panel}
use mini_drop_test.TaskResult.View.Attribution.{
  parse_attribution_report, parts_from, report_of, sections_of, section_of, no_suggestions,
  suggestions_tab,
}

abbrev pub section_keys : List String
section_keys = "evidence" ∷ "conclusion" ∷ "hypothesis" ∷ "collection" ∷ "repair" ∷ []

-- The section's key is one of the five that the page looks up.
abbrev pub IsKnown : String × String → Type 0
IsKnown (key, body) = any (λ k. str_eq k key) section_keys ≡ true

abbrev IsKey : String → Type 0
IsKey key = any (λ k. str_eq k key) section_keys ≡ true

-- A chain of tests with a key each
abbrev first_of : List (Bool × String) → String
first_of [] = ""
first_of ((test, key) ∷ tests) = if test then key else first_of tests

first_of-IsKey :
    (tests : List (Bool × String))
    → All (λ t. IsKey t.1) tests
    → truthy (first_of tests) ≡ true
    → IsKey (first_of tests)
first_of-IsKey [] h t = cc t
first_of-IsKey ((true, key) ∷ tests) (h, hs) t = h
first_of-IsKey ((false, key) ∷ tests) (h, hs) t = first_of-IsKey tests hs t

abbrev title_tests : String → List (Bool × String)
title_tests title =
    (includes "证据" title, "evidence")
    ∷ (includes "结论" title, "conclusion")
    ∷ (includes "假设" title, "hypothesis")
    ∷ (includes "追加采集" title || includes "建议追加采集" title, "collection")
    ∷ (includes "优先修复" title || includes "修复" title, "repair")
    ∷ []

normalize-IsKey :
    (title : String)
    → truthy (normalize_attribution_section_title title) ≡ true
    → IsKey (normalize_attribution_section_title title)
unfolding normalize_attribution_section_title
normalize-IsKey title =
    first_of-IsKey (title_tests title) (refl, (refl, (refl, (refl, (refl, tt)))))

section-if :
    (key body : String) (there : Bool)
    → truthy key ≡ there
    → (truthy key ≡ true → IsKey key)
    → All IsKnown (if truthy key && truthy body then (key, body) ∷ [] else [])
section-if key body true e h = rw e (section-if_body (truthy body))
  where
    section-if_body : (b : Bool) → All IsKnown (if b then (key, body) ∷ [] else [])
    section-if_body true = (h e, tt)
    section-if_body false = tt
section-if key body false e h = rw e tt

All-append {ℓ κ} :
    {A : Type ℓ} (P : A → Type κ) (xs ys : List A) → All P xs → All P ys → All P (List.◌++◌ xs ys)
All-append P [] ys h g = g
All-append P (x ∷ xs) ys (h, hs) g = (h, All-append P xs ys hs g)

section_of-IsKnown : (title text : String) → All IsKnown (section_of (title, text))
unfolding section_of
section_of-IsKnown title text =
    section-if (normalize_attribution_section_title (trim title)) (trim text)
      (truthy (normalize_attribution_section_title (trim title))) refl
      (normalize-IsKey (trim title))

sections_of-IsKnown : (parts : List (String × String)) → All IsKnown (sections_of parts)
unfolding sections_of
sections_of-IsKnown [] = tt
sections_of-IsKnown ((title, text) ∷ parts) =
    All-append IsKnown (section_of (title, text)) (sections_of parts)
      (section_of-IsKnown title text) (sections_of-IsKnown parts)

-- Every section of a parsed report has one of the five keys that the page looks up, whatever the
-- report's headings are.
pub parse_attribution_report-IsKnown :
    (markdown : String) → All IsKnown (parse_attribution_report markdown)
unfolding parse_attribution_report
parse_attribution_report-IsKnown markdown = if-known (truthy markdown) (parts_from true 0 markdown)
  where
    report_known :
        (parts : String × List (String × String)) → All IsKnown (report_of markdown parts)
    report_known (text, []) = (refl, tt)
    report_known (text, part ∷ parts) = sections_of-IsKnown (part ∷ parts)

    if-known :
        (b : Bool) (parts : String × List (String × String))
        → All IsKnown (if b then report_of markdown parts else [])
    if-known true parts = report_known parts
    if-known false parts = tt

-- With evidence but no suggestions the tab is visible, yet its content is the text of a missing
-- artifact, not the evidence.
pub suggestions_tab-hides_evidence :
    (task : Option HotmethodTask) (d : Loaded) (rows : List EvidenceRow)
    → d.evidence_rows ≡ true
    → (visible_panel task d suggestions ≡ true)
      × (suggestions_tab task rows [] ≡ no_suggestions (empty_panel task suggestions))
unfolding visible_panel suggestions_tab
suggestions_tab-hides_evidence task d rows h = ground (arith, h)
