-- ===== src/TaskResult/Evidence.antt =====
-- normalizeAttributionSectionTitle and flattenAttributionEvidence. The values of the evidence are
-- the texts that they print as; a missing value of the concentration prints as 0.
use Prim.Native.String.{◌++◌}
use mini_drop_test.Base.{
  ◌+◌, ◌≤◌, ◌≡◌, String, true, ◌||◌, Option, none, some, List, [], ◌∷◌, map, if◌then◌else◌, truthy,
  or_text, value_or, includes, filter, join, length, length-filter_le, length-append, length-map,
  All, All-filter, arith,
}
use mathlib.Core.List

unfoldable pub normalize_attribution_section_title : String → String
unfolding includes
normalize_attribution_section_title title =
    if includes "证据" title
    then "evidence"
    else if includes "结论" title
    then "conclusion"
    else if includes "假设" title
    then "hypothesis"
    else if includes "追加采集" title || includes "建议追加采集" title
    then "collection"
    else if includes "优先修复" title || includes "修复" title
    then "repair"
    else ""

pub record EvidenceRow : Type 0 where
  pub id : String
  pub text : String

pub record Concentration : Type 0 where
  pub evidence_id : String
  pub total_samples : String
  pub top_1_pct : String
  pub top_3_pct : String
  pub gini_coefficient : Option String

pub record Hotspot : Type 0 where
  pub evidence_id : String
  pub rank : String
  pub func : String
  pub self : String
  pub self_pct : String

pub record HotPath : Type 0 where
  pub evidence_id : String
  pub pct : String
  pub stack_tail : Option (List String)

pub record RuleHit : Type 0 where
  pub evidence_id : String
  pub func : String
  pub advice : String

pub record Evidence : Type 0 where
  pub concentration : Option Concentration
  pub topn_hotspots : List Hotspot
  pub hot_paths : List HotPath
  pub rule_hits : List RuleHit

concentration_text : Concentration → String
concentration_text c =
    "总采样 "
    ++ (or_text c.total_samples "0"
        ++ ("，Top1 "
            ++ (or_text c.top_1_pct "0"
                ++ ("%，Top3 "
                    ++ (or_text c.top_3_pct "0"
                        ++ ("%，Gini " ++ value_or "0" c.gini_coefficient))))))

concentration_rows : Option Concentration → List EvidenceRow
unfolding concentration_text
concentration_rows none = []
concentration_rows (some c) =
    if truthy c.evidence_id
    then record { id = c.evidence_id; text = concentration_text c } ∷ []
    else []

abbrev hotspot_row : Hotspot → EvidenceRow
hotspot_row item = record {
  id = item.evidence_id;
  text =
      "Top"
      ++ (item.rank
          ++ (" "
              ++ (item.func ++ (" self=" ++ (item.self ++ ("，占比 " ++ (item.self_pct ++ "%")))))));
}

stack_text : Option (List String) → String
unfolding join
stack_text none = "-"
stack_text (some frames) = join " -> " frames

abbrev path_row : HotPath → EvidenceRow
path_row item = record {
  id = item.evidence_id;
  text = "热路径占比 " ++ (item.pct ++ ("%：" ++ stack_text item.stack_tail));
}

abbrev hit_row : RuleHit → EvidenceRow
hit_row item = record {
  id = item.evidence_id;
  text = "规则命中 " ++ (item.func ++ ("：" ++ or_text item.advice "-"));
}

all_rows : Evidence → List EvidenceRow
unfolding concentration_rows stack_text
all_rows e = List.◌++◌ (concentration_rows e.concentration) (
    List.◌++◌ (map hotspot_row e.topn_hotspots)
      (List.◌++◌ (map path_row e.hot_paths) (map hit_row e.rule_hits)))

unfoldable pub flatten_attribution_evidence : Option Evidence → List EvidenceRow
unfolding all_rows
flatten_attribution_evidence none = []
flatten_attribution_evidence (some e) = filter (λ row. truthy row.id) (all_rows e)

length-concentration_rows_le : (c : Option Concentration) → length (concentration_rows c) ≤ 1
unfolding concentration_rows
length-concentration_rows_le none = omega arith
length-concentration_rows_le (some c) = ground arith

length-all_rows_le :
    (e : Evidence)
    → length (all_rows e) ≤ 1 + length e.topn_hotspots + length e.hot_paths + length e.rule_hits
unfolding all_rows
length-all_rows_le e = omega (
  arith,
  length-concentration_rows_le e.concentration,
  length-append (concentration_rows e.concentration) (
      List.◌++◌ (map hotspot_row e.topn_hotspots)
        (List.◌++◌ (map path_row e.hot_paths) (map hit_row e.rule_hits))),
  length-append (map hotspot_row e.topn_hotspots)
      (List.◌++◌ (map path_row e.hot_paths) (map hit_row e.rule_hits)),
  length-append (map path_row e.hot_paths) (map hit_row e.rule_hits),
  length-map hotspot_row e.topn_hotspots,
  length-map path_row e.hot_paths,
  length-map hit_row e.rule_hits,
)

-- Every row that is shown has an id, and there are at most as many rows as pieces of evidence.
pub flatten_attribution_evidence_bounds :
    (e : Evidence)
    → All (λ row. truthy row.id ≡ true) (flatten_attribution_evidence (some e))
      × (length (flatten_attribution_evidence (some e))
          ≤ 1 + length e.topn_hotspots + length e.hot_paths + length e.rule_hits)
unfolding flatten_attribution_evidence
flatten_attribution_evidence_bounds e = (
  All-filter (λ row. truthy row.id) (all_rows e),
  omega (
    arith,
    length-filter_le (λ (row : EvidenceRow). truthy row.id) (all_rows e),
    length-all_rows_le e,
  ),
)
