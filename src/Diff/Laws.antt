-- ===== src/Diff/Laws.antt =====
-- What the comparison sends and offers.
use mini_drop_test.Base.{
  ◌≡◌, String, true, false, not, List, [], ◌∷◌, truthy, trim, str_eq, arith, All, All-take,
  All-filter, take, filter, length, length-take_le, ◌≤◌, eq_refl,
}
use mini_drop_test.Api.{Reply}
use mini_drop_test.Api.Requests.{flame_diff}
use mini_drop_test.Effects.{send}
use mini_drop_test.Diff.{DiffState, TaskOption, do_diff, helper_options}

abbrev IsOther : String → TaskOption → Type 0
IsOther tid option = not (str_eq option.tid tid) ≡ true

six_of :
    (tid : String) (options : List TaskOption)
    → (length (take 6 (filter (λ option. not (str_eq option.tid tid)) options)) ≤ 6)
      × All (IsOther tid) (take 6 (filter (λ option. not (str_eq option.tid tid)) options))
six_of tid options = (
  length-take_le 6 (filter (λ option. not (str_eq option.tid tid)) options),
  All-take (IsOther tid) 6 (filter (λ option. not (str_eq option.tid tid)) options)
      (All-filter (λ option. not (str_eq option.tid tid)) options),
)

module _ {R : Type 0} where
  -- A request that is sent compares the two fields, trimmed, and they are given and different.
  pub do_diff-sends_different :
      (reply : Reply R) (s : DiffState R) (tid1 tid2 : String)
      → (do_diff R reply s).1 ≡ send (flame_diff tid1 tid2) ∷ []
      → (str_eq tid1 tid2 ≡ false)
        × (truthy tid1 ≡ true)
        × (truthy tid2 ≡ true)
        × (tid1 ≡ trim s.tid1)
        × (tid2 ≡ trim s.tid2)
  unfolding do_diff
  do_diff-sends_different reply s tid1 tid2 h = ground arith

  -- At most six tasks are offered for a field, and never the one of the other field.
  pub helper_options-offers :
      (s : DiffState R)
      → (length (helper_options R s.tid1 s) ≤ 6) × All (IsOther s.tid2) (helper_options R s.tid1 s)
  unfolding helper_options
  helper_options-offers s = rw (eq_refl s.tid1) (six_of s.tid2 s.task_options)
