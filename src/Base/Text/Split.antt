-- ===== src/Base/Text/Split.antt =====
-- `split` undoes `join`, and `lastIndexOf` finds the separator before a text without one.
use Prim.Native.Nat.{ℕ}
use Prim.Native.Char.{Char, code}
use Prim.Native.String.append
use Prim.Native.String.{String, ◌++◌}
use mathlib.Core.Path.{◌≡◌, refl, ap, ◌∙◌}
use mathlib.Core.Bool.{Bool, true, not}
use mathlib.Core.List.{List, [], ◌∷◌}
use mathlib.Core.Option.{none, some}
use native.Mathlib.Omega.{arith}
use mini_drop_test.Base.Tests.{◌==◌}
use mini_drop_test.Base.Lists.{All}
use mini_drop_test.Base.Text.{split, split_last, join}
use mini_drop_test.Base.Text.Chars.{AllCodes, AllCodes-by_test, all_codes, AllCodes-append}

-- The text does not hold the separator.
abbrev pub Lacks : ℕ → String → Type 0
Lacks sep = AllCodes λ c. not (c == sep)

-- The same as a test, for texts that are written out
abbrev pub lacks : ℕ → String → Bool
lacks sep = all_codes λ c. not (c == sep)

pub Lacks-lacks : (sep : ℕ) (s : String) → lacks sep s ≡ true → Lacks sep s
Lacks-lacks sep s h = AllCodes-by_test (λ c. not (c == sep)) s h

pub split-Lacks : (sep : ℕ) (s : String) → Lacks sep s → split sep s ≡ s ∷ []
unfolding split
split-Lacks sep String.[] h = refl
split-Lacks sep (String.◌∷◌ c s) (h, hs) = rw (split-Lacks sep s hs) (ground arith)

pub split-append :
    (sep : Char) (s t : String)
    → Lacks (code sep) s
    → split (code sep) (s ++ String.◌∷◌ sep t) ≡ s ∷ split (code sep) t
unfolding split
split-append sep String.[] t h = rw (append.nil (String.◌∷◌ sep t)) (ground arith)
split-append sep (String.◌∷◌ c s) t (h, hs) =
    rw (append.cons c s (String.◌∷◌ sep t), split-append sep s t hs) (ground arith)

pub split-join :
    (sep : Char) (s : String) (ss : List String)
    → All (Lacks (code sep)) (s ∷ ss)
    → split (code sep) (join (String.◌∷◌ sep String.[]) (s ∷ ss)) ≡ s ∷ ss
unfolding join
split-join sep s [] (h, hs) = split-Lacks (code sep) s h
split-join sep s (t ∷ ss) (h, hs) =
    rw
      (
        append.cons sep String.[] (join (String.◌∷◌ sep String.[]) (t ∷ ss)),
        append.nil (join (String.◌∷◌ sep String.[]) (t ∷ ss)),
      )
      (split-append sep s (join (String.◌∷◌ sep String.[]) (t ∷ ss)) h
        ∙ ap (λ l. s ∷ l) (split-join sep t ss hs))

pub split_last-Lacks : (sep : ℕ) (s : String) → Lacks sep s → split_last sep s ≡ none
unfolding split_last
split_last-Lacks sep String.[] h = refl
split_last-Lacks sep (String.◌∷◌ c s) (h, hs) = rw (split_last-Lacks sep s hs) (ground arith)

split_last_later :
    (sep : ℕ) (c : Char) (s before after : String)
    → split_last sep s ≡ some (before, after)
    → split_last sep (String.◌∷◌ c s) ≡ some (String.◌∷◌ c before, after)
unfolding split_last
split_last_later sep c s before after e = rw e

pub split_last-append :
    (sep : Char) (s t : String)
    → Lacks (code sep) t
    → split_last (code sep) (s ++ String.◌∷◌ sep t) ≡ some (s, t)
unfolding split_last
split_last-append sep String.[] t h =
    rw (append.nil (String.◌∷◌ sep t), split_last-Lacks (code sep) t h) (ground arith)
split_last-append sep (String.◌∷◌ c s) t h =
    rw (append.cons c s (String.◌∷◌ sep t))
      (split_last_later (code sep) c (s ++ String.◌∷◌ sep t) s t (split_last-append sep s t h))

pub Lacks-append : (sep : ℕ) (s t : String) → Lacks sep s → Lacks sep t → Lacks sep (s ++ t)
Lacks-append sep s t h g = AllCodes-append (λ c. not (c == sep)) s t h g

pub Lacks-join :
    (c : ℕ) (sep : String) (ss : List String)
    → Lacks c sep
    → All (Lacks c) ss
    → Lacks c (join sep ss)
unfolding join
Lacks-join c sep [] h g = tt
Lacks-join c sep (s ∷ []) h (g, gs) = g
Lacks-join c sep (s ∷ t ∷ ss) h (g, gs) =
    let rest = join sep (t ∷ ss) in
    Lacks-append c s (sep ++ rest) g (Lacks-append c sep rest h (Lacks-join c sep (t ∷ ss) h gs))
