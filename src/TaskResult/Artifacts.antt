-- ===== src/TaskResult/Artifacts.antt =====
-- The files that the page looks for among a task's artifacts.
use Prim.Native.Char.{Char, code}
use mini_drop_test.Base.{
  ℕ, String, Bool, not, ◌&&◌, ◌||◌, Option, none, some, List, [], ◌∷◌, ◌≡◌, refl, ap, ◌∙◌,
  if◌then◌else◌, lookup, value_or, str_eq, truthy, or_else, ends_with, includes, filter, find?,
  find?-holds, head?, sort, insert, arith, starts_with,
}
use mini_drop_test.Domain.{CosFile}
use mini_drop_test.Domain.Format.{basename}

-- The letters that `toLowerCase` sends into ASCII; the Kelvin sign is one of them.
abbrev lower_letters : List (ℕ × Char)
lower_letters =
    (65, "a")
    ∷ (66, "b")
    ∷ (67, "c")
    ∷ (68, "d")
    ∷ (69, "e")
    ∷ (70, "f")
    ∷ (71, "g")
    ∷ (72, "h")
    ∷ (73, "i")
    ∷ (74, "j")
    ∷ (75, "k")
    ∷ (76, "l")
    ∷ (77, "m")
    ∷ (78, "n")
    ∷ (79, "o")
    ∷ (80, "p")
    ∷ (81, "q")
    ∷ (82, "r")
    ∷ (83, "s")
    ∷ (84, "t")
    ∷ (85, "u")
    ∷ (86, "v")
    ∷ (87, "w")
    ∷ (88, "x")
    ∷ (89, "y")
    ∷ (90, "z")
    ∷ (8490, "k")
    ∷ []

-- `toLowerCase`, as far as a comparison with an ASCII text can tell
unfoldable pub to_lower_case : String → String
to_lower_case String.[] = String.[]
to_lower_case (String.◌∷◌ c s) =
    String.◌∷◌ (value_or c (lookup (code c) lower_letters)) (to_lower_case s)

-- `file.key || file.name || ''`
abbrev pub file_key : CosFile → String
file_key file = or_else file.key (or_else file.name "")

unfoldable pub artifact_name : CosFile → String
unfolding to_lower_case basename
artifact_name file = to_lower_case (basename (some (file_key file)))

unfoldable pub is_collapsed_artifact : CosFile → Bool
unfolding artifact_name ends_with
is_collapsed_artifact file =
    str_eq (artifact_name file) "collapsed.txt" || ends_with ".collapsed" (artifact_name file)

unfoldable pub is_analysis_artifact : CosFile → Bool
is_analysis_artifact file = truthy (file_key file) && not (starts_with (file_key file) "profiler/")

abbrev is_memray_key : String → Bool
unfolding includes
is_memray_key key = includes "memray" key || starts_with key "profiler/"

unfoldable pub is_memray_html_artifact : CosFile → Bool
unfolding to_lower_case basename ends_with is_memray_key
is_memray_html_artifact file =
    ends_with ".html" (basename (some (to_lower_case (file_key file))))
    && is_memray_key (to_lower_case (file_key file))

-- `files.find(f => basename(...).toLowerCase() === name)`
unfoldable pub find_artifact : String → List CosFile → Option CosFile
unfolding artifact_name
find_artifact name files = find? (λ file. str_eq (artifact_name file) name) files

-- `Number(!isAnalysisArtifact(a)) - Number(!isAnalysisArtifact(b))` is negative.
abbrev pub analysis_first : CosFile → CosFile → Bool
analysis_first a b = is_analysis_artifact a && not (is_analysis_artifact b)

unfoldable pub collapsed_file : List CosFile → Option CosFile
unfolding sort
collapsed_file files = head? (sort analysis_first (filter is_collapsed_artifact files))

abbrev pub or_first {ℓ} : {A : Type ℓ} → Option A → Option A → Option A
or_first (some a) other = some a
or_first none other = other

abbrev first_best : List CosFile → Option CosFile
first_best files = or_first (find? is_analysis_artifact files) (head? files)

best_of : CosFile → Option CosFile → Option CosFile
best_of x none = some x
best_of x (some y) = some (if analysis_first y x then y else x)

head?-insert :
    (x : CosFile) (ys : List CosFile) → head? (insert analysis_first x ys) ≡ best_of x (head? ys)
unfolding insert best_of
head?-insert x [] = refl
head?-insert x (y ∷ ys) = ground arith

best_of-first_best :
    (x : CosFile) (xs : List CosFile) → best_of x (first_best xs) ≡ first_best (x ∷ xs)
unfolding best_of
best_of-first_best x [] = ground arith
best_of-first_best x (y ∷ ys) = grind (arith, find?-holds is_analysis_artifact (y ∷ ys))

head?-sort : (xs : List CosFile) → head? (sort analysis_first xs) ≡ first_best xs
unfolding sort
head?-sort [] = refl
head?-sort (x ∷ xs) =
    head?-insert x (sort analysis_first xs)
    ∙ ap (best_of x) (head?-sort xs)
    ∙ best_of-first_best x xs

find?-filter :
    (p q : CosFile → Bool) (xs : List CosFile) → find? q (filter p xs) ≡ find? (λ x. p x && q x) xs
find?-filter p q [] = refl
find?-filter p q (x ∷ xs) = ground (arith, find?-filter p q xs)

head?-filter : (p : CosFile → Bool) (xs : List CosFile) → head? (filter p xs) ≡ find? p xs
head?-filter p [] = refl
head?-filter p (x ∷ xs) = ground (arith, head?-filter p xs)

-- The collapsed file that is shown is the first one made by the analysis, and where there is none
-- of those, the first collapsed file of all.
pub collapsed_file-eq_find :
    (files : List CosFile)
    → collapsed_file files
      ≡ or_first
          (find? (λ file. is_collapsed_artifact file && is_analysis_artifact file) files)
          (find? is_collapsed_artifact files)
unfolding collapsed_file
collapsed_file-eq_find files =
    head?-sort (filter is_collapsed_artifact files)
    ∙ rw (
      find?-filter is_collapsed_artifact is_analysis_artifact files,
      head?-filter is_collapsed_artifact files,
    )
