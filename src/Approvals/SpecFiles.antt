-- ===== src/Approvals/SpecFiles.antt =====
-- The files that a feature is to change: `readSpecFilesFromState` and
-- `extractSpecFilesFromMarkdown` of lib/workflow/lanes/feature.mjs. A text is its UTF-16 code units.
use devmate.Prelude.{
  ℕ, String, List, [], ◌∷◌, Bool, false, ◌&&◌, ◌||◌, Option, none, some, if◌then◌else◌, ◌==◌,
  is_empty,
}
use devmate.Prelude.Codes.{codes, fold_case}
use devmate.Prelude.Text.{is_blank, is_space}
use devmate.Glob.{Code}
use devmate.Json.{Json, str, arr, items, Fields, get}
use devmate.Preconditions.Context.{SpecFile, absent, unreadable, text}

abbrev pub trim_start : Code → Code
trim_start [] = []
trim_start (c ∷ s) = let rest = trim_start s in if is_space c then rest else c ∷ s

abbrev cons_trimmed : ℕ → Code → Code
cons_trimmed c [] = if is_space c then [] else c ∷ []
cons_trimmed c (d ∷ s) = c ∷ d ∷ s

abbrev pub trim_end : Code → Code
trim_end [] = []
trim_end (c ∷ s) = cons_trimmed c (trim_end s)

abbrev pub trim_code : Code → Code
trim_code s = trim_end (trim_start s)

-- `body.split(/\r?\n/)`: a line feed ends a line, and takes a carriage return before it along.
abbrev add_to_first : ℕ → List Code → List Code
add_to_first c [] = (c ∷ []) ∷ []
add_to_first c (line ∷ lines) = (c ∷ line) ∷ lines

abbrev before_feed : Code → Bool
before_feed [] = false
before_feed (c ∷ _) = c == 10

unfoldable pub split_lines : Code → List Code
split_lines [] = [] ∷ []
split_lines (c ∷ s) =
    let lines = split_lines s in
    if c == 10 then [] ∷ lines else if c == 13 && before_feed s then lines else add_to_first c lines

abbrev rest_after : Code → Code → Option Code
rest_after [] s = some s
rest_after (p ∷ ps) [] = none
rest_after (p ∷ ps) (c ∷ s) = if p == fold_case c then rest_after ps s else none

abbrev starts_space : Option Code → Bool
starts_space (some (c ∷ _)) = is_space c
starts_space _ = false

abbrev spaces_dropped : Option Code → Code
spaces_dropped none = []
spaces_dropped (some s) = trim_start s

abbrev ends_blank : Option Code → Bool
ends_blank none = false
ends_blank (some s) = is_empty (trim_start s)

-- /^##\s+/ at a line, and /^##\s+Files that will change\s*$/i.
abbrev pub is_heading : Code → Bool
is_heading line = starts_space (rest_after (codes "##") line)

abbrev pub is_files_heading : Code → Bool
is_files_heading line =
    is_heading line
    && ends_blank (
        rest_after (codes "files that will change") (spaces_dropped (rest_after (codes "##") line)))

-- The text between a backtick at the start and the next one, where it has a character.
abbrev prepend : ℕ → Option Code → Option Code
prepend c none = none
prepend c (some s) = some (c ∷ s)

abbrev up_to_tick : Code → Option Code
up_to_tick [] = none
up_to_tick (c ∷ s) = let rest = prepend c (up_to_tick s) in if c == b'`' then some [] else rest

abbrev backticked : Code → Option Code
backticked [] = none
backticked (c ∷ s) = if c == b'`' then up_to_tick s else none

abbrev path_of : Code → Option Code → Code
path_of value none = value
path_of value (some []) = value
path_of value (some (c ∷ s)) = trim_code (c ∷ s)

abbrev is_marker : ℕ → Bool
is_marker c = c == b'-' || c == b'*' || c == b'+'

abbrev valued : Code → Option Code
valued value = if is_empty value then none else some (path_of value (backticked value))

-- The path of a bullet, where the line is one.
abbrev bullet_of : Code → Option Code
bullet_of (m ∷ space ∷ c ∷ s) =
    if is_marker m && space == 32 then valued (trim_code (c ∷ s)) else none
bullet_of _ = none

unfoldable pub bullet : Code → Option Code
bullet line = bullet_of (trim_start line)

abbrev add_file : Option Code → List Code → List Code
add_file none files = files
add_file (some file) files = file ∷ files

-- The loop over the lines, inside the section and before it.
unfoldable pub files_in : List Code → List Code
files_in [] = []
files_in (line ∷ lines) =
    let files = add_file (bullet line) (files_in lines) in
    if is_heading (trim_code line) then [] else files

unfoldable pub files_from : List Code → List Code
files_from [] = []
files_from (line ∷ lines) =
    let later = files_from lines in
    if is_files_heading (trim_code line) then files_in lines else later

-- `extractSpecFilesFromMarkdown`, which has no files where it cannot read.
unfoldable pub extract_spec_files : (String → Code) → SpecFile → List Code
extract_spec_files units absent = []
extract_spec_files units unreadable = []
extract_spec_files units (text body) = files_from (split_lines (units body))

abbrev keep_paths : (String → Code) → List Json → List Code
keep_paths units [] = []
keep_paths units (str s ∷ entries) =
    let rest = keep_paths units entries in if is_blank s then rest else units s ∷ rest
keep_paths units (_ ∷ entries) = keep_paths units entries

abbrev entries_of : Option Json → List Json
entries_of (some (arr entries)) = items entries
entries_of _ = []

-- `readSpecFilesFromState`.
unfoldable pub read_spec_files : (String → Code) → Fields → List Code
read_spec_files units state = keep_paths units (entries_of (get state "specFiles"))
