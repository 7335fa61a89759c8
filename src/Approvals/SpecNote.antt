-- ===== src/Approvals/SpecNote.antt =====
-- `appendNoTddNoteToSpec` of hooks/approval-listener.mjs: the text of spec.md with the note.
use devmate.Prelude.{String, Option, none, some, Bool, false, if◌then◌else◌}
use devmate.Prelude.Text.{str_eq}
use devmate.Approvals.Phrases.{slice_after}

-- The spec.md that has the note under its section, or at its end.
abbrev join : String → String → String
join String.[] t = t
join (String.◌∷◌ c s) t = String.◌∷◌ c (join s t)

abbrev line_break : String
line_break = "\n"

abbrev ends_line : String → Bool
ends_line String.[] = false
ends_line (String.◌∷◌ c String.[]) = str_eq (String.◌∷◌ c String.[]) line_break
ends_line (String.◌∷◌ c s) = ends_line s

-- The text with the note after its first line break, or at its end.
abbrev note_after_line : String → String → String
note_after_line note String.[] = join note line_break
note_after_line note (String.◌∷◌ c s) =
    let later = String.◌∷◌ c (note_after_line note s) in
    if str_eq (String.◌∷◌ c String.[]) line_break
    then String.◌∷◌ c (join note (join line_break s))
    else later

abbrev out_of_scope : String
out_of_scope = "## Out of scope"

abbrev insert_at : String → String → Option String → Option String → Option String
insert_at note here none later = later
insert_at note here (some rest) later = some (join out_of_scope (note_after_line note rest))

abbrev cons_later : String → Option String → Option String
cons_later c none = none
cons_later c (some s) = some (join c s)

insert_note : String → String → Option String
unfolding slice_after
insert_note note String.[] = none
insert_note note (String.◌∷◌ c s) =
    insert_at note (String.◌∷◌ c s) (slice_after out_of_scope (String.◌∷◌ c s))
      (cons_later (String.◌∷◌ c String.[]) (insert_note note s))

abbrev or_at_end : String → String → Option String → String
or_at_end note body (some s) = s
or_at_end note body none = join body (
    join (if ends_line body then "" else line_break)
      (join line_break (join out_of_scope (join line_break (join note line_break)))))

-- The body that `appendNoTddNoteToSpec` writes.
unfoldable pub spec_with_note : String → String → String
unfolding insert_note
spec_with_note reason body =
    let note = join "- No-TDD override approved by human: " reason in
    or_at_end note body (insert_note note body)
