-- ===== src/Approvals/Phrases.antt =====
-- The phrases of lib/routing/approval-phrases.mjs and how hooks/approval-listener.mjs takes a prompt
-- apart: prefixes, the text after a colon, the quoted reason, and near misses of an approval.
use Prim.Native.Char.{code}
use devmate.Prelude.{
  ℕ, String, List, [], ◌∷◌, Bool, true, false, not, ◌&&◌, ◌||◌, Option, none, some, if◌then◌else◌,
  leb, ◌==◌,
}
use devmate.Prelude.Codes.{codes, fold_case}
use devmate.Prelude.Table.{Table, get_own}
use devmate.Prelude.Text.{str_eq, is_space}

abbrev pub approve_spec_phrase : String
approve_spec_phrase = "approve spec"

abbrev pub approve_plan_phrase : String
approve_plan_phrase = "approve plan"

abbrev pub approve_pr_phrase : String
approve_pr_phrase = "approve pr"

abbrev pub reset_task_phrase : String
reset_task_phrase = "reset task"

abbrev pub revise_spec_prefix : String
revise_spec_prefix = "revise spec:"

abbrev pub no_tdd_prefix : String
no_tdd_prefix = "approve no-tdd"

abbrev pub revise_scope_prefix : String
revise_scope_prefix = "revise scope:"

abbrev pub re_plan_prefix : String
re_plan_prefix = "re-plan:"

abbrev pub escalate_chore_prefix : String
escalate_chore_prefix = "escalate chore to feature"

-- `HUMAN_GATE_PHRASES` and `approvalPhraseForGate`.
abbrev human_gate_phrases : Table String
human_gate_phrases =
    ("spec-draft", approve_spec_phrase)
    ∷ ("plan-approved", approve_plan_phrase)
    ∷ ("verification-passed", approve_pr_phrase)
    ∷ []

unfoldable pub approval_phrase_for_gate : String → String → Option String
unfolding get_own
approval_phrase_for_gate gate lane =
    if str_eq gate "plan-approved" && str_eq lane "feature"
    then none
    else if str_eq gate "verification-passed" && str_eq lane "chore"
    then none
    else get_own human_gate_phrases gate

-- `s.startsWith(prefix)` with what follows, `s.slice(prefix.length)`.
unfoldable pub slice_after : String → String → Option String
slice_after String.[] s = some s
slice_after (String.◌∷◌ p ps) String.[] = none
slice_after (String.◌∷◌ p ps) (String.◌∷◌ c s) = if code p == code c then slice_after ps s else none

abbrev pub is_some {ℓ} : {A : Type ℓ} → Option A → Bool
is_some none = false
is_some (some _) = true

abbrev pub has_prefix : String → String → Bool
has_prefix prefix s = is_some (slice_after prefix s)

-- `s.slice(n)`, by the characters of a text that is as long as the prefix.
abbrev pub drop_as : String → String → String
drop_as String.[] s = s
drop_as (String.◌∷◌ p ps) String.[] = ""
drop_as (String.◌∷◌ p ps) (String.◌∷◌ c s) = drop_as ps s

-- What follows the first colon.
unfoldable pub after_colon : String → Option String
after_colon String.[] = none
after_colon (String.◌∷◌ c s) = let rest = after_colon s in if code c == b':' then some s else rest

abbrev pub or_text : String → Option String → String
or_text fallback none = fallback
or_text fallback (some s) = s

abbrev starts_blank : String → Bool
starts_blank String.[] = true
starts_blank (String.◌∷◌ c s) = is_space (code c)

-- `s.replace(/^\s*:/, '')`.
abbrev colon_after_space : String → Option String
colon_after_space String.[] = none
colon_after_space (String.◌∷◌ c s) =
    let rest = colon_after_space s in
    if code c == b':' then some s else if is_space (code c) then rest else none

abbrev pub drop_colon : String → String
drop_colon s = or_text s (colon_after_space s)

abbrev starts_colon : String → Bool
starts_colon String.[] = false
starts_colon (String.◌∷◌ c s) = code c == b':'

abbrev ends_escalation : Option String → Bool
ends_escalation none = false
ends_escalation (some rest) = starts_blank rest || starts_colon rest

-- The boundary after the escalation phrase: nothing, a colon or white space.
unfoldable pub is_escalation : String → Bool
is_escalation lower = ends_escalation (slice_after escalate_chore_prefix lower)

abbrev drop_spaces : String → String
drop_spaces String.[] = ""
drop_spaces (String.◌∷◌ c s) =
    let rest = drop_spaces s in if is_space (code c) then rest else String.◌∷◌ c s

abbrev after_char : ℕ → String → Option String
after_char c String.[] = none
after_char c (String.◌∷◌ d s) = if code d == c then some s else none

abbrev after_word : String → String → Option String
after_word String.[] s = some s
after_word (String.◌∷◌ p ps) String.[] = none
after_word (String.◌∷◌ p ps) (String.◌∷◌ c s) =
    if code p == fold_case (code c) then after_word ps s else none

-- The characters before the closing quote, if there is one.
abbrev cons_text : Option String → (String → String) → Option String
cons_text none f = none
cons_text (some s) f = some (f s)

quoted : String → Option String
quoted String.[] = none
quoted (String.◌∷◌ c s) =
    let rest = cons_text (quoted s) (String.◌∷◌ c) in if code c == b'"' then some "" else rest

abbrev quoted_value : Option String → Option String
unfolding quoted
quoted_value none = none
quoted_value (some s) = quoted s

abbrev equals_sign : Option String → Option String
equals_sign none = none
equals_sign (some s) = after_char b'=' (drop_spaces s)

abbrev opening_quote : Option String → Option String
opening_quote none = none
opening_quote (some s) = after_char b'"' (drop_spaces s)

-- A match of /reason\s*=\s*"([^"]*)"/i at the start of a text, with its group.
abbrev reason_here : String → Option String
unfolding quoted
reason_here s = quoted_value (opening_quote (equals_sign (after_word "reason" s)))

abbrev first_some {ℓ} : {A : Type ℓ} → Option A → Option A → Option A
first_some none b = b
first_some (some a) b = some a

first_reason : String → Option String
unfolding quoted
first_reason String.[] = none
first_reason (String.◌∷◌ c s) = first_some (reason_here (String.◌∷◌ c s)) (first_reason s)

abbrev non_empty : Option String → Option String
non_empty none = none
non_empty (some s) = if str_eq s "" then none else some s

abbrev trimmed : (String → String) → Option String → Option String
trimmed trim none = none
trimmed trim (some s) = some (trim s)

-- `parseNoTddReason`.
unfoldable pub parse_no_tdd_reason : (trim : String → String) → String → Option String
unfolding first_reason quoted
parse_no_tdd_reason trim raw = non_empty (trimmed trim (first_reason raw))

-- `parseReviseSpecFeedback`.
unfoldable pub parse_revise_spec_feedback : (trim : String → String) → String → String
unfolding after_colon
parse_revise_spec_feedback trim raw = or_text "" (trimmed trim (after_colon raw))

-- The word boundary `\b`, between a character of a word and another.
abbrev is_word_code : ℕ → Bool
is_word_code c =
    (leb b'a' c && leb c b'z')
    || (leb b'A' c && leb c b'Z')
    || (leb b'0' c && leb c b'9')
    || c == b'_'

abbrev ends_word : Option (List ℕ) → Bool
ends_word none = false
ends_word (some []) = true
ends_word (some (c ∷ _)) = not (is_word_code c)

abbrev after_codes : List ℕ → List ℕ → Option (List ℕ)
after_codes [] s = some s
after_codes (p ∷ ps) [] = none
after_codes (p ∷ ps) (c ∷ s) = if p == c then after_codes ps s else none

-- The word ends at a boundary and, where `whole` is set, starts at one; `inside` tells whether the
-- character before belongs to a word.
has_word : (whole : Bool) → List ℕ → (inside : Bool) → List ℕ → Bool
has_word whole word inside [] = false
has_word whole word inside (c ∷ s) =
    (not (whole && inside) && ends_word (after_codes word (c ∷ s)))
    || has_word whole word (is_word_code c) s

-- `detectNearMissApproval`.
unfoldable pub detect_near_miss_approval : String → Option String
unfolding slice_after has_word
detect_near_miss_approval lower =
    if not (has_prefix "approve " lower)
    then none
    else if has_word true (codes "spec") false (codes lower)
    then some approve_spec_phrase
    else if has_word true (codes "plan") false (codes lower)
    then some approve_plan_phrase
    else if has_word true (codes "pr") false (codes lower)
        || has_word false (codes "pull") false (codes lower)
    then some approve_pr_phrase
    else none
