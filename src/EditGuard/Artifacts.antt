-- ===== src/EditGuard/Artifacts.antt =====
-- `normalizeArtifactPath` and `sessionArtifactVerdict` of lib/gate-guard-core.mjs.
use devmate.Prelude.{String, List, [], ◌∷◌, Bool, ◌&&◌, Option, none, some, if◌then◌else◌, any}
use devmate.Prelude.Text.{includes, str_eq}
use devmate.Prelude.Codes.{codes, starts_with, strip_dot_slash}
use devmate.Glob.{Code, forward_slashes, match_glob}

-- `SessionArtifactWriter`.
pub record Writer : Type 0 where
  pub glob : Code
  pub agents : List String

-- `DEFAULT_SESSION_ARTIFACT_PATHS` and `DEFAULT_SESSION_ARTIFACT_WRITERS`.
abbrev pub default_session_artifact_paths : List Code
default_session_artifact_paths = codes ".devmate/state/**" ∷ codes ".devmate/session/**" ∷ []

abbrev pub default_session_artifact_writers : List Writer
default_session_artifact_writers =
    record { glob = codes ".devmate/session/**/spec.md"; agents = "spec-writer" ∷ [] } ∷ []

-- `DEVMATE_DIR_MARKER`, with the slash before it.
abbrev pub dir_marker : Code
dir_marker = codes "/.devmate/"

abbrev pub last_of : Option Code → Option Code → Option Code
last_of (some later) this = some later
last_of none this = this

-- What stands from the last `/.devmate/` on, less its first slash.
unfoldable pub marker_tail : Code → Option Code
marker_tail [] = none
marker_tail (c ∷ cs) =
    last_of (marker_tail cs) (if starts_with dir_marker (c ∷ cs) then some cs else none)

abbrev pub or_all : Option Code → Code → Code
or_all none whole = whole
or_all (some tail) whole = tail

unfoldable pub normalize_artifact_path : (Code → Code) → Code → Code
normalize_artifact_path to_lower_case path =
    let normalized = to_lower_case (strip_dot_slash (forward_slashes path)) in
    or_all (marker_tail normalized) normalized

pub data SessionArtifactVerdict : Type 0 where
  not_artifact writer_allowed writer_denied : SessionArtifactVerdict

-- Whether a writer may write the path, which is normalized.
abbrev pub permits : (Code → Code) → Code → String → Writer → Bool
permits to_lower_case normalized agent w =
    match_glob (to_lower_case w.glob) normalized && includes w.agents agent

unfoldable pub judge_artifact :
    (Code → Code) → Code → List Code → List Writer → String → SessionArtifactVerdict
judge_artifact to_lower_case normalized paths writers agent =
    if any (λ g. match_glob (to_lower_case g) normalized) paths
    then if str_eq agent ""
      then writer_denied
      else if any (permits to_lower_case normalized agent) writers
      then writer_allowed
      else writer_denied
    else not_artifact

unfoldable pub session_artifact_verdict :
    (Code → Code) → Code → List Code → List Writer → String → SessionArtifactVerdict
session_artifact_verdict to_lower_case [] paths writers agent = not_artifact
session_artifact_verdict to_lower_case (c ∷ cs) paths writers agent =
    judge_artifact to_lower_case (normalize_artifact_path to_lower_case (c ∷ cs)) paths writers
      agent
