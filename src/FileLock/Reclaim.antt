-- ===== src/FileLock/Reclaim.antt =====
-- What becomes of a lock that is judged stale: two calls can both acquire it, and one that cannot rename
-- it tries forever.
use devmate.Prelude.{
  ℕ, String, Bool, true, false, All, ◌⊎◌, inl, inr, Option, none, some, ◌≡◌, ◌≢◌, refl, sym, ap,
  ◌∙◌,
}
use devmate.Prelude.{List, [], ◌∷◌}
use devmate.Json.{Json}
use devmate.FileLock.Acquire.{
  LockFile, absent, holds, Caller, Phase, opening, reading, stealing, writing, running, Answers,
  lock_json, judges_stale, move, update_own, update_other, System, access, Reach, start, later,
  access_by,
}

module _ (is_pid : String → Bool) (parse_date : String → Option ℕ) (callers : ℕ → Caller) where
  -- The accesses of one call, while no other takes a step.
  abbrev pub lone_run : ℕ → List Answers → System → System
  lone_run i [] s = s
  lone_run i (a ∷ as') s = lone_run i as' (access_by is_pid parse_date callers i a s)

  module _ (i : ℕ) (a : Answers) where
    move_absent :
        a.open_error ≡ none
        → move is_pid parse_date (callers i) a absent opening ≡ (holds none, writing)
    unfolding move
    move_absent h = rw h refl

    move_held :
        (text : Option Json)
        → a.open_error ≡ none
        → move is_pid parse_date (callers i) a (holds text) opening ≡ (holds text, reading)
    unfolding move
    move_held text h = rw h refl

    move_stale :
        (text : Option Json)
        → judges_stale is_pid parse_date (callers i) a (holds text) ≡ true
        → move is_pid parse_date (callers i) a (holds text) reading ≡ (holds text, stealing)
    unfolding move
    move_stale text h = rw h refl

    move_steal :
        (text : Option Json)
        → a.renames ≡ true
        → move is_pid parse_date (callers i) a (holds text) stealing ≡ (absent, opening)
    unfolding move
    move_steal text h = rw h refl

    move_write :
        (file : LockFile)
        → a.writes ≡ true
        → move is_pid parse_date (callers i) a file writing
          ≡ (holds (some (lock_json (callers i) a)), running)
    unfolding move
    move_write file h = rw h refl

  -- A state that a run reaches, where the file and the phases of two calls are known.
  record Two (Allowed : Answers → Type 0) (s : System) (p q : ℕ) (file : LockFile) (x y : Phase)
      : Type 0 where
    state : System
    reach : Reach is_pid parse_date callers Allowed s state
    file_is : state.file ≡ file
    phase_p : state.phase p ≡ x
    phase_q : state.phase q ≡ y

  module _ {Allowed : Answers → Type 0} {s : System} where
    swap :
        {p q : ℕ} {file : LockFile} {x y : Phase}
        → Two Allowed s p q file x y
        → Two Allowed s q p file y x
    swap two = record {
      state = two.state;
      reach = two.reach;
      file_is = two.file_is;
      phase_p = two.phase_q;
      phase_q = two.phase_p;
    }

    left :
        {p q : ℕ} {file file' : LockFile} {x x' y : Phase}
        → p ≢ q
        → (a : Answers) → Allowed a
        → move is_pid parse_date (callers p) a file x ≡ (file', x')
        → Two Allowed s p q file x y
        → Two Allowed s p q file' x' y
    left {p} {q} {file} {file'} {x} {x'} {y} n a ok moves two =
        let same =
          ap (λ f. move is_pid parse_date (callers p) a f (two.state.phase p)) two.file_is
          ∙ ap (move is_pid parse_date (callers p) a file) two.phase_p
          ∙ moves in
        record {
          state = access_by is_pid parse_date callers p a two.state;
          reach = later two.reach (access p a ok);
          file_is = ap (λ m. m.0) same;
          phase_p = update_own two.state.phase p _ p refl ∙ ap (λ m. m.1) same;
          phase_q = update_other two.state.phase p _ q n ∙ two.phase_q;
        }

    right :
        {p q : ℕ} {file file' : LockFile} {x y y' : Phase}
        → p ≢ q
        → (a : Answers) → Allowed a
        → move is_pid parse_date (callers q) a file y ≡ (file', y')
        → Two Allowed s p q file x y
        → Two Allowed s p q file' x y'
    right n a ok moves two = swap (left (λ e. n (sym e)) a ok moves (swap two))

  -- Let calls `p` and `q` both be about to try a lock that each judges stale, with answers that
  -- report no error. Then a run of their accesses leads to both of them being in `fn` at once: `q`
  -- steals the lock and creates its own, which `p`, whose judgement is older, then renames away.
  pub reclaim_race :
      (Allowed : Answers → Type 0) (s : System) (p q : ℕ) (text : Option Json) (a b : Answers)
      → p ≢ q
      → s.file ≡ holds text
      → s.phase p ≡ opening
      → s.phase q ≡ opening
      → Allowed a × Allowed b
      → (a.open_error ≡ none) × (b.open_error ≡ none)
      → (a.renames ≡ true) × (b.renames ≡ true)
      → (a.writes ≡ true) × (b.writes ≡ true)
      → judges_stale is_pid parse_date (callers p) a (holds text) ≡ true
      → judges_stale is_pid parse_date (callers q) b (holds text) ≡ true
      → (t : System) × Reach is_pid parse_date callers Allowed s t
        × (t.phase p ≡ running)
        × (t.phase q ≡ running)
  reclaim_race Allowed s p q text a b n held at_p at_q (ok_a, ok_b) (open_a, open_b) (ren_a, ren_b)
        (write_a, write_b) stale_a stale_b =
      let first : Two Allowed s p q (holds text) opening opening = record {
        state = s;
        reach = start;
        file_is = held;
        phase_p = at_p;
        phase_q = at_q;
      } in
      let judged =
        left n a ok_a (move_stale p a text stale_a)
          (left n a ok_a (move_held p a text open_a) first) in
      let stolen = right n b ok_b (move_steal q b text ren_b) (
        right n b ok_b (move_stale q b text stale_b)
          (right n b ok_b (move_held q b text open_b) judged)) in
      let inside =
        right n b ok_b (move_write q b (holds none) write_b)
          (right n b ok_b (move_absent q b open_b) stolen) in
      let outdated = left n a ok_a (move_steal p a (some (lock_json (callers q) b)) ren_a) inside in
      let both =
        left n a ok_a (move_write p a (holds none) write_a)
          (left n a ok_a (move_absent p a open_a) outdated) in
      (both.state, both.reach, both.phase_p, both.phase_q)

  record At (s : System) (i : ℕ) (file : LockFile) (phase : Phase) : Type 0 where
    file_is : s.file ≡ file
    phase_is : s.phase i ≡ phase

  lone_step :
      {s : System} {i : ℕ} {file file' : LockFile} {x x' : Phase} (a : Answers)
      → At s i file x
      → move is_pid parse_date (callers i) a file x ≡ (file', x')
      → At (access_by is_pid parse_date callers i a s) i file' x'
  lone_step {s} {i} {file} a at_s moves =
      let same =
        ap (λ f. move is_pid parse_date (callers i) a f (s.phase i)) at_s.file_is
        ∙ ap (move is_pid parse_date (callers i) a file) at_s.phase_is
        ∙ moves in
      record {
        file_is = ap (λ m. m.0) same;
        phase_is = update_own s.phase i _ i refl ∙ ap (λ m. m.1) same;
      }

  -- Answers on which the call finds the lock stale and cannot rename it, however late it is.
  abbrev pub CannotSteal : ℕ → Option Json → Answers → Type 0
  CannotSteal i text a =
      (a.open_error ≡ none)
      × (judges_stale is_pid parse_date (callers i) a (holds text) ≡ true)
      × (a.renames ≡ false)

  abbrev pub IsTrying : Phase → Type 0
  IsTrying phase = (phase ≡ opening) ⊎ (phase ≡ reading) ⊎ (phase ≡ stealing)

  move_unstolen :
      (i : ℕ) (a : Answers) (text : Option Json)
      → a.renames ≡ false
      → move is_pid parse_date (callers i) a (holds text) stealing ≡ (holds text, opening)
  unfolding move
  move_unstolen i a text h = rw h refl

  tries_again :
      (s : System) (i : ℕ) (text : Option Json) (a : Answers)
      → s.file ≡ holds text
      → CannotSteal i text a
      → IsTrying (s.phase i)
      → ((access_by is_pid parse_date callers i a s).file ≡ holds text)
        × IsTrying ((access_by is_pid parse_date callers i a s).phase i)
  tries_again s i text a held (opens, stale, stays) (inl at_open) =
      let next =
        lone_step {s = s} a (record { file_is = held; phase_is = at_open })
          (move_held i a text opens) in
      (next.file_is, inr (inl next.phase_is))
  tries_again s i text a held (opens, stale, stays) (inr (inl at_read)) =
      let next =
        lone_step {s = s} a (record { file_is = held; phase_is = at_read })
          (move_stale i a text stale) in
      (next.file_is, inr (inr next.phase_is))
  tries_again s i text a held (opens, stale, stays) (inr (inr at_steal)) =
      let next =
        lone_step {s = s} a (record { file_is = held; phase_is = at_steal })
          (move_unstolen i a text stays) in
      (next.file_is, inl next.phase_is)

  -- Let a call try a lock that it judges stale, and let every rename of that lock fail. Then after any
  -- number of accesses, however far behind the deadline they are, the call has neither acquired the lock
  -- nor ended: it tries again, and the lock is as it was.
  pub lone_run-IsTrying :
      (as' : List Answers) (s : System) (i : ℕ) (text : Option Json)
      → s.file ≡ holds text
      → IsTrying (s.phase i)
      → All (CannotSteal i text) as'
      → ((lone_run i as' s).file ≡ holds text) × IsTrying ((lone_run i as' s).phase i)
  lone_run-IsTrying [] s i text held trying answers = (held, trying)
  lone_run-IsTrying (a ∷ as') s i text held trying (first, rest) =
      let (held', trying') = tries_again s i text a held first trying in
      lone_run-IsTrying as' (access_by is_pid parse_date callers i a s) i text held' trying' rest
