-- ===== src/DependencyGates/Setting.antt =====
-- What `setDependencyGate` guarantees.
use text.Mathlib.TextEquality.{eq_iff}
use devmate.Prelude.{
  String, List, [], ◌∷◌, ◌++◌, Bool, true, false, not, ◌&&◌, none, ◌≡◌, ◌≢◌, refl, inl, inr, arith,
  if◌then◌else◌, is_empty, All, Bool-cases, Option-cases,
}
use devmate.Prelude.Text.{str_eq, includes}
use devmate.Json.{obj, Fields, set}
use devmate.TaskState.Store.{JsonText, File, absent, unreadable, holds}
use devmate.DependencyGates.{
  dep_gates, valid_statuses, prerequisites, check_prerequisites, has_passed, check_entries,
  validate_dep_gates, ReadGates, gates, corrupt, accept, World, Host, done, entry_of, read_parsed,
  read_gates, write_gates, write_out_of_order, locked_body, set_dependency_gate,
}
use devmate.DependencyGates.Entries.{
  entry_of-valid, check_entries-set, has_passed-set, All-passed, All-set, accept-eq-gates,
  ordered_of,
}

module _ (json : JsonText) where
  open json use {Text, parse, print, parse-print}

  -- What is read as gates has passed the validation.
  read_gates-valid :
      (file : File Text) (fs : Fields) → read_gates json file ≡ gates fs → check_entries fs ≡ none
  unfolding read_gates read_parsed check_entries validate_dep_gates
  read_gates-valid absent fs h = ground arith
  read_gates-valid unreadable fs h = ground arith
  read_gates-valid (holds text) fs h = elim (Option-cases (parse text)) [
    | inl broken ↦ let h' = rw broken at h in cc h'
    | inr (raw, parsed) ↦
        let (a, b) =
          accept-eq-gates raw (validate_dep_gates raw) fs (rw (parsed, read_parsed) at h) in
        rw a at b
  ]

  read_gates-print :
      (fs : Fields) → check_entries fs ≡ none → read_gates json (holds (print (obj fs))) ≡ gates fs
  unfolding read_gates read_parsed accept validate_dep_gates
  read_gates-print fs h = rw (parse-print (obj fs)) (rw h refl)

  -- What a call that sets a gate has found, and what it has left.
  pub record HasSet (host : Host) (name status : String) (force : Bool) (before after : World Text)
      : Type 0 where
    pub fs : Fields
    pub is_read : read_gates json before.file ≡ gates fs
    pub known : includes dep_gates name ≡ true
    pub is_status : includes valid_statuses status ≡ true
    pub ordered : status ≡ "pass" → force ≡ false → check_prerequisites name fs ≡ []
    pub logged : after.violations ≡ (
        if str_eq status "pass" && not (is_empty (check_prerequisites name fs))
        then before.violations
          ++ record { gate = name; missing = check_prerequisites name fs; timestamp = host.now }
            ∷ []
        else before.violations)
    pub stored : after.file ≡ holds (print (obj (set fs name (entry_of host name status))))

  write_gates-done :
      (host : Host) (name status : String) (fs : Fields) (world : World Text)
      → (write_gates json host name status fs world).0 ≡ done
      → ((write_gates json host name status fs world).1.file
          ≡ holds (print (obj (set fs name (entry_of host name status)))))
        × ((write_gates json host name status fs world).1.violations ≡ world.violations)
  unfolding write_gates
  write_gates-done host name status fs world h = ground arith

  out_of_order-done :
      (host : Host) (name status : String) (force : Bool) (missing : List String) (fs : Fields)
      (world : World Text)
      → (write_out_of_order json host name status force missing fs world).0 ≡ done
      → (force ≡ true)
        × ((write_out_of_order json host name status force missing fs world).1.file
            ≡ holds (print (obj (set fs name (entry_of host name status)))))
        × ((write_out_of_order json host name status force missing fs world).1.violations
            ≡ world.violations
              ++ record { gate = name; missing = missing; timestamp = host.now } ∷ [])
  unfolding write_out_of_order
  out_of_order-done host name status false missing fs world h = cc
  out_of_order-done host name status true missing fs world h = elim (Option-cases host.append) [
    | inl fine ↦
        let logged : World Text = record {
          file = world.file;
          violations =
              world.violations
              ++ record { gate = name; missing = missing; timestamp = host.now } ∷ [];
        } in
        let (a, b) =
          write_gates-done host name status fs logged (rw (fine, write_out_of_order) at h) in
        rw (fine, write_out_of_order) (refl, a, b)
    | inr (message, broken) ↦ let h' = rw broken at h in cc h'
  ]

  body-HasSet :
      (host : Host) (name status : String) (force : Bool) (world : World Text) (r : ReadGates)
      → read_gates json world.file ≡ r
      → includes dep_gates name ≡ true
      → includes valid_statuses status ≡ true
      → (locked_body json host name status force r world).0 ≡ done
      → HasSet host name status force world (locked_body json host name status force r world).1
  unfolding locked_body
  body-HasSet host name status force world (corrupt e) is_read known is_status h = cc
  body-HasSet host name status force world (gates fs) is_read known is_status h =
      elim (Bool-cases (str_eq status "pass" && not (is_empty (check_prerequisites name fs)))) [
        | inl late ↦
            let (a, b, c) =
              out_of_order-done host name status force (check_prerequisites name fs) fs world
                (rw (late, locked_body) at h) in
            rw late (record {
              fs = fs;
              is_read = is_read;
              known = known;
              is_status = is_status;
              ordered = λ _ unforced. cc (a, unforced);
              logged = rw late c;
              stored = b;
            })
        | inr in_order ↦
            let (b, c) =
              write_gates-done host name status fs world (rw (in_order, locked_body) at h) in
            rw in_order (record {
              fs = fs;
              is_read = is_read;
              known = known;
              is_status = is_status;
              ordered = λ e _. ordered_of status (check_prerequisites name fs) in_order e;
              logged = rw in_order c;
              stored = b;
            })
      ]

  -- A call that sets a gate has run its body, on what is in the file.
  set-locked :
      (host : Host) (name status : String) (force : Bool) (world : World Text)
      → (set_dependency_gate json host name status force world).0 ≡ done
      → (includes dep_gates name ≡ true)
        × (includes valid_statuses status ≡ true)
        × (set_dependency_gate json host name status force world
            ≡ locked_body json host name status force (read_gates json world.file) world)
  unfolding set_dependency_gate
  set-locked host name status force world h = elim (Bool-cases (includes dep_gates name)) [
    | inr foreign ↦ let h' = rw (foreign, set_dependency_gate) at h in cc h'
    | inl known ↦ elim (Bool-cases (includes valid_statuses status)) [
      | inr foreign ↦ let h' = rw (known, foreign, set_dependency_gate) at h in cc h'
      | inl is_status ↦ elim (Option-cases host.lock) [
        | inr (message, busy) ↦
            let h' = rw (known, is_status, busy, set_dependency_gate) at h in cc h'
        | inl free ↦ (known, is_status, simp (known, is_status, free, set_dependency_gate))
      ]
    ]
  ]

  -- A call that sets a gate has read valid gates, in which, if it is an unforced pass, all that the
  -- gate asks for has passed; it has logged a forced pass out of order and nothing else, and has
  -- left the gates it read with the new entry.
  pub set_dependency_gate-HasSet :
      (host : Host) (name status : String) (force : Bool) (world : World Text)
      → (set_dependency_gate json host name status force world).0 ≡ done
      → HasSet host name status force world
          (set_dependency_gate json host name status force world).1
  set_dependency_gate-HasSet host name status force world h =
      let (known, is_status, e) = set-locked host name status force world h in
      rw e (
        body-HasSet host name status force world (read_gates json world.file) refl known is_status
          (rw e at h))

  -- The gates that a call has set are valid and are read back: the gate's entry is the new one, and
  -- every other gate is as it was.
  pub set_dependency_gate-read :
      (host : Host) (name status : String) (force : Bool) (world : World Text) (fs : Fields)
      → (set_dependency_gate json host name status force world).0 ≡ done
      → read_gates json world.file ≡ gates fs
      → read_gates json (set_dependency_gate json host name status force world).1.file
        ≡ gates (set fs name (entry_of host name status))
  set_dependency_gate-read host name status force world fs h is_read =
      let s = set_dependency_gate-HasSet host name status force world h in
      let same : s.fs ≡ fs = cc (s.is_read, is_read) in
      rw (s.stored) (
        rw same (
          read_gates-print (set fs name (entry_of host name status)) (
            check_entries-set fs name (entry_of host name status)
              (read_gates-valid world.file fs is_read)
              (entry_of-valid host name status s.known s.is_status))))

  -- After an unforced pass, every prerequisite of the gate has passed in the file.
  pub set_dependency_gate-ordered :
      (host : Host) (name : String) (world : World Text)
      → (set_dependency_gate json host name "pass" false world).0 ≡ done
      → (fs : Fields) × (read_gates json
            (set_dependency_gate json host name "pass" false world).1.file
          ≡ gates fs)
        × (has_passed fs name ≡ true)
        × All (λ p. has_passed fs p ≡ true) (prerequisites name)
  set_dependency_gate-ordered host name world h =
      let s = set_dependency_gate-HasSet host name "pass" false world h in
      (
        set s.fs name (entry_of host name "pass"),
        set_dependency_gate-read host name "pass" false world s.fs h s.is_read,
        rw (has_passed-set host s.fs name "pass" name) (ground (arith, eq_iff name name)),
        All-set host s.fs name (prerequisites name) (All-passed name s.fs (s.ordered refl refl)),
      )

  write_gates-undone :
      (host : Host) (name status : String) (fs : Fields) (world : World Text)
      → (write_gates json host name status fs world).0 ≢ done
      → (write_gates json host name status fs world).1.file ≡ world.file
  unfolding write_gates
  write_gates-undone host name status fs world h = ground arith

  out_of_order-undone :
      (host : Host) (name status : String) (force : Bool) (missing : List String) (fs : Fields)
      (world : World Text)
      → (write_out_of_order json host name status force missing fs world).0 ≢ done
      → (write_out_of_order json host name status force missing fs world).1.file ≡ world.file
  unfolding write_out_of_order
  out_of_order-undone host name status false missing fs world h = refl
  out_of_order-undone host name status true missing fs world h =
      let logged : World Text = record {
        file = world.file;
        violations =
            world.violations
            ++ record { gate = name; missing = missing; timestamp = host.now } ∷ [];
      } in
      ground (arith, write_gates-undone host name status fs logged)

  body-undone :
      (host : Host) (name status : String) (force : Bool) (world : World Text) (r : ReadGates)
      → (locked_body json host name status force r world).0 ≢ done
      → (locked_body json host name status force r world).1.file ≡ world.file
  unfolding locked_body
  body-undone host name status force world (corrupt e) h = refl
  body-undone host name status force world (gates fs) h =
      let missing = check_prerequisites name fs in
      ground (
        arith,
        out_of_order-undone host name status force missing fs world,
        write_gates-undone host name status fs world,
      )

  -- A call that does not set its gate leaves the file as it was.
  pub set_dependency_gate-undone :
      (host : Host) (name status : String) (force : Bool) (world : World Text)
      → (set_dependency_gate json host name status force world).0 ≢ done
      → (set_dependency_gate json host name status force world).1.file ≡ world.file
  unfolding set_dependency_gate
  set_dependency_gate-undone host name status force world h =
      ground (arith, body-undone host name status force world (read_gates json world.file))
