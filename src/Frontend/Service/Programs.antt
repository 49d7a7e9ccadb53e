-- ===== src/Frontend/Service/Programs.antt =====
-- The programs of the sessions of autellix/frontend/service.py: what `submit_call` makes of them.
use autellix.Prelude.{
  ℕ, ◌≡◌, ◌≢◌, refl, inl, inr, Bool, true, false, not, List, [], ◌∷◌, ◌++◌, some, ok, or_fail,
  ==_iff, if◌then◌else◌, all, mem, occurrences, arith, Result-cases, passed, or_fail-ok, map_err-ok,
  >>=-eq-ok, ok_injective, some_injective, mem-occurrences, Distinct, sym, subst, ap, ◌∙◌,
}
use autellix.Prelude.Dict.{lookup, update, lookup-update}
use autellix.Prelude.Int.{pos_part}
use autellix.Core.State.{
  CallSpec, CallArguments, new_call, is_negative, is_positive, submit_time_ok, bad_model_time,
  bad_tokens, bad_release_delay, bad_submit_time,
}
use autellix.Core.Program.{ProgramSpec, new_program, ids, is_empty}
use autellix.Core.Program.Acyclic.{IsGraph, new_program_iff, new_program-keeps}
use autellix.Core.Program.Growth.{extended-IsGraph, ids-append}
use autellix.Frontend.Service.{
  Session, Service, no_session, in_program, in_call, to_program, with_call, Submission, submit_call,
  checked_call, simulate_call, arrival_at, arguments_of, end_session, complete, session_completed,
  missing_parents,
}

new_call-fields :
    (a : CallArguments) (call : CallSpec)
    → new_call a ≡ ok call
    → (call.call_id ≡ a.call_id) × (call.program_id ≡ a.program_id) × (call.parents ≡ a.parents)
unfolding new_call
new_call-fields a call h =
    let tokens : Bool =
      if is_negative a.prefill_tokens then false else not (is_negative a.decode_tokens) in
    let h1 = (passed (is_positive a.model_time) bad_model_time h).1 in
    let h2 = (passed tokens bad_tokens h1).1 in
    let h3 = (passed (not (is_negative a.release_delay)) bad_release_delay h2).1 in
    let made = ok_injective (passed (submit_time_ok a.submit_time) bad_submit_time h3).1 in
    (
      sym (ap (λ (c : CallSpec). c.call_id) made),
      sym (ap (λ (c : CallSpec). c.program_id) made),
      sym (ap (λ (c : CallSpec). c.parents) made),
    )

-- What the checks of `submit_call` let through.
pub record Checked (sid : ℕ) (a : Submission) (s : Service) (call : CallSpec) : Type 0 where
  pub session : Session
  pub found : lookup sid s.sessions ≡ some session
  pub name : call.call_id ≡ a.call_id
  pub own : call.program_id ≡ session.program_id
  pub known : all (λ p. mem p (ids session.calls)) call.parents ≡ true

checked_call-Checked :
    (sid : ℕ) (a : Submission) (s : Service) (call : CallSpec)
    → checked_call sid a s ≡ ok call
    → Checked sid a s call
unfolding checked_call
checked_call-Checked sid a s call h =
    let (session, e1, h1) = >>=-eq-ok (or_fail (lookup sid s.sessions) no_session) _ h in
    let (_, h2) = passed (not session.completed) session_completed h1 in
    let (known, h3) = passed (all (λ p. mem p (ids session.calls)) a.parents) missing_parents h2 in
    let (name, own, parents) =
      new_call-fields (arguments_of a session.program_id s.time) call
        (map_err-ok in_call (new_call (arguments_of a session.program_id s.time)) h3) in
    record {
      session = session;
      found = or_fail-ok (lookup sid s.sessions) no_session e1;
      name = name;
      own = own;
      known = subst (λ ps. all (λ p. mem p (ids session.calls)) ps ≡ true) (sym parents) known;
    }

-- A session whose calls make a program.
abbrev pub IsOpen : Session → Type 0
IsOpen session =
    (is_negative session.arrival_time ≡ false) × IsGraph session.program_id session.calls

is_empty-append : (calls : List CallSpec) (c : CallSpec) → is_empty (calls ++ (c ∷ [])) ≡ false
is_empty-append [] c = refl
is_empty-append (d ∷ calls) c = refl

-- In a session whose arrival is not negative and whose calls are those of a program, a call that
-- passes the checks of `submit_call` and whose name is new keeps the calls those of a program:
-- `to_program` then returns it with the call at its end.
pub submit_call-to_program :
    (sid : ℕ) (a : Submission) (s : Service) (session : Session) (call : CallSpec)
    → lookup sid s.sessions ≡ some session
    → IsOpen session
    → mem a.call_id (ids session.calls) ≡ false
    → checked_call sid a s ≡ ok call
    → IsOpen (with_call call session)
      × (to_program (with_call call session)
          ≡ ok (record {
            program_id = session.program_id;
            calls = session.calls ++ (call ∷ []);
            arrival_time = pos_part session.arrival_time;
          }))
unfolding to_program
submit_call-to_program sid a s session call found (sign, graph) new h =
    let c = checked_call-Checked sid a s call h in
    let same : c.session ≡ session = some_injective (sym c.found ∙ found) in
    let own = c.own ∙ ap (λ (v : Session). v.program_id) same in
    let fresh = subst (λ x. mem x (ids session.calls) ≡ false) (sym c.name) new in
    let absent : occurrences call.call_id (ids session.calls) ≡ 0 =
      ground (arith, mem-occurrences call.call_id (ids session.calls)) in
    let known =
      subst (λ (v : Session). all (λ p. mem p (ids v.calls)) call.parents ≡ true) same c.known in
    let grown = extended-IsGraph session.program_id session.calls call graph own absent known in
    let accepted =
      (new_program_iff session.program_id (session.calls ++ (call ∷ [])) session.arrival_time).1
        (sign, is_empty-append session.calls call, grown) in
    ((sign, grown), rw accepted refl)

to_program-Distinct :
    (session : Session) (p : ProgramSpec) → to_program session ≡ ok p → Distinct (ids session.calls)
unfolding to_program
to_program-Distinct v p h =
    let made = map_err-ok in_program (new_program v.program_id v.calls v.arrival_time) h in
    let same = new_program-keeps v.program_id v.calls v.arrival_time p made in
    let (_, _, (one, _, _)) =
      (new_program_iff v.program_id v.calls v.arrival_time).0 (made ∙ ap ok same) in
    one

-- The session of an accepted call has the call, whether or not the simulator takes it.
submit_call-sessions :
    (sid : ℕ) (a : Submission) (s : Service) (call : CallSpec)
    → checked_call sid a s ≡ ok call
    → (submit_call sid a s).0.sessions ≡ update sid (with_call call) s.sessions
unfolding submit_call
submit_call-sessions sid a s call h =
    let kept : Service = record s { sessions = update sid (with_call call) s.sessions } in
    elim (Result-cases (simulate_call call (arrival_at sid s) kept)) [
      | inl (m, e) ↦ rw (h, e, submit_call) refl
      | inr (x, e) ↦ rw (h, e, submit_call) refl
    ]

end_session-to_program :
    (sid : ℕ) (s : Service) (session : Session)
    → lookup sid s.sessions ≡ some session
    → (end_session sid s).1 ≡ to_program (complete session)
unfolding end_session
end_session-to_program sid s session h = rw (h, end_session) refl

-- A call whose name is taken passes the checks of `submit_call` as well, but its session then makes
-- no program, so that `end_session` raises an error.
pub submit_call-duplicate :
    (sid : ℕ) (a : Submission) (s : Service) (session : Session) (call : CallSpec) (p : ProgramSpec)
    → lookup sid s.sessions ≡ some session
    → checked_call sid a s ≡ ok call
    → mem a.call_id (ids session.calls) ≡ true
    → (end_session sid (submit_call sid a s).0).1 ≢ ok p
submit_call-duplicate sid a s session call p found h taken e =
    let c = checked_call-Checked sid a s call h in
    let after = (submit_call sid a s).0 in
    let there : lookup sid after.sessions ≡ some (with_call call session) =
      rw
        (
          submit_call-sessions sid a s call h,
          lookup-update sid sid (with_call call) s.sessions,
          found,
        )
        (ground (arith, ==_iff sid sid)) in
    let ended = sym (end_session-to_program sid after (with_call call session) there) ∙ e in
    let one = to_program-Distinct (complete (with_call call session)) p ended call.call_id in
    let twice = subst (λ x. mem x (ids session.calls) ≡ true) (sym c.name) taken in
    ground (
      arith,
      one,
      ids-append session.calls call call.call_id,
      ==_iff call.call_id call.call_id,
      mem-occurrences call.call_id (ids session.calls),
    )
