-- ===== src/Runtime/Coordinator/Placement.antt =====
-- Where `submit` of autellix/runtime/engine.py places a call.
use autellix.Prelude.{
  ℕ, suc, ◌+◌, ◌<◌, ◌≡◌, refl, inl, inr, Bool, true, false, List, [], ◌∷◌, ◌++◌, Option, none, some,
  ok, arith, or_fail, all, passed, or_fail-ok, ok_injective, not, ◌&&◌, >>=-eq-ok, subst,
  Result-cases, ◌∙◌, mem, length, ltb, get_or, modify, All, Bool-cases, ==_iff, List-cases, ap,
}
use autellix.Prelude.Dict.{Dict, lookup, insert, update}
use autellix.Prelude.Int.{ℤ}
use autellix.Prelude.Sort.{lex_le, lex_le-total, lex_le_trans}
use autellix.Runtime.Coordinator.State.{
  Backend, Session, add_call, Coordinator, bad_tokens, session_not_open, duplicate_call,
}
use autellix.Runtime.Coordinator.{
  healthy_from, healthy, least_loaded, choose, place, enqueue, submit, launch, pin_session,
  checked_session, is_nonempty, is_token,
}

abbrev load_key : List ℕ → ℕ → ℕ × ℕ
load_key loads i = (get_or loads i 0, i)

-- The least loaded replica is one of the candidates, and none of them goes before it.
pub record IsLeast (loads : List ℕ) (candidates : List ℕ) (i : ℕ) : Type 0 where
  pub candidate : mem i candidates ≡ true
  pub least : All (λ j. lex_le (get_or loads i 0, i) (get_or loads j 0, j) ≡ true) candidates

least_loaded-IsLeast :
    (loads : List ℕ) (i : ℕ) (js : List ℕ) → IsLeast loads (i ∷ js) (least_loaded loads i js)
least_loaded-IsLeast loads i [] = record { candidate = ground arith; least = (ground arith, tt) }
least_loaded-IsLeast loads i (j ∷ js) =
    elim (Bool-cases (lex_le (load_key loads i) (load_key loads j))) [
      | inl e ↦
          let ih = least_loaded-IsLeast loads i js in
          rw e (record {
            candidate = ground (arith, ih.candidate);
            least = (
              ih.least.0,
              (
                lex_le_trans (load_key loads (least_loaded loads i js)) (load_key loads i)
                    (load_key loads j) ih.least.0 e,
                ih.least.1,
              ),
            );
          })
      | inr e ↦
          let ih = least_loaded-IsLeast loads j js in
          rw e (record {
            candidate = ground (arith, ih.candidate);
            least = (
              lex_le_trans (load_key loads (least_loaded loads j js)) (load_key loads j)
                  (load_key loads i) ih.least.0
                  (ground (arith, e, lex_le-total (load_key loads i) (load_key loads j))),
              ih.least,
            );
          })
    ]

-- A replica that has failed, or that is not there, is no candidate.
pub healthy-mem :
    (k i : ℕ) (bs : List Backend) (broken : List ℕ)
    → mem k (healthy_from i bs broken) ≡ true
    → (k < i + length bs) × (mem k broken ≡ false)
healthy-mem k i [] broken h = absurd (ground arith)
healthy-mem k i (b ∷ bs) broken h = ground (arith, healthy-mem k (suc i) bs broken, ==_iff i k)

-- The rule of placement: a short prompt goes to the least loaded candidate and leaves the session's
-- engine; a long one goes to the session's engine while that is a candidate, and else to the
-- least loaded one, which becomes the session's engine.
pub data Placed (long : Bool) (loads candidates : List ℕ) (engine : Option ℕ) (i : ℕ)
    (engine' : Option ℕ) : Type 0 where
  spread :
      long ≡ false
      → IsLeast loads candidates i
      → engine' ≡ engine
      → Placed long loads candidates engine i engine'
  pinned :
      long ≡ true
      → engine ≡ some i
      → mem i candidates ≡ true
      → engine' ≡ some i
      → Placed long loads candidates engine i engine'
  moved :
      long ≡ true
      → ((e : ℕ) → engine ≡ some e → mem e candidates ≡ false)
      → IsLeast loads candidates i
      → engine' ≡ some i
      → Placed long loads candidates engine i engine'

pub Placed-mem :
    {long : Bool} {loads candidates : List ℕ} {engine engine' : Option ℕ} {i : ℕ}
    → Placed long loads candidates engine i engine'
    → mem i candidates ≡ true
Placed-mem (spread _ l _) = l.candidate
Placed-mem (pinned _ _ m _) = m
Placed-mem (moved _ _ l _) = l.candidate

choose-Placed :
    (long : Bool) (loads : List ℕ) (least : ℕ) (available : List ℕ) (engine : Option ℕ)
    → IsLeast loads available least
    → let r = choose long least available engine in Placed long loads available engine r.0 r.1
unfolding choose
choose-Placed false loads least available engine l = spread refl l refl
choose-Placed true loads least available none l = moved refl (λ e h. cc) l refl
choose-Placed true loads least available (some e) l = elim (Bool-cases (mem e available)) [
  | inl there ↦ rw there (pinned refl refl there refl)
  | inr gone ↦ rw gone (moved refl (λ f h. ground (arith, gone)) l refl)
]

-- Every call is placed by the rule of placement.
pub place-Placed :
    (threshold : ℕ) (loads : List ℕ) (size first : ℕ) (others : List ℕ) (engine : Option ℕ)
    → let r = place threshold loads size first others engine in
      Placed (ltb threshold size) loads (first ∷ others) engine r.0 r.1
unfolding place
place-Placed threshold loads size first others engine =
    choose-Placed (ltb threshold size) loads (least_loaded loads first others) (first ∷ others)
      engine (least_loaded-IsLeast loads first others)

enqueue-after :
    (pid rid call_id thread_id now index : ℕ) (c d : Coordinator)
    → enqueue pid rid call_id thread_id now index c ≡ (d, ok tt)
    → d ≡ launch pid rid call_id now index d.table c
unfolding enqueue
enqueue-after pid rid call_id thread_id now index c d e = ground arith

abbrev pub with_engine : Option ℕ → Session → Session
with_engine engine s = record s { engine = engine }

abbrev with_call : ℕ → Session → Session
with_call call_id s = record s { calls = call_id ∷ s.calls }

update_twice :
    {V : Type 0} (k : ℕ) (f g : V → V) (d : Dict V)
    → update k g (update k f d) ≡ update k (λ v. g (f v)) d
update_twice k f g [] = refl
update_twice k f g ((j, v) ∷ d) = ground (arith, update_twice k f g d)

-- The session that passes the checks.
abbrev IsAccepting : ℕ → ℕ → Coordinator → Session → Type 0
IsAccepting pid call_id c s =
    (lookup pid c.sessions ≡ some s)
    × ((c.closed ≡ false) × (s.closing ≡ false))
    × (mem call_id s.calls ≡ false)

checked_session-IsAccepting :
    (pid call_id : ℕ) (tokens : List ℤ) (c : Coordinator) (session : Session)
    → checked_session pid call_id tokens c ≡ ok session
    → IsAccepting pid call_id c session
unfolding checked_session
checked_session-IsAccepting pid call_id tokens c session h =
    let (_, h1) = passed (is_nonempty tokens && all is_token tokens) bad_tokens h in
    let (s, found, h2) = >>=-eq-ok (or_fail (lookup pid c.sessions) session_not_open) _ h1 in
    let (open_now, h3) = passed (not c.closed && not s.closing) session_not_open h2 in
    let (new, h4) = passed (not (mem call_id s.calls)) duplicate_call h3 in
    subst (IsAccepting pid call_id c) (ok_injective h4) (
      or_fail-ok (lookup pid c.sessions) session_not_open found,
      (ground (arith, open_now), ground (arith, open_now)),
      ground (arith, new),
    )

-- What `submit` has done when it succeeds.
pub record Submission (pid rid call_id size : ℕ) (c d : Coordinator) : Type 0 where
  pub session : Session
  pub index : ℕ
  pub engine : Option ℕ
  pub is_open : lookup pid c.sessions ≡ some session
  pub accepting : (c.closed ≡ false) × (session.closing ≡ false)
  pub new_call : mem call_id session.calls ≡ false
  pub placed : Placed (ltb c.threshold size) c.loads (healthy c) session.engine index engine
  pub pending :
      d.pending ≡ insert rid (record { pid = pid; index = index; call_id = call_id }) c.pending
  pub loads : d.loads ≡ modify c.loads index suc
  pub sessions :
      d.sessions
      ≡ update pid (λ s. record s { engine = engine; calls = call_id ∷ s.calls }) c.sessions
  pub sent : d.sent ≡ c.sent ++ (index, add_call rid pid) ∷ []
  pub rest : (d.backends ≡ c.backends) × (d.rpc ≡ c.rpc) × (d.failures ≡ c.failures)

-- A call that is submitted goes to an open session, under a call identifier that is new there, and
-- to a replica by the rule of placement; it is counted in that replica's load and sent to it.
pub submit-Submission :
    (pid rid call_id thread_id now : ℕ) (tokens : List ℤ) (c d : Coordinator)
    → submit pid rid call_id thread_id now tokens c ≡ (d, ok tt)
    → Submission pid rid call_id (length tokens) c d
unfolding submit
submit-Submission pid rid call_id thread_id now tokens c d e =
    elim (Result-cases (checked_session pid call_id tokens c)) [
      | inr (x, bad) ↦ absurd (let g = rw (bad, submit) at e in cc)
      | inl (session, good) ↦ elim (List-cases (healthy c)) [
        | inl none_left ↦ absurd (let g = rw (good, none_left, submit) at e in cc)
        | inr (first, others, up) ↦
            let p = place c.threshold c.loads (length tokens) first others session.engine in
            let placed =
              place-Placed c.threshold c.loads (length tokens) first others session.engine in
            let accepted = checked_session-IsAccepting pid call_id tokens c session good in
            let pinned = pin_session pid (p.1) c in
            let queued : enqueue pid rid call_id thread_id now (p.0) pinned ≡ (d, ok tt) =
              rw (good, up, submit) at e in
            let after = enqueue-after pid rid call_id thread_id now (p.0) pinned d queued in
            let joined = update_twice pid (with_engine (p.1)) (with_call call_id) c.sessions in
            record {
              session = session;
              index = p.0;
              engine = p.1;
              is_open = accepted.0;
              accepting = accepted.1;
              new_call = accepted.2;
              placed = rw up placed;
              pending = ap (λ x. x.pending) after;
              loads = ap (λ x. x.loads) after;
              sessions = ap (λ x. x.sessions) after ∙ joined;
              sent = ap (λ x. x.sent) after;
              rest =
                  (ap (λ x. x.backends) after, ap (λ x. x.rpc) after, ap (λ x. x.failures) after);
            }
      ]
    ]
