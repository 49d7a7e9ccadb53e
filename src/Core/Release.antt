-- ===== src/Core/Release.antt =====
-- When a call of a program may be released: `_earliest_ready_time` of autellix/core/simulator.py.
use autellix.Prelude.{
  ℕ, ◌+◌, ◌-◌, ◌≤◌, max, ◌≡◌, inl, inr, List, [], ◌∷◌, Option, none, some, Result, ok, ◌>>=◌,
  or_fail, arith, All, All-map, Option-cases, List-cases, >>=-eq-ok, ok_injective, some_injective,
}
use autellix.Prelude.Dict.{Dict, lookup}
use autellix.Core.State.{CallSpec, CallState}

pub data ReleaseError : Type 0 where
  unknown_parent : ReleaseError

-- The later of the program's arrival and the call's own time.
unfoldable pub base_time : ℕ → CallSpec → ℕ
base_time arrival spec = elim spec.submit_time [ none ↦ arrival | some t ↦ max arrival t ]

-- The loop over the parents, for the calls of the program by identifier: `none` when it meets an
-- unfinished one, else the latest time.
unfoldable pub latest_finish : List ℕ → Dict CallState → Result ReleaseError (Option ℕ)
latest_finish [] calls = ok (some 0)
latest_finish (p ∷ ps) calls = do
  parent ← or_fail (lookup p calls) unknown_parent
  elim parent.finish_time [
    | none ↦ ok none
    | some t ↦ do
      rest ← latest_finish ps calls
      ok (elim rest [ none ↦ none | some u ↦ some (max t u) ])
  ]

-- `_earliest_ready_time`.
unfoldable pub earliest_ready_time : ℕ → ℕ → CallSpec → Dict CallState → Result ReleaseError ℕ
unfolding latest_finish
earliest_ready_time max_time arrival spec calls = elim spec.parents [
  | [] ↦ ok (base_time arrival spec + spec.release_delay)
  | p ∷ ps ↦ do
    latest ← latest_finish (p ∷ ps) calls
    ok (elim latest [
      | none ↦ max_time + 1
      | some t ↦ max (base_time arrival spec) (t + spec.release_delay)
    ])
]

-- A parent that finished by the time `bound`.
pub record FinishedBy (calls : Dict CallState) (bound p : ℕ) : Type 0 where
  pub parent : CallState
  pub known : lookup p calls ≡ some parent
  pub time : ℕ
  pub finish : parent.finish_time ≡ some time
  pub early : time ≤ bound

later-FinishedBy :
    (calls : Dict CallState) (s t p : ℕ) → s ≤ t → FinishedBy calls s p → FinishedBy calls t p
later-FinishedBy calls s t p h f = record {
  parent = f.parent;
  known = f.known;
  time = f.time;
  finish = f.finish;
  early = omega (arith, f.early);
}

latest_finish-FinishedBy :
    (ps : List ℕ) (calls : Dict CallState) (t : ℕ)
    → latest_finish ps calls ≡ ok (some t)
    → All (FinishedBy calls t) ps
unfolding latest_finish
latest_finish-FinishedBy [] calls t h = tt
latest_finish-FinishedBy (p ∷ ps) calls t h = elim (Option-cases (lookup p calls)) [
  | inl missing ↦ absurd (let g = rw missing at h in cc)
  | inr (c, known) ↦ elim (Option-cases c.finish_time) [
    | inl running ↦ absurd (let g = rw (known, running) at h in cc)
    | inr (s, finish) ↦
        let (rest, more, same) = >>=-eq-ok (latest_finish ps calls) _ (rw (known, finish) at h) in
        elim (Option-cases rest) [
          | inl e ↦ absurd (let g = rw e at same in cc)
          | inr (u, e) ↦
              let top : max s u ≡ t = some_injective (ok_injective (rw e at same)) in
              (
                record {
                  parent = c;
                  known = known;
                  time = s;
                  finish = finish;
                  early = omega arith;
                },
                All-map ps (λ q. later-FinishedBy calls u t q (omega arith))
                    (latest_finish-FinishedBy ps calls u (rw e at more)),
              )
        ]
  ]
]

base_time-le : (arrival : ℕ) (spec : CallSpec) → arrival ≤ base_time arrival spec
unfolding base_time
base_time-le arrival spec = elim (Option-cases spec.submit_time) [
  | inl e ↦ rw e (omega arith)
  | inr (t, e) ↦ rw e (omega arith)
]

-- A call that is ready by a time within the limit has all its parents finished, each early enough
-- for the call's release delay, and its program has arrived.
pub ready-FinishedBy :
    (max_time arrival : ℕ) (spec : CallSpec) (calls : Dict CallState) (ready : ℕ)
    → earliest_ready_time max_time arrival spec calls ≡ ok ready
    → ready ≤ max_time
    → (arrival ≤ ready) × All (FinishedBy calls (ready - spec.release_delay)) spec.parents
unfolding earliest_ready_time base_time
ready-FinishedBy max_time arrival spec calls ready h k =
    let after = base_time-le arrival spec in
    elim (List-cases spec.parents) [
      | inl e ↦
          let same : base_time arrival spec + spec.release_delay ≡ ready =
            ok_injective (rw e at h) in
          rw e (omega (arith, after), tt)
      | inr (p, ps, e) ↦
          let (latest, found, same) = >>=-eq-ok (latest_finish (p ∷ ps) calls) _ (rw e at h) in
          elim (Option-cases latest) [
            | inl none_yet ↦
                let beyond : max_time + 1 ≡ ready = ok_injective (rw none_yet at same) in
                absurd (omega arith)
            | inr (t, q) ↦
                let top : max (base_time arrival spec) (t + spec.release_delay) ≡ ready =
                  ok_injective (rw q at same) in
                let finished = latest_finish-FinishedBy (p ∷ ps) calls t (rw q at found) in
                rw e (
                  omega (arith, after),
                  All-map (p ∷ ps)
                      (λ r. later-FinishedBy calls t (ready - spec.release_delay) r (omega arith))
                      finished,
                )
          ]
    ]
