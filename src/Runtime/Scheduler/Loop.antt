-- ===== src/Runtime/Scheduler/Loop.antt =====
-- The loop of `RuntimeScheduler.refresh` (autellix/runtime/policy.py), call by call.
use autellix.Prelude.{
  ℕ, ◌≡◌, refl, inl, inr, [], ◌∷◌, none, some, arith, ◌==◌, Distinct, Bool-cases, ==_iff,
}
use autellix.Prelude.Dict.{Dict, lookup, update, keys, lookup-update}
use autellix.Prelude.Entries.{
  Agrees, Agrees-update, Agrees-self, lookup-sort, occurrences-sort, lookup-none,
}
use autellix.Prelude.Sort
use autellix.Prelude.Sort.{sort}
use autellix.Runtime.Config.{PolicyConfig}
use autellix.Runtime.Table
use autellix.Runtime.Table.Rows.{RuntimeCall}
use autellix.Runtime.Scheduler.Calls.{refresh_call, entry_le}
use autellix.Runtime.Scheduler.{Scheduler, refresh, refresh_loop}

module _ (config : PolicyConfig) (totals : Dict (ℕ × ℕ)) (now : ℕ) where
  -- A call that is not in the list is left alone.
  loop-other :
      (k : ℕ) (es : Dict RuntimeCall) (n : ℕ) (d : Dict RuntimeCall)
      → lookup k es ≡ none
      → lookup k (refresh_loop config totals now es n d).1 ≡ lookup k d
  unfolding refresh_loop
  loop-other k [] n d h = refl
  loop-other k ((j, c) ∷ es) n d h =
      let (n', c') = refresh_call config totals now n c in
      ground (arith, loop-other k es n' (update j (λ _. c') d), lookup-update j k (λ _. c') d)

  -- A call that is in the list goes through the body of the loop once.
  loop-visited :
      (k : ℕ) (es : Dict RuntimeCall) (n : ℕ) (d : Dict RuntimeCall) {c : RuntimeCall}
      → Distinct (keys es)
      → Agrees es d
      → lookup k es ≡ some c
      → (m : ℕ) × (lookup k (refresh_loop config totals now es n d).1
          ≡ some (refresh_call config totals now m c).1)
  unfolding refresh_loop
  loop-visited k [] n d h a e = absurd (ground arith)
  loop-visited k ((j, b) ∷ es) n d {c} h a e =
      let (n', b') = refresh_call config totals now n b in
      let d' = update j (λ _. b') d in
      elim (Bool-cases (j == k)) [
        | inl same ↦ (
          n,
          ground (
            arith,
            h j,
            ==_iff j k,
            lookup-none k es,
            loop-other k es n' d',
            lookup-update j k (λ _. b') d,
          ),
        )
        | inr other ↦
            loop-visited k es n' d' (λ x. ground (arith, h x))
              (Agrees-update j (λ _. b') es d (ground (arith, h j)) a.1) (ground arith)
      ]

-- After a refresh each call is what the body of the loop made of it.
pub refresh-visited :
    (now k : ℕ) (s : Scheduler) {c : RuntimeCall}
    → Distinct (keys s.calls)
    → lookup k s.calls ≡ some c
    → (m : ℕ) × (lookup k (refresh now s).calls
        ≡ some (refresh_call s.config (Table.snapshot s.table) now m c).1)
unfolding refresh
refresh-visited now k s h e =
    loop-visited s.config (Table.snapshot s.table) now k (sort entry_le s.calls) s.counter s.calls
      (λ x. ground (arith, h x, occurrences-sort entry_le x s.calls))
      (Sort.All-sort entry_le (λ (e : ℕ × RuntimeCall). lookup e.0 s.calls ≡ some e.1) s.calls
        (Agrees-self s.calls h))
      (ground (arith, lookup-sort entry_le k s.calls h))
