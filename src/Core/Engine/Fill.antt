-- ===== src/Core/Engine/Fill.antt =====
-- `fill_from_prefetch` of autellix/core/schedulers.py against the split of a list.
use autellix.Prelude.{
  ℕ, ◌+◌, ◌-◌, ◌<◌, ◌≡◌, refl, sym, ◌∙◌, ap, inl, inr, List, [], ◌∷◌, ◌++◌, length, ltb, arith,
  take, drop, Bool-cases, length-append, ltb→lt,
}
use autellix.Prelude.Dict.{Dict}
use autellix.Prelude.Sets.{nil-take, nil-drop}
use autellix.Core.State.{CallState, EngineState}
use autellix.Core.Engine.{start_call, fill_loop, fill_from_prefetch}
use autellix.Core.Engine.Split.{append_assoc, append_nil, free_slots, no_slots}

fill_loop_lem :
    (ps : List ℕ) (time : ℕ) (calls : Dict CallState) (e : EngineState)
    → let s = fill_loop ps time calls e in
      (s.engine.running ≡ e.running ++ take (e.batch_size - length e.running) ps)
      × (s.engine.prefetched ≡ drop (e.batch_size - length e.running) ps)
      × (s.engine.queues ≡ e.queues)
      × (s.chosen ≡ take (e.batch_size - length e.running) ps)
unfolding fill_loop start_call
fill_loop_lem [] time calls e =
    let places = e.batch_size - length e.running in
    (
      sym (append_nil e.running) ∙ ap (λ ys. e.running ++ ys) (nil-take places),
      nil-drop places,
      refl,
      nil-take places,
    )
fill_loop_lem (r ∷ ps) time calls e = elim (Bool-cases (ltb (length e.running) e.batch_size)) [
  | inl h ↦
      let q = start_call r time calls e in
      let more = fill_loop_lem ps time q.0 q.1 in
      let free : length e.running < e.batch_size = ltb→lt _ _ h in
      let len : length (e.running ++ (r ∷ [])) ≡ length e.running + 1 =
        omega (arith, length-append e.running (r ∷ [])) in
      let (a, b, c, d) = rw len at more in
      rw (h, free_slots e.batch_size (length e.running) free)
        (
          a ∙ append_assoc e.running (r ∷ []) (take (e.batch_size - (length e.running + 1)) ps),
          b,
          c,
          ap (λ xs. r ∷ xs) d,
        )
  | inr h ↦
      rw (h, no_slots e.batch_size (length e.running) h)
        (sym (append_nil e.running), refl, refl, refl)
]

-- `fill_from_prefetch` starts the prefetched calls in their order until the batch is full, keeps
-- the others prefetched in order, and leaves the queues alone.
pub fill_from_prefetch-splits :
    (time : ℕ) (calls : Dict CallState) (e : EngineState)
    → let s = fill_from_prefetch time calls e in
      (s.engine.running ≡ e.running ++ take (e.batch_size - length e.running) e.prefetched)
      × (s.engine.prefetched ≡ drop (e.batch_size - length e.running) e.prefetched)
      × (s.engine.queues ≡ e.queues)
      × (s.chosen ≡ take (e.batch_size - length e.running) e.prefetched)
unfolding fill_from_prefetch
fill_from_prefetch-splits time calls e = fill_loop_lem e.prefetched time calls e
