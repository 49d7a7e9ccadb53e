-- ===== src/Integrations/Samples.antt =====
-- A request of three tokens in two layers whose rows are numbers.
use autellix.Prelude.{
  ℕ, ◌+◌, ◌≡◌, refl, true, List, [], ◌∷◌, some, none, inl, Result, ok, err, arith,
}
use autellix.Integrations.HostKv.{HostKv, HostError, save, restore}
use autellix.Prelude.Torch.{Torch, select_layers}
use autellix.Prelude.Torch.Functions.{functions, functions-TorchLaws}
use autellix.Prelude.Dict.{Dict}
use autellix.Integrations.Reserve.{Reserving, release_reserves}
use autellix.Integrations.Reserve.Preserved.{IsSafe, release_reserves-IsSafe}
use autellix.Integrations.HostKv.Budget.{IsBudgeted, save-IsBudgeted}
use autellix.Integrations.HostKv.Restoring.{restore-save}

abbrev torch : Torch (ℕ → ℕ) ℕ
torch = functions ℕ

abbrev layers : List (ℕ → ℕ)
layers = (λ slot. 10 + slot) ∷ (λ slot. 20 + slot) ∷ []

abbrev later : List (ℕ → ℕ)
later = (λ slot. 0) ∷ (λ slot. 1) ∷ []

abbrev empty : HostKv ℕ
empty = record { limit_bytes = 100; used_bytes = 0; saved = [] }

empty-IsBudgeted : IsBudgeted empty
empty-IsBudgeted = record { distinct = λ x. omega arith; used = refl; within = omega arith }

abbrev value : Result HostError (HostKv ℕ) → HostKv ℕ
value (ok h) = h
value (err e) = empty

abbrev held : HostKv ℕ
unfolding save
held = value (save torch 8 7 (1 ∷ 2 ∷ 3 ∷ []) (4 ∷ 5 ∷ 6 ∷ []) layers empty)

saved : save torch 8 7 (1 ∷ 2 ∷ 3 ∷ []) (4 ∷ 5 ∷ 6 ∷ []) layers empty ≡ ok held
unfolding save
saved = refl

save-IsBudgeted_example : IsBudgeted held
save-IsBudgeted_example =
    save-IsBudgeted torch 8 7 (1 ∷ 2 ∷ 3 ∷ []) (4 ∷ 5 ∷ 6 ∷ []) layers empty held empty-IsBudgeted
      saved

restore-save_example :
    ((restore torch 7 (9 ∷ []) (some (2 ∷ 3 ∷ [])) held later).1 ≡ true)
    × (select_layers torch (2 ∷ 3 ∷ []) (restore torch 7 (9 ∷ []) (some (2 ∷ 3 ∷ [])) held later).0
        ≡ (15 ∷ 16 ∷ []) ∷ (25 ∷ 26 ∷ []) ∷ [])
unfolding functions
restore-save_example =
    restore-save torch (functions-TorchLaws ℕ) 8 7 (1 ∷ 2 ∷ 3 ∷ []) (4 ∷ 5 ∷ 6 ∷ []) (9 ∷ [])
      (2 ∷ 3 ∷ []) layers later empty held saved (omega arith) refl (λ x. ground arith) refl

-- Request 7 is a reserve, pinned at node 3.
abbrev reserving : Reserving ℕ
reserving = record { reserves = (7, 3) ∷ []; host = some empty; unpinned = [] }

abbrev matched : List ℕ → List ℕ
matched tokens = 4 ∷ 5 ∷ 6 ∷ []

abbrev requests : Dict (List ℕ)
requests = (7, 1 ∷ 2 ∷ 3 ∷ []) ∷ []

release_reserves-IsSafe_example :
    IsSafe torch 8 matched layers requests 7 3
      (release_reserves torch 8 matched layers requests none true reserving).0
release_reserves-IsSafe_example =
    release_reserves-IsSafe torch 8 matched layers requests none 7 3 reserving
      (empty, refl, inl refl)

release_unpins :
    (release_reserves torch 8 matched layers requests none true reserving).0.unpinned ≡ 3 ∷ []
unfolding release_reserves save
release_unpins = refl
