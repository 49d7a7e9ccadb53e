-- ===== src/Runtime/Config/Bracket.antt =====
-- The queue that a service time falls into (`PolicyConfig.queue` of autellix/runtime/policy.py).
use autellix.Prelude.{
  ℕ, suc, ◌+◌, ◌≤◌, ◌<◌, ◌≡◌, inl, inr, true, false, List, [], ◌∷◌, some, ok, length, get_or, arith,
  Bool-cases,
}
use autellix.Prelude.Float.{Float, nan, whole, lt}
use autellix.Runtime.Config.{
  PolicyConfig, check, queue, queue_from, ends_at_inf, last_is_inf, starts_at_zero, tail,
}

-- `q` is the bracket of `service`: its lower boundary is not above it, its upper one is.
pub record Brackets (c : PolicyConfig) (service q : ℕ) : Type 0 where
  pub in_range : q < length c.quanta
  pub low : lt (whole service) (get_or c.boundaries q nan) ≡ false
  pub high : lt (whole service) (get_or c.boundaries (suc q) nan) ≡ true

record Found (i service : ℕ) (b : Float) (bs : List Float) : Type 0 where
  offset : ℕ
  found : queue_from i service bs ≡ some (i + offset)
  within : offset < length bs
  low : lt (whole service) (get_or (b ∷ bs) offset nan) ≡ false
  high : lt (whole service) (get_or bs offset nan) ≡ true

queue_from-Found :
    (i service : ℕ) (b : Float) (bs : List Float)
    → lt (whole service) b ≡ false
    → ends_at_inf b bs ≡ true
    → Found i service b bs
unfolding queue_from
queue_from-Found i service b [] low last = absurd (ground arith)
queue_from-Found i service b (c ∷ bs) low last = elim (Bool-cases (lt (whole service) c)) [
  | inl e ↦ record {
    offset = 0;
    found = rw e (ground arith);
    within = omega arith;
    low = low;
    high = e;
  }
  | inr e ↦
      let rest = queue_from-Found (suc i) service c bs e last in
      record {
        offset = suc rest.offset;
        found = rw e (ground (arith, rest.found));
        within = omega (arith, rest.within);
        low = rest.low;
        high = rest.high;
      }
]

-- The same for a whole list of boundaries.
boundaries-Found :
    (service n : ℕ) (bs : List Float)
    → length bs ≡ n + 1
    → starts_at_zero bs ≡ true
    → last_is_inf bs ≡ true
    → (q : ℕ) × (queue_from 0 service (tail bs) ≡ some q)
      × (q < n)
      × (lt (whole service) (get_or bs q nan) ≡ false)
      × (lt (whole service) (get_or bs (suc q) nan) ≡ true)
boundaries-Found service n [] size zeroed last = absurd (omega arith)
boundaries-Found service n (b ∷ bs) size zeroed last =
    let f = queue_from-Found 0 service b bs (ground arith) last in
    (f.offset, ground (arith, f.found), omega (arith, f.within), f.low, f.high)

check-boundaries :
    (c : PolicyConfig)
    → check c ≡ ok tt
    → (length c.boundaries ≡ length c.quanta + 1)
      × (starts_at_zero c.boundaries ≡ true)
      × (last_is_inf c.boundaries ≡ true)
unfolding check
check-boundaries c h = ground arith

-- Every configuration that passes the checks puts every service time in the bracket that its
-- boundaries delimit: `queue` always returns an index, that of a quantum, whose lower boundary is
-- not above the service time and whose upper boundary is.
pub queue-Brackets :
    (c : PolicyConfig) (service : ℕ)
    → check c ≡ ok tt
    → (q : ℕ) × (queue c service ≡ some q) × Brackets c service q
unfolding queue
queue-Brackets c service h =
    let (size, zeroed, last) = check-boundaries c h in
    let (q, e, within, low, high) =
      boundaries-Found service (length c.quanta) c.boundaries size zeroed last in
    (q, e, record { in_range = within; low = low; high = high })

below_whole : (b : Float) {s t : ℕ} → s ≤ t → lt (whole t) b ≡ true → lt (whole s) b ≡ true
below_whole nan h e = e
below_whole b h e = ground arith

queue_from-ge : (i s : ℕ) {q : ℕ} (bs : List Float) → queue_from i s bs ≡ some q → i ≤ q
unfolding queue_from
queue_from-ge i s [] e = cc
queue_from-ge i s {q} (b ∷ bs) e = ground (arith, queue_from-ge (suc i) s {q = q} bs)

queue_from_mono :
    (i s t : ℕ) {p q : ℕ} (bs : List Float)
    → s ≤ t
    → queue_from i s bs ≡ some p
    → queue_from i t bs ≡ some q
    → p ≤ q
unfolding queue_from
queue_from_mono i s t [] h e f = cc
queue_from_mono i s t {p} {q} (b ∷ bs) h e f = ground (
  arith,
  below_whole b h,
  queue_from-ge i t (b ∷ bs) f,
  queue_from_mono (suc i) s t {p = p} {q = q} bs h,
)

-- More service never means a higher queue: the index does not fall as the service time grows.
pub queue_mono :
    (c : PolicyConfig) (s t : ℕ) {p q : ℕ} → s ≤ t → queue c s ≡ some p → queue c t ≡ some q → p ≤ q
unfolding queue
queue_mono c s t h e f = queue_from_mono 0 s t (tail c.boundaries) h e f
