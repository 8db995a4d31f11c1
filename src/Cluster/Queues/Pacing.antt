-- ===== src/Cluster/Queues/Pacing.antt =====
-- src/cluster.rs: the identifies of one bucket are spaced out, and none is lost.
use twilight_dispatch.Prelude.{
  ℕ, zero, suc, ◌+◌, ◌-◌, ◌*◌, ◌≤◌, ◌<◌, ◌≡◌, refl, ap, max, List, [], ◌∷◌, length, get_or, arith,
}
use twilight_dispatch.Cluster.Queues.{Queue, Delays, wait_of, waiter, Request, arrivals, answers}

waiter_after :
    (duration : ℕ) (delay : Delays) (free : ℕ) (times : List ℕ) (i : ℕ)
    → i < length times
    → free + i * duration ≤ get_or (waiter duration delay free times) i 0
unfolding waiter
waiter_after duration delay free [] i h = elim h [ ]
waiter_after duration delay free (t ∷ times) zero h = omega arith
waiter_after duration delay free (t ∷ times) (suc i) h =
    grind (
      arith,
      waiter_after duration (λ n. delay (suc n)) (max t free + (duration + delay 0)) times i,
    )

-- Answers `i` and `j` of a waiter are at least `j - i` sleeps apart.
waiter_spacing :
    (duration : ℕ) (delay : Delays) (free : ℕ) (times : List ℕ) (i j : ℕ)
    → i < j
    → j < length times
    → get_or (waiter duration delay free times) i 0 + (j - i) * duration
      ≤ get_or (waiter duration delay free times) j 0
unfolding waiter
waiter_spacing duration delay free [] i j h k = elim k [ ]
waiter_spacing duration delay free (t ∷ times) i zero h k = elim h [ ]
waiter_spacing duration delay free (t ∷ times) zero (suc j) h k =
    let gap : suc j - 0 ≡ suc j = omega arith in
    let step : suc j * duration ≡ duration + j * duration = grind arith in
    let after =
      waiter_after duration (λ n. delay (suc n)) (max t free + (duration + delay 0)) times j
        (omega arith) in
    rw gap (rw step (omega (arith, after)))
waiter_spacing duration delay free (t ∷ times) (suc i) (suc j) h k =
    let gap : suc j - suc i ≡ j - i = omega arith in
    rw gap (
      waiter_spacing duration (λ n. delay (suc n)) (max t free + (duration + delay 0)) times i j
        (omega arith) (omega arith))

length-waiter :
    (duration : ℕ) (delay : Delays) (free : ℕ) (times : List ℕ)
    → length (waiter duration delay free times) ≡ length times
unfolding waiter
length-waiter duration delay free [] = refl
length-waiter duration delay free (t ∷ times) =
    ap suc (length-waiter duration (λ n. delay (suc n)) (max t free + (duration + delay 0)) times)

-- The answers of one bucket come no sooner than the requests.
waiter_late :
    (duration : ℕ) (delay : Delays) (free : ℕ) (times : List ℕ) (i : ℕ)
    → i < length times
    → get_or times i 0 ≤ get_or (waiter duration delay free times) i 0
unfolding waiter
waiter_late duration delay free [] i h = elim h [ ]
waiter_late duration delay free (t ∷ times) zero h = omega arith
waiter_late duration delay free (t ∷ times) (suc i) h =
    waiter_late duration (λ n. delay (suc n)) (max t free + (duration + delay 0)) times i
      (omega arith)

waiter_first :
    (duration : ℕ) (delay : Delays) (times : List ℕ)
    → get_or (waiter duration delay 0 times) 0 0 ≡ get_or times 0 0
unfolding waiter
waiter_first duration delay [] = refl
waiter_first duration delay (t ∷ times) = omega arith

-- Whatever the requests, and however much longer than asked the sleeps take: each request of a bucket
-- has one answer, no sooner than it arrives; the first is answered when it arrives; and for all
-- `i < j` answer `j` comes at least `j - i` times the configured wait after answer `i`.
pub answers_paced :
    (q : Queue) (delay : Delays) (b : ℕ) (rs : List Request)
    → (length (answers q delay b rs) ≡ length (arrivals q b rs))
      × ((i : ℕ)
          → i < length (arrivals q b rs)
          → get_or (arrivals q b rs) i 0 ≤ get_or (answers q delay b rs) i 0)
      × (get_or (answers q delay b rs) 0 0 ≡ get_or (arrivals q b rs) 0 0)
      × ((i j : ℕ)
          → i < j
          → j < length (arrivals q b rs)
          → get_or (answers q delay b rs) i 0 + (j - i) * wait_of q
            ≤ get_or (answers q delay b rs) j 0)
unfolding answers
answers_paced q delay b rs = (
  length-waiter (wait_of q) delay 0 (arrivals q b rs),
  waiter_late (wait_of q) delay 0 (arrivals q b rs),
  waiter_first (wait_of q) delay (arrivals q b rs),
  waiter_spacing (wait_of q) delay 0 (arrivals q b rs),
)
