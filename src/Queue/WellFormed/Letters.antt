-- ===== src/Queue/WellFormed/Letters.antt =====
-- Rows of `dead_letter`: what burying and reviving a job does to their number.
use forge_queue.Prelude.{ℕ, ◌≡◌, ◌==◌, if◌then◌else◌, List, [], ◌∷◌, arith}
use forge_queue.Tables.{DeadLetter}
use forge_queue.Queue.Settle.{put_dead_letter, remove_dead_letter}
use forge_queue.Queue.WellFormed.{letters}

pub letters-put :
    (i : ℕ) (d : DeadLetter) (ds : List DeadLetter)
    → letters d.job_id ds ≡ 0
    → letters i (put_dead_letter d ds) ≡ (if d.job_id == i then 1 else letters i ds)
unfolding letters put_dead_letter
letters-put i d [] h = ground arith
letters-put i d (x ∷ xs) h = ground (arith, letters-put i d xs)

pub letters-remove :
    (i k : ℕ) (ds : List DeadLetter)
    → letters i (remove_dead_letter k ds) ≡ (if k == i then 0 else letters i ds)
unfolding letters remove_dead_letter
letters-remove i k [] = ground arith
letters-remove i k (x ∷ xs) = ground (arith, letters-remove i k xs)
