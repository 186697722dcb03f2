-- ===== src/Crawler/Sweep.antt =====
-- dhtCrawler.js, `_nextTarget`: the leading four bytes of the target, from the counter of the sweep.
-- The other sixteen bytes are random.
pub mod Spread
mod Tests
use swarmproof.Base.{suc, zero, ℕ, ◌%◌, ◌*◌, ◌+◌, ◌/◌, ◌^◌}
use swarmproof.Worker.Pool.{sweep}

-- `n >>> i`
pub shift_right : ℕ → ℕ → ℕ
shift_right n zero = n
shift_right n (suc i) = shift_right (n / 2) i

-- The loop, with the rounds left: `reversed = (reversed << 1) | ((n >>> i) & 1)`. The bit that is
-- or-ed in is clear after the shift; in 32 rounds no bit leaves the word.
pub reverse_from : ℕ → ℕ → ℕ → ℕ → ℕ
unfolding shift_right
reverse_from zero i n reversed = reversed
reverse_from (suc rounds) i n reversed =
    reverse_from rounds (suc i) n ((2 * reversed + shift_right n i % 2) % 2 ^ 32)

-- `>>>` reads its operand modulo 2^32.
pub next_target : ℕ → ℕ
unfolding reverse_from
next_target sweep = reverse_from 32 0 (sweep % 2 ^ 32) 0
