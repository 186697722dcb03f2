-- ===== src/Crawler/Sweep/Tests.antt =====
-- dhtCrawler.js, `_nextTarget`: runs.
use swarmproof.Base.{refl, ◌+◌, ◌^◌, ◌≡◌}
use swarmproof.Crawler.Sweep.{next_target, reverse_from, shift_right}
use swarmproof.Crawler.Sweep.Spread.{double}

double_three : double 3 ≡ 8
unfolding double
double_three = refl

next_target_three : next_target 3 ≡ 2 ^ 31 + 2 ^ 30
unfolding next_target reverse_from shift_right
next_target_three = refl
