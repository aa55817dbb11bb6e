-- ===== src/Browser/Client/Probe.antt =====
-- `probeFastest` of apps/browser/src/client.ts, once all probes have settled: a latency, or none
-- where the probe failed. Latencies are natural numbers here; the code only compares them.
pub mod Fastest
use wormdb.Base.{Option, ℕ, true, [], ◌∷◌, none, some, Bool, JsString, ltb, List, if◌then◌else◌}

-- `result.value < bestLatency`, where none stands for Infinity.
unfoldable pub is_faster : ℕ → Option ℕ → Bool
is_faster latency none = true
is_faster latency (some best) = ltb latency best

unfoldable pub probe_loop : JsString → Option ℕ → List (JsString × Option ℕ) → JsString
probe_loop best_url best [] = best_url
probe_loop best_url best ((url, none) ∷ rest) = probe_loop best_url best rest
probe_loop best_url best ((url, some latency) ∷ rest) =
    let taken = probe_loop url (some latency) rest in
    let kept = probe_loop best_url best rest in if is_faster latency best then taken else kept

-- `Promise.allSettled` keeps the order of the urls.
unfoldable pub zip_results : List JsString → List (Option ℕ) → List (JsString × Option ℕ)
zip_results [] rs = []
zip_results (u ∷ us) [] = []
zip_results (u ∷ us) (r ∷ rs) = (u, r) ∷ zip_results us rs

unfoldable pub probe_fastest : List JsString → List (Option ℕ) → JsString
probe_fastest [] rs = []
probe_fastest (u ∷ us) rs = probe_loop u none (zip_results (u ∷ us) rs)
