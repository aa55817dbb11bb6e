-- ===== src/Api/Slots.antt =====
-- The positional arguments of `vsearch`, apps/bun/src/lib/wormdb.ts: skipped slots are padded with
-- the server's defaults up to the last option that is given.
use wormdb.Base.{Option, ℕ, zero, suc, [], ◌∷◌, none, some, List, JsString}
use wormdb.Api.{or_else}
use wormdb.Text.{codes}

unfoldable pub bump : Option JsString → ℕ → ℕ → ℕ
bump none i count = count
bump (some v) i count = suc i

-- `for (…) if (values[i] != null) count = i + 1`
unfoldable pub count_given : ℕ → ℕ → List (Option JsString) → ℕ
count_given i count [] = count
count_given i count (v ∷ vs) = count_given (suc i) (bump v i count) vs

-- `for (let i = 0; i < count; i++) args.push(…)`
unfoldable pub pad : ℕ → List (Option JsString) → List JsString → List JsString
pad zero vs ds = []
pad (suc n) (v ∷ vs) (d ∷ ds) = or_else v d ∷ pad n vs ds
pad (suc n) _ _ = []

abbrev pub defaults : List JsString
defaults = codes "vec:" ∷ codes "cosine" ∷ codes "0" ∷ codes "auto" ∷ codes "168" ∷ []

-- Namespace, metric, decay, mode, decay_tau_hours; numbers come as their text.
unfoldable pub vsearch_args : JsString → JsString → List (Option JsString) → List JsString
vsearch_args query_key top_k values =
    query_key ∷ top_k ∷ pad (count_given 0 0 values) values defaults
