-- ===== src/AgentMemory/Tests.antt =====
-- MemClient at concrete options.
use wormdb.Base.{◌≡◌, refl, true, false, [], ◌∷◌, none, some, map, get_elem?}
use wormdb.AgentMemory.{
  AddOptions, QueryOptions, filter_text, query_slots, mem_add, add_args, matches_letters,
  vector_only_args, prefixed,
}
use wormdb.Text.{codes}
use wormdb.AgentMemory.Filter.{FilterSent}
use wormdb.AgentMemory.Laws.{Seen, meant, query_slots-Seen, mem_add-add_args}
use wormdb.TextProtocol.{trimmed, trim_start, trim_end, kept_end, is_space}
use wormdb.Wire.Encode.{arg_bytes}

-- Only the embedder is given.
abbrev only_embedder : AddOptions
only_embedder = record { meta = none; worm = none; embedder_id = some (codes "e") }

mem_add-add_args_example :
    (mem_add false
        (map arg_bytes (add_args (codes "n") (codes "d") (codes "t") (1 ∷ []) only_embedder))
      ≡ some (meant (codes "n") (codes "d") (codes "t") (1 ∷ []) only_embedder))
    × (mem_add true
          (map arg_bytes (vector_only_args (codes "n") (codes "d") (1 ∷ []) only_embedder))
        ≡ some (meant (codes "n") (codes "d") [] (1 ∷ []) only_embedder))
mem_add-add_args_example =
    mem_add-add_args (codes "n") (codes "d") (codes "t") (1 ∷ []) only_embedder

-- Only the filter is given, without its prefix.
abbrev only_filter : QueryOptions
only_filter = record {
  lambda_text = none;
  min_score = none;
  snippet_chars = none;
  filter = some (codes " a=1 ");
}

query_slots-Seen_example :
    let slots = query_slots only_filter (filter_text only_filter.filter) in
    Seen (codes "0") only_filter.lambda_text (get_elem? slots 0)
    × Seen [] only_filter.min_score (get_elem? slots 1)
    × Seen [] only_filter.snippet_chars (get_elem? slots 2)
    × FilterSent only_filter.filter (get_elem? slots 3)
    × (get_elem? slots 4 ≡ none)
query_slots-Seen_example = query_slots-Seen only_filter

filter_sent : filter_text only_filter.filter ≡ some (codes "filter=a=1")
unfolding filter_text trimmed trim_start trim_end kept_end is_space prefixed matches_letters
filter_sent = refl
