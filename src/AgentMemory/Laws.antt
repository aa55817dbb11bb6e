-- ===== src/AgentMemory/Laws.antt =====
-- The positional options of MemClient, examples/agent-memory/client/mem.ts, as the server reads them.
use wormdb.Base.{
  Bool, ◌≡◌, refl, inl, inr, true, false, [], none, some, ◌⊎◌, Option, JsString, get_elem?, subst,
  map, ap, sym,
}
use wormdb.AgentMemory.{
  AddOptions, QueryOptions, AddRead, add_slots, read_rest, mem_add, query_slots, meta_slot,
  filter_text, add_args, slot, vector_only_args, worm_slot, embedder_slot, or_blank,
}
use wormdb.Wire.Command.{Arg, text}
use wormdb.Wire.Bytes.{Bytes}
use wormdb.Text.{codes, encode_utf8, encode_scalars, to_scalars, lone, utf8_bytes}
use wormdb.Wire.Encode.{arg_bytes}
use wormdb.AgentMemory.Filter.{FilterSent, as_arg, filter_text-FilterSent}
use wormdb.Managed.Subscribe.{same_text}

abbrev pub or_true : Option Bool → Bool
or_true none = true
or_true (some w) = w

abbrev pub bytes_of : Option JsString → Option Bytes
bytes_of none = none
bytes_of (some s) = some (encode_utf8 s)

-- What `add` means by its arguments: a document is immutable unless `worm` is false.
abbrev pub meant : JsString → JsString → JsString → Bytes → AddOptions → AddRead
meant ns doc_id body embedding o = record {
  read_ns = encode_utf8 ns;
  read_doc_id = encode_utf8 doc_id;
  read_text = encode_utf8 body;
  read_embedding = embedding;
  read_meta = encode_utf8 (or_blank o.meta);
  is_worm = or_true o.worm;
  read_embedder = bytes_of o.embedder_id;
}

read_rest-add_slots :
    (ns doc_id body embedding : Bytes) (m : Option JsString) (w : Option Bool) (e : Option JsString)
    → read_rest ns doc_id body embedding
        (map arg_bytes (add_slots (record { meta = m; worm = w; embedder_id = e })))
      ≡ record {
        read_ns = ns;
        read_doc_id = doc_id;
        read_text = body;
        read_embedding = embedding;
        read_meta = encode_utf8 (or_blank m);
        is_worm = or_true w;
        read_embedder = bytes_of e;
      }
unfolding read_rest add_slots meta_slot worm_slot embedder_slot arg_bytes encode_utf8 encode_scalars
    to_scalars same_text lone utf8_bytes
read_rest-add_slots ns d b v none none none = refl
read_rest-add_slots ns d b v none none (some e) = refl
read_rest-add_slots ns d b v none (some true) none = refl
read_rest-add_slots ns d b v none (some true) (some e) = refl
read_rest-add_slots ns d b v none (some false) none = refl
read_rest-add_slots ns d b v none (some false) (some e) = refl
read_rest-add_slots ns d b v (some m) none none = refl
read_rest-add_slots ns d b v (some m) none (some e) = refl
read_rest-add_slots ns d b v (some m) (some true) none = refl
read_rest-add_slots ns d b v (some m) (some true) (some e) = refl
read_rest-add_slots ns d b v (some m) (some false) none = refl
read_rest-add_slots ns d b v (some m) (some false) (some e) = refl

-- The server reads out of the arguments of `add` what was meant: each option that is given at its
-- place, and no metadata, an immutable document and no embedder where they are not. Of
-- `addVectorOnly` it does the same, in a namespace of vectors only.
pub mem_add-add_args :
    (ns doc_id body : JsString) (embedding : Bytes) (o : AddOptions)
    → (mem_add false (map arg_bytes (add_args ns doc_id body embedding o))
        ≡ some (meant ns doc_id body embedding o))
      × (mem_add true (map arg_bytes (vector_only_args ns doc_id embedding o))
          ≡ some (meant ns doc_id [] embedding o))
unfolding mem_add add_args vector_only_args arg_bytes encode_utf8 encode_scalars to_scalars
mem_add-add_args ns doc_id body embedding o = (
  ap some (
      read_rest-add_slots (encode_utf8 ns) (encode_utf8 doc_id) (encode_utf8 body) embedding o.meta
        o.worm o.embedder_id),
  ap some (
      read_rest-add_slots (encode_utf8 ns) (encode_utf8 doc_id) [] embedding o.meta o.worm
        o.embedder_id),
)

-- An option that is given is at its place, and at the place of another is nothing, or the placeholder.
abbrev pub Seen : JsString → Option JsString → Option Arg → Type 0
Seen placeholder (some v) s = s ≡ some (text v)
Seen placeholder none s = (s ≡ none) ⊎ (s ≡ some (text placeholder))

slots-Seen :
    (l m n f : Option JsString) (g : Option JsString)
    → let slots =
        query_slots (record { lambda_text = l; min_score = m; snippet_chars = n; filter = g }) f in
      Seen (codes "0") l (get_elem? slots 0)
      × Seen [] m (get_elem? slots 1)
      × Seen [] n (get_elem? slots 2)
      × (get_elem? slots 3 ≡ as_arg f)
      × (get_elem? slots 4 ≡ none)
unfolding query_slots slot
slots-Seen none none none none g = (inl refl, inl refl, inl refl, refl, refl)
slots-Seen (some l) none none none g = (refl, inl refl, inl refl, refl, refl)
slots-Seen none (some m) none none g = (inr refl, refl, inl refl, refl, refl)
slots-Seen (some l) (some m) none none g = (refl, refl, inl refl, refl, refl)
slots-Seen none none (some n) none g = (inr refl, inr refl, refl, refl, refl)
slots-Seen (some l) none (some n) none g = (refl, inr refl, refl, refl, refl)
slots-Seen none (some m) (some n) none g = (inr refl, refl, refl, refl, refl)
slots-Seen (some l) (some m) (some n) none g = (refl, refl, refl, refl, refl)
slots-Seen none none none (some f) g = (inr refl, inr refl, inr refl, refl, refl)
slots-Seen (some l) none none (some f) g = (refl, inr refl, inr refl, refl, refl)
slots-Seen none (some m) none (some f) g = (inr refl, refl, inr refl, refl, refl)
slots-Seen (some l) (some m) none (some f) g = (refl, refl, inr refl, refl, refl)
slots-Seen none none (some n) (some f) g = (inr refl, inr refl, refl, refl, refl)
slots-Seen (some l) none (some n) (some f) g = (refl, inr refl, refl, refl, refl)
slots-Seen none (some m) (some n) (some f) g = (inr refl, refl, refl, refl, refl)
slots-Seen (some l) (some m) (some n) (some f) g = (refl, refl, refl, refl, refl)

-- Among the options of `query`, each that is given is sent at its place: the factor of decay first,
-- then the least score and the length of snippets; at the place of one that is not given is nothing
-- or what stands for its default. Then comes the filter: nothing of one that is not given or blank,
-- or else what is between its white space, behind `filter=` if it does not begin with that in small
-- or capital letters. Nothing is behind the filter.
pub query_slots-Seen :
    (o : QueryOptions)
    → let slots = query_slots o (filter_text o.filter) in
      Seen (codes "0") o.lambda_text (get_elem? slots 0)
      × Seen [] o.min_score (get_elem? slots 1)
      × Seen [] o.snippet_chars (get_elem? slots 2)
      × FilterSent o.filter (get_elem? slots 3)
      × (get_elem? slots 4 ≡ none)
query_slots-Seen o =
    let (l, m, n, f, z) =
      slots-Seen o.lambda_text o.min_score o.snippet_chars (filter_text o.filter) o.filter in
    (l, m, n, subst (FilterSent o.filter) (sym f) (filter_text-FilterSent o.filter), z)
