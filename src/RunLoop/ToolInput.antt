-- ===== src/RunLoop/ToolInput.antt =====
-- How the accumulator gathers the input of a use of a tool out of its fragments.
use package.text.Mathlib.TextLemmas.{nil-append, append-nil, append_assoc}
use vai_gateway.Prelude.{
  ℕ, String, ◌<>◌, ◌≡◌, ◌≢◌, refl, false, Option, none, some, List, [], ◌∷◌, ◌==◌, get_elem?,
  get_elem?-set, arith, numbers_comparable, get_elem?-some-lt, Option-cases, inl, inr, ap, ◌∙◌,
  eq_iff, texts_comparable, if◌then◌else◌, All,
}
use vai_gateway.Prelude.Assoc.{lookup, lookup-insert, lookup-remove}
use vai_gateway.Types.{Json, ContentBlock, tool_use}
use vai_gateway.RunLoop.Accumulator.{
  Delta, text_delta, thinking_delta, input_json_delta, unknown_delta, StreamEvent, message_start,
  content_block_start, content_block_delta, content_block_stop, message_delta, message_stop, ping,
  unknown_event, StreamAccumulator, ensure_content_index, extend_block, extend_at, apply_delta,
  buffered, buffer_delta, with_input, set_input, store_input, apply_buffered, apply_tool_input,
  apply, apply_all,
}
use vai_gateway.RunLoop.Assembly.{get-ensure}

-- The fragment of input that an event adds to the block `i`.
unfoldable pub json_added : ℕ → StreamEvent → String
json_added i (content_block_delta j (input_json_delta d)) = if j == i then d else ""
json_added i ev = ""

unfoldable pub jsons_added : ℕ → List StreamEvent → String
jsons_added i [] = ""
jsons_added i (ev ∷ evs) = json_added i ev <> jsons_added i evs

-- The event neither begins the block `i` nor ends it.
abbrev pub Within : ℕ → StreamEvent → Type 0
Within i (content_block_start j b) = j ≢ i
Within i (content_block_stop j) = j ≢ i
Within i ev = Unit

-- The block `i` is a use of a tool, and `s` is what has come of its input.
record Gathers (i : ℕ) (id name s : String) (old : Json) (a : StreamAccumulator) : Type 0 where
  block : get_elem? a.current_content i ≡ some (tool_use id name old)
  fragments : buffered i a.tool_input_buffers ≡ s

buffer_delta-buffered :
    (d : Delta) (j i : ℕ) (m : List (ℕ × String))
    → buffered i (buffer_delta j d m) ≡ buffered i m <> json_added i (content_block_delta j d)
unfolding buffer_delta json_added
buffer_delta-buffered (input_json_delta d) j i m =
    ground (arith, lookup-insert j i (buffered j m <> d) m, append-nil (buffered i m))
buffer_delta-buffered (text_delta d) j i m = rw append-nil
buffer_delta-buffered (thinking_delta d) j i m = rw append-nil
buffer_delta-buffered (unknown_delta d) j i m = rw append-nil

extend_at-tool_use :
    (d : Delta) (j i : ℕ) (bs : List ContentBlock) (id name : String) (old : Json)
    (o : Option ContentBlock)
    → get_elem? bs i ≡ some (tool_use id name old)
    → get_elem? bs j ≡ o
    → get_elem? (extend_at d j o bs) i ≡ some (tool_use id name old)
unfolding extend_at extend_block
extend_at-tool_use d j i bs id name old none e f = e
extend_at-tool_use (text_delta d) j i bs id name old (some b) e f =
    ground (arith, get_elem?-set bs j i (extend_block (text_delta d) b))
extend_at-tool_use (thinking_delta d) j i bs id name old (some b) e f =
    ground (arith, get_elem?-set bs j i (extend_block (thinking_delta d) b))
extend_at-tool_use (input_json_delta d) j i bs id name old (some b) e f =
    ground (arith, get_elem?-set bs j i (extend_block (input_json_delta d) b))
extend_at-tool_use (unknown_delta d) j i bs id name old (some b) e f =
    ground (arith, get_elem?-set bs j i (extend_block (unknown_delta d) b))

module _ (parse_object : String → Option Json) (i : ℕ) (id name : String) (old : Json) where
  -- The input of another block leaves this one alone.
  set_input-ne :
      (j : ℕ) (parsed : Option Json) (o : Option ContentBlock) (bs : List ContentBlock)
      → j ≢ i
      → get_elem? (set_input parse_object j parsed o bs) i ≡ get_elem? bs i
  unfolding set_input
  set_input-ne j (some input) (some b) bs other =
      ground (arith, get_elem?-set bs j i (with_input input b))
  set_input-ne j none o bs other = refl
  set_input-ne j (some input) none bs other = refl

  Gathers-buffered :
      (j : ℕ) (o : Option String) (a : StreamAccumulator) (s : String)
      → j ≢ i
      → Gathers i id name s old a
      → Gathers i id name s old (apply_buffered parse_object j o a)
  unfolding apply_buffered store_input buffered
  Gathers-buffered j none a s other g = g
  Gathers-buffered j (some raw) a s other g = record {
    block = ground (
      arith,
      g.block,
      set_input-ne j (parse_object raw) (get_elem? a.current_content j) a.current_content other,
    );
    fragments = ground (arith, g.fragments, lookup-remove j i a.tool_input_buffers);
  }

  Gathers-apply :
      (a : StreamAccumulator) (ev : StreamEvent) (s : String)
      → Within i ev
      → Gathers i id name s old a
      → Gathers i id name (s <> json_added i ev) old (apply parse_object a ev)
  unfolding apply apply_delta apply_tool_input json_added
  Gathers-apply a (content_block_start j b) s other g =
      let kept = get-ensure j i a.current_content (tool_use id name old) g.block in
      rw (append-nil s) (record {
        block =
            ground (arith, kept, get_elem?-set (ensure_content_index j a.current_content) j i b);
        fragments = g.fragments;
      })
  Gathers-apply a (content_block_delta j d) s other g = record {
    block =
        extend_at-tool_use d j i (ensure_content_index j a.current_content) id name old _
          (get-ensure j i a.current_content (tool_use id name old) g.block) refl;
    fragments =
        buffer_delta-buffered d j i a.tool_input_buffers
        ∙ ap (λ t. t <> json_added i (content_block_delta j d)) g.fragments;
  }
  Gathers-apply a (content_block_stop j) s other g =
      rw (append-nil s) (Gathers-buffered j _ a s other g)
  Gathers-apply a (message_start m) s other g =
      rw (append-nil s) (record { block = g.block; fragments = g.fragments })
  Gathers-apply a (message_delta r u) s other g =
      rw (append-nil s) (record { block = g.block; fragments = g.fragments })
  Gathers-apply a message_stop s other g = rw (append-nil s) g
  Gathers-apply a ping s other g = rw (append-nil s) g
  Gathers-apply a (unknown_event x) s other g = rw (append-nil s) g

  Gathers-apply_all :
      (a : StreamAccumulator) (evs : List StreamEvent) (s : String)
      → All (Within i) evs
      → Gathers i id name s old a
      → Gathers i id name (s <> jsons_added i evs) old (apply_all parse_object a evs)
  unfolding apply_all jsons_added
  Gathers-apply_all a [] s other g = rw (append-nil s) g
  Gathers-apply_all a (ev ∷ evs) s other g =
      rw (← append_assoc)
        (Gathers-apply_all (apply parse_object a ev) evs _ other.1 (Gathers-apply a ev s other.0 g))

  -- The end of the block: what has come of the input is parsed and set.
  apply-stop :
      (a : StreamAccumulator) (s : String) (input : Json)
      → Gathers i id name s old a
      → (s == "") ≡ false
      → parse_object s ≡ some input
      → get_elem? (apply parse_object a (content_block_stop i)).current_content i
        ≡ some (tool_use id name input)
  unfolding apply apply_tool_input apply_buffered store_input set_input buffered with_input
  apply-stop a s input g filled parsed = elim (Option-cases (lookup i a.tool_input_buffers)) [
    | inl missing ↦ ground (arith, g.fragments, eq_iff s "")
    | inr (raw, found) ↦ ground (
      arith,
      g.fragments,
      g.block,
      get_elem?-some-lt a.current_content i (tool_use id name old) g.block,
      get_elem?-set a.current_content i i (tool_use id name input),
    )
  ]

  -- However the deltas of the blocks are interleaved, when a use of a tool ends its input is what
  -- its fragments make when they are joined in their order and parsed, if they are not all empty
  -- and parse; its id and name are those that it began with.
  pub apply-tool_use :
      (a : StreamAccumulator) (evs : List StreamEvent) (input : Json)
      → All (Within i) evs
      → get_elem? a.current_content i ≡ some (tool_use id name old)
      → buffered i a.tool_input_buffers ≡ ""
      → (jsons_added i evs == "") ≡ false
      → parse_object (jsons_added i evs) ≡ some input
      → get_elem?
          (apply parse_object (apply_all parse_object a evs) (content_block_stop i)).current_content
          i
        ≡ some (tool_use id name input)
  apply-tool_use a evs input other began empty filled parsed =
      apply-stop (apply_all parse_object a evs) (jsons_added i evs) input
        (rw (nil-append (jsons_added i evs)) at
          (Gathers-apply_all a evs "" other (record { block = began; fragments = empty })))
        filled parsed
