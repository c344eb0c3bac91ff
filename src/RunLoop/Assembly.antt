-- ===== src/RunLoop/Assembly.antt =====
-- What the accumulator makes of a stream in which the blocks' deltas are interleaved.
use package.text.Mathlib.TextLemmas.{append-nil, append_assoc}
use vai_gateway.Prelude.{
  ℕ, zero, suc, String, ◌<>◌, ◌≡◌, ◌≢◌, refl, Option, none, some, List, [], ◌∷◌, ◌==◌, get_elem?,
  set, get_elem?-set, arith, numbers_comparable, if◌then◌else◌, All,
}
use vai_gateway.Prelude.Assoc.{lookup}
use vai_gateway.Types.{Json, ContentBlock, text}
use vai_gateway.RunLoop.Accumulator.{
  Delta, text_delta, thinking_delta, input_json_delta, unknown_delta, StreamEvent, message_start,
  content_block_start, content_block_delta, content_block_stop, message_delta, message_stop, ping,
  unknown_event, StreamAccumulator, ensure_content_index, extend_block, extend_at, apply_delta,
  with_input, set_input, store_input, apply_buffered, apply_tool_input, apply, apply_all,
}

pub get-ensure :
    (j i : ℕ) (bs : List ContentBlock) (b : ContentBlock)
    → get_elem? bs i ≡ some b
    → get_elem? (ensure_content_index j bs) i ≡ some b
unfolding ensure_content_index
get-ensure zero i [] b e = cc
get-ensure (suc j) i [] b e = cc
get-ensure zero i (x ∷ bs) b e = e
get-ensure (suc j) zero (x ∷ bs) b e = e
get-ensure (suc j) (suc i) (x ∷ bs) b e = get-ensure j i bs b e

-- The text that an event adds to the block `i`.
unfoldable pub text_added : ℕ → StreamEvent → String
text_added i (content_block_delta j (text_delta d)) = if j == i then d else ""
text_added i ev = ""

pub texts_added : ℕ → List StreamEvent → String
texts_added i [] = ""
texts_added i (ev ∷ evs) = text_added i ev <> texts_added i evs

-- The event does not begin the block `i` anew.
abbrev pub NoStart : ℕ → StreamEvent → Type 0
NoStart i (content_block_start j b) = j ≢ i
NoStart i ev = Unit

-- A text block that a delta for `j` leaves: longer if it is the block `j`.
extend-text :
    (d : Delta) (j i : ℕ) (bs : List ContentBlock) (t : String) (b : ContentBlock)
    → get_elem? bs i ≡ some (text t)
    → get_elem? bs j ≡ some b
    → get_elem? (set bs j (extend_block d b)) i
      ≡ some (text (t <> text_added i (content_block_delta j d)))
unfolding extend_block text_added
extend-text (text_delta d) j i bs t b e f =
    ground (arith, get_elem?-set bs j i (extend_block (text_delta d) b), append-nil t)
extend-text (thinking_delta d) j i bs t b e f =
    ground (arith, get_elem?-set bs j i (extend_block (thinking_delta d) b), append-nil t)
extend-text (input_json_delta d) j i bs t b e f =
    ground (arith, get_elem?-set bs j i (extend_block (input_json_delta d) b), append-nil t)
extend-text (unknown_delta d) j i bs t b e f =
    ground (arith, get_elem?-set bs j i (extend_block (unknown_delta d) b), append-nil t)

extend_at-text :
    (d : Delta) (j i : ℕ) (bs : List ContentBlock) (t : String) (o : Option ContentBlock)
    → get_elem? bs i ≡ some (text t)
    → get_elem? bs j ≡ o
    → get_elem? (extend_at d j o bs) i ≡ some (text (t <> text_added i (content_block_delta j d)))
unfolding extend_at text_added
extend_at-text (text_delta d) j i bs t none e f = ground (arith, append-nil t)
extend_at-text d j i bs t none e f = ground (arith, append-nil t)
extend_at-text d j i bs t (some b) e f = extend-text d j i bs t b e f

module _ (parse_object : String → Option Json) where
  set_input-text :
      (j i : ℕ) (parsed : Option Json) (o : Option ContentBlock) (bs : List ContentBlock)
      (t : String)
      → get_elem? bs i ≡ some (text t)
      → get_elem? bs j ≡ o
      → get_elem? (set_input parse_object j parsed o bs) i ≡ some (text t)
  unfolding set_input with_input
  set_input-text j i (some input) (some b) bs t e f =
      ground (arith, get_elem?-set bs j i (with_input input b))
  set_input-text j i none o bs t e f = e
  set_input-text j i (some input) none bs t e f = e

  input-text :
      (j i : ℕ) (o : Option String) (a : StreamAccumulator) (t : String)
      → get_elem? a.current_content i ≡ some (text t)
      → get_elem? (apply_buffered parse_object j o a).current_content i ≡ some (text t)
  unfolding apply_buffered store_input
  input-text j i none a t e = e
  input-text j i (some raw) a t e =
      ground (arith, set_input-text j i (parse_object raw) _ a.current_content t e refl)

  -- One event adds its text to a text block that it does not begin anew.
  apply-text :
      (i : ℕ) (a : StreamAccumulator) (ev : StreamEvent) (t : String)
      → NoStart i ev
      → get_elem? a.current_content i ≡ some (text t)
      → get_elem? (apply parse_object a ev).current_content i ≡ some (text (t <> text_added i ev))
  unfolding apply apply_delta apply_tool_input text_added
  apply-text i a (content_block_start j b) t other e =
      let kept = get-ensure j i a.current_content (text t) e in
      ground
        (arith, kept, get_elem?-set (ensure_content_index j a.current_content) j i b, append-nil t)
  apply-text i a (content_block_delta j d) t other e =
      extend_at-text d j i (ensure_content_index j a.current_content) t _
        (get-ensure j i a.current_content (text t) e) refl
  apply-text i a (content_block_stop j) t other e =
      rw (append-nil t) (input-text j i (lookup j a.tool_input_buffers) a t e)
  apply-text i a (message_start m) t other e = rw (append-nil t) e
  apply-text i a (message_delta r u) t other e = rw (append-nil t) e
  apply-text i a message_stop t other e = rw (append-nil t) e
  apply-text i a ping t other e = rw (append-nil t) e
  apply-text i a (unknown_event x) t other e = rw (append-nil t) e

  -- However the deltas of the blocks are interleaved, a text block that is not begun anew ends as
  -- the text that it had, followed by the text deltas of its own index in their order.
  pub apply_all-text :
      (i : ℕ) (a : StreamAccumulator) (evs : List StreamEvent) (t : String)
      → All (NoStart i) evs
      → get_elem? a.current_content i ≡ some (text t)
      → get_elem? (apply_all parse_object a evs).current_content i
        ≡ some (text (t <> texts_added i evs))
  unfolding apply_all texts_added
  apply_all-text i a [] t other e = rw (append-nil t) e
  apply_all-text i a (ev ∷ evs) t other e = rw (← append_assoc) (
      apply_all-text i (apply parse_object a ev) evs (t <> text_added i ev) other.1
        (apply-text i a ev t other.0 e))
