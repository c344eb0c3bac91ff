-- ===== src/Sse/Roundtrip.antt =====
-- The parser of the client reads the frames that the writer of the gateway has sent.
use vai_gateway.Prelude.{
  ℕ, suc, ◌≡◌, refl, ap, ◌∙◌, Bool, false, ◌||◌, none, some, List, [], ◌∷◌, ◌++◌, ◌==◌,
  numbers_comparable, length, All, append_assoc, arith, Bool-cases, inl, inr,
}
use vai_gateway.Sse.{
  Bytes, Frame, first_longer, lines, trim_cr, cut_colon, without_space, split_field, same_bytes,
  join, is_nil_list, Partial, no_frame, has_frame_content, result, with_field, with_line, next,
  read_frames, event_line, data_line, send, send_all,
}

unfoldable pub has_line_feed : Bytes → Bool
has_line_feed [] = false
has_line_feed (b ∷ bs) = b == 10 || has_line_feed bs

unfoldable pub ends_in_cr : Bytes → Bool
ends_in_cr [] = false
ends_in_cr (b ∷ []) = b == 13
ends_in_cr (b ∷ c ∷ bs) = ends_in_cr (c ∷ bs)

-- A text of one line, which marshalled JSON is.
abbrev pub IsLine : Bytes → Type 0
IsLine x = (has_line_feed x ≡ false) × (ends_in_cr x ≡ false)

abbrev pub IsSendable : Frame → Type 0
IsSendable f = IsLine f.event × IsLine f.payload

lines-line : (x rest : Bytes) → has_line_feed x ≡ false → lines (x ++ 10 ∷ rest) ≡ x ∷ lines rest
unfolding lines has_line_feed first_longer
lines-line [] rest h = refl
lines-line (b ∷ bs) rest h = elim (Bool-cases (b == 10)) [
  | inl feed ↦ absurd (ground (arith, h, feed))
  | inr other ↦ rw (other, lines, lines-line bs rest (ground (arith, h, other)), first_longer) refl
]

trim_cr-line : (x : Bytes) → ends_in_cr x ≡ false → trim_cr x ≡ x
unfolding trim_cr ends_in_cr
trim_cr-line [] h = refl
trim_cr-line (b ∷ []) h = rw (h, trim_cr) refl
trim_cr-line (b ∷ c ∷ bs) h = ap (λ l. b ∷ l) (trim_cr-line (c ∷ bs) h)

ends_in_cr-after : (x : Bytes) → ends_in_cr x ≡ false → ends_in_cr (32 ∷ x) ≡ false
unfolding ends_in_cr
ends_in_cr-after [] h = refl
ends_in_cr-after (b ∷ bs) h = h

send-append :
    (f : Frame) (rest : Bytes)
    → send f ++ rest ≡ event_line f ++ 10 ∷ (data_line f ++ 10 ∷ 10 ∷ rest)
unfolding send
send-append f rest =
    append_assoc (event_line f) (10 ∷ (data_line f ++ 10 ∷ 10 ∷ [])) rest
    ∙ ap (λ t. event_line f ++ 10 ∷ t) (append_assoc (data_line f) (10 ∷ 10 ∷ []) rest)

lines-send :
    (f : Frame) (rest : Bytes)
    → IsSendable f
    → lines (send f ++ rest) ≡ event_line f ∷ data_line f ∷ [] ∷ lines rest
unfolding send lines has_line_feed
lines-send f rest h =
    ap lines (send-append f rest)
    ∙ lines-line (event_line f) (data_line f ++ 10 ∷ 10 ∷ rest) h.0.0
    ∙ ap (λ ls. event_line f ∷ ls) (lines-line (data_line f) (10 ∷ rest) h.1.0)

event-line : (f : Frame) → with_line no_frame (event_line f) ≡ record no_frame { event = f.event }
unfolding with_line with_field split_field cut_colon without_space same_bytes
event-line f = refl

data-line :
    (f : Frame) (p : Partial)
    → with_line p (data_line f) ≡ record p { data_lines = p.data_lines ++ f.payload ∷ [] }
unfolding with_line with_field split_field cut_colon without_space same_bytes
data-line f p = refl

trim_cr-event : (f : Frame) → IsSendable f → trim_cr (event_line f) ≡ event_line f
unfolding ends_in_cr
trim_cr-event f h = trim_cr-line (event_line f) (ends_in_cr-after f.event h.0.1)

trim_cr-data : (f : Frame) → IsSendable f → trim_cr (data_line f) ≡ data_line f
unfolding ends_in_cr
trim_cr-data f h = trim_cr-line (data_line f) (ends_in_cr-after f.payload h.1.1)

next-line :
    (p : Partial) (l m : Bytes) (ls : List Bytes)
    → trim_cr l ≡ l
    → is_nil_list l ≡ false
    → next p (l ∷ m ∷ ls) ≡ next (with_line p l) (m ∷ ls)
unfolding next is_nil_list
next-line p l m ls kept full = rw (next, kept, full) refl

next-end :
    (p : Partial) (x : Bytes) (ls : List Bytes)
    → p.data_lines ≡ x ∷ []
    → next p ([] ∷ ls) ≡ (some (record { event = p.event; payload = x }), ls)
unfolding next trim_cr has_frame_content is_nil_list result join
next-end p x ls one = elim (Bool-cases (is_nil_list p.event)) [
  | inl nil ↦ rw (next, one, nil) refl
  | inr event ↦ rw (next, one, event) refl
]

-- A frame that is sent is the next one that is read, and what follows it is left, if neither its
-- event nor its payload has a line feed in it or a carriage return at its end.
next-send :
    (f : Frame) (rest : Bytes)
    → IsSendable f
    → next no_frame (lines (send f ++ rest)) ≡ (some f, lines rest)
unfolding is_nil_list
next-send f rest h =
    rw
      (
        lines-send f rest h,
        next-line no_frame (event_line f) (data_line f) ([] ∷ lines rest) (trim_cr-event f h) refl,
        event-line f,
        next-line (record no_frame { event = f.event }) (data_line f) [] (lines rest)
            (trim_cr-data f h) refl,
        data-line f (record no_frame { event = f.event }),
      )
      (next-end (record { event = f.event; data_lines = f.payload ∷ [] }) f.payload (lines rest)
        refl)

next-nothing : next no_frame (lines []) ≡ (none, [])
unfolding next lines trim_cr with_line has_frame_content is_nil_list result
next-nothing = refl

read_frames-found :
    (n : ℕ) (ls rest : List Bytes) (f : Frame) (fs : List Frame)
    → next no_frame ls ≡ (some f, rest)
    → read_frames n rest ≡ some fs
    → read_frames (suc n) ls ≡ some (f ∷ fs)
unfolding read_frames
read_frames-found n ls rest f fs e h = rw (read_frames, ap (λ r. r.0) e, ap (λ r. r.1) e, h) refl

-- The frames that a gateway sends one after another are those that a client reads until the end of
-- the stream, by one call of Next for each and one more, if no event and no payload has a line feed
-- in it or a carriage return at its end.
pub read_frames-send_all :
    (fs : List Frame)
    → All IsSendable fs
    → read_frames (suc (length fs)) (lines (send_all fs)) ≡ some fs
unfolding read_frames send_all
read_frames-send_all [] h = rw (next-nothing, read_frames) refl
read_frames-send_all (f ∷ fs) h =
    read_frames-found (suc (length fs)) (lines (send f ++ send_all fs)) (lines (send_all fs)) f fs
      (next-send f (send_all fs) h.0) (read_frames-send_all fs h.1)
