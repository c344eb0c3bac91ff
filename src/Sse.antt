-- ===== src/Sse.antt =====
-- pkg/core/sseframe/parser.go and pkg/gateway/sse/sse.go: the frames of a stream of server-sent
-- events. A text is the list of its bytes. A stream is read to its end without an error of the
-- reader, and is written without one of the writer.
pub mod Roundtrip
mod Tests
use vai_gateway.Prelude.{
  ℕ, suc, zero, Bool, true, false, ◌&&◌, ◌||◌, not, Option, none, some, List, [], ◌∷◌, ◌++◌, ◌==◌,
  numbers_comparable, if◌then◌else◌,
}

abbrev pub Bytes : Type 0
Bytes = List ℕ

pub record Frame : Type 0 where
  pub event : Bytes
  pub payload : Bytes

-- The lines that ReadString gives until the end of the stream, without their line feeds. The last
-- one is that of the end.
unfoldable pub first_longer : ℕ → List Bytes → List Bytes
first_longer b [] = (b ∷ []) ∷ []
first_longer b (l ∷ ls) = (b ∷ l) ∷ ls

unfoldable pub lines : Bytes → List Bytes
lines [] = [] ∷ []
lines (b ∷ bs) = let rest = lines bs in if b == 10 then [] ∷ rest else first_longer b rest

-- The line without a carriage return at its end.
unfoldable pub trim_cr : Bytes → Bytes
trim_cr [] = []
trim_cr (b ∷ []) = if b == 13 then [] else b ∷ []
trim_cr (b ∷ c ∷ bs) = b ∷ trim_cr (c ∷ bs)

-- The text before the first colon and the one after it; all of the text if there is none.
unfoldable pub cut_colon : Bytes → Bytes × Bytes
cut_colon [] = ([], [])
cut_colon (b ∷ bs) =
    let (field, value) = cut_colon bs in if b == 58 then ([], bs) else (b ∷ field, value)

unfoldable pub without_space : Bytes → Bytes
without_space [] = []
without_space (b ∷ bs) = if b == 32 then bs else b ∷ bs

unfoldable pub split_field : Bytes → Bytes × Bytes
split_field line = let (field, value) = cut_colon line in (field, without_space value)

unfoldable pub same_bytes : Bytes → Bytes → Bool
same_bytes [] [] = true
same_bytes (a ∷ as_) (b ∷ bs) = a == b && same_bytes as_ bs
same_bytes _ _ = false

unfoldable pub join : List Bytes → Bytes
join [] = []
join (l ∷ []) = l
join (l ∷ m ∷ ls) = l ++ 10 ∷ join (m ∷ ls)

abbrev pub event_name : Bytes
event_name = 101 ∷ 118 ∷ 101 ∷ 110 ∷ 116 ∷ []

abbrev pub data_name : Bytes
data_name = 100 ∷ 97 ∷ 116 ∷ 97 ∷ []

unfoldable pub is_nil_list {ℓ} : {A : Type ℓ} → List A → Bool
is_nil_list [] = true
is_nil_list (x ∷ xs) = false

-- What Next has read of a frame.
pub record Partial : Type 0 where
  pub event : Bytes
  pub data_lines : List Bytes

abbrev pub no_frame : Partial
no_frame = record { event = []; data_lines = [] }

unfoldable pub has_frame_content : Partial → Bool
has_frame_content p = not (is_nil_list p.event) || not (is_nil_list p.data_lines)

-- The frame, or the end of the stream.
unfoldable pub result : Partial → Option Frame
result p =
    if has_frame_content p
    then some (record { event = p.event; payload = join p.data_lines })
    else none

unfoldable pub with_field : Partial → Bytes × Bytes → Partial
with_field p (field, value) =
    if same_bytes field event_name
    then record p { event = value }
    else if same_bytes field data_name
    then record p { data_lines = p.data_lines ++ value ∷ [] }
    else p

-- A line that is neither empty nor a comment.
unfoldable pub with_line : Partial → Bytes → Partial
with_line p [] = p
with_line p (b ∷ bs) = if b == 58 then p else with_field p (split_field (b ∷ bs))

-- Next, on the lines that are left: the frame, or `none` at the end, and what is left then.
unfoldable pub next : Partial → List Bytes → Option Frame × List Bytes
next p [] = (result p, [])
next p (l ∷ ls) =
    let line = trim_cr l in
    let rest = next (with_line p line) ls in
    if is_nil_list line && has_frame_content p
    then (result p, ls)
    else if is_nil_list ls
    then (result (with_line p line), [])
    else rest

-- The frames that a caller reads until the end, by at most so many calls of Next.
unfoldable pub read_frames : (fuel : ℕ) → List Bytes → Option (List Frame)
read_frames zero ls = none
read_frames (suc n) ls =
    let (found, rest) = next no_frame ls in
    let later = read_frames n rest in
    elim found [ none ↦ some [] | some f ↦ elim later [ none ↦ none | some fs ↦ some (f ∷ fs) ] ]

abbrev pub event_line : Frame → Bytes
event_line f = event_name ++ (58 ∷ 32 ∷ f.event)

abbrev pub data_line : Frame → Bytes
data_line f = data_name ++ (58 ∷ 32 ∷ f.payload)

-- What Send writes, for a payload that has been marshalled.
unfoldable pub send : Frame → Bytes
send f = event_line f ++ (10 ∷ (data_line f ++ (10 ∷ 10 ∷ [])))

unfoldable pub send_all : List Frame → Bytes
send_all [] = []
send_all (f ∷ fs) = send f ++ send_all fs
