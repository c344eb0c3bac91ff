-- ===== src/Sse/Tests.antt =====
-- Two frames, one of them without an event's name.
use vai_gateway.Prelude.{◌≡◌, refl, some, [], ◌∷◌}
use vai_gateway.Sse.{Frame, lines, read_frames, send_all}
use vai_gateway.Sse.Roundtrip.{has_line_feed, ends_in_cr, IsSendable, read_frames-send_all}

abbrev named : Frame
named = record { event = 112 ∷ []; payload = 58 ∷ 32 ∷ [] }

abbrev unnamed : Frame
unnamed = record { event = []; payload = [] }

named-IsSendable : IsSendable named
unfolding has_line_feed ends_in_cr
named-IsSendable = ((refl, refl), (refl, refl))

unnamed-IsSendable : IsSendable unnamed
unfolding has_line_feed ends_in_cr
unnamed-IsSendable = ((refl, refl), (refl, refl))

read_frames-send_all_example :
    read_frames 3 (lines (send_all (named ∷ unnamed ∷ []))) ≡ some (named ∷ unnamed ∷ [])
read_frames-send_all_example =
    read_frames-send_all (named ∷ unnamed ∷ []) (named-IsSendable, (unnamed-IsSendable, tt))
