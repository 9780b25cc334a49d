-- ===== src/Core/Tests.antt =====
-- The theorem on the text of parts at concrete ones.
use mlxd.Base.{◌+◌, ◌≡◌, refl, none, some, List, [], ◌∷◌, length, codes}
use mlxd.Core.Content.{Part, message_content_text, joined, text_bytes, message_content_text_lem}

abbrev three_parts : List Part
three_parts =
    record { kind = some (codes "text"); text = some (codes "a ") }
    ∷ record { kind = some (codes "image_url"); text = none }
    ∷ record { kind = some (codes "text"); text = some (codes "b") }
    ∷ []

message_content_text_lem_example :
    (codes "a b" ≡ joined three_parts) × (length (codes "a b") + 1 ≡ text_bytes three_parts)
unfolding message_content_text
message_content_text_lem_example = message_content_text_lem three_parts (codes "a b") refl
