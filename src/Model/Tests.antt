-- ===== src/Model/Tests.antt =====
-- The theorem on the detokenizer at a character that two tokens share.
mod Maps
use mlxd.Base.{◌≡◌, refl, true, some, [], ◌∷◌, ◌++◌}
use mlxd.Model.Detok.{Detok, detok_feed, detok_flush}
use mlxd.Model.Detok.Laws.{Feed, texts, feed_all, feed_all_conserves}

abbrev half : Detok
half = record { buf = 226 ∷ []; cap = 64 }

abbrev rest : Feed
rest = record { text = 130 ∷ []; grow = true; alloc = true }

abbrev last : Feed
last = record { text = 172 ∷ 33 ∷ []; grow = true; alloc = true }

two_feeds : feed_all half (rest ∷ last ∷ []) true ≡ some (226 ∷ 130 ∷ 172 ∷ 33 ∷ [])
unfolding feed_all detok_feed detok_flush
two_feeds = refl

feed_all_conserves_example : 226 ∷ 130 ∷ 172 ∷ 33 ∷ [] ≡ half.buf ++ texts (rest ∷ last ∷ [])
feed_all_conserves_example =
    feed_all_conserves half (rest ∷ last ∷ []) true (226 ∷ 130 ∷ 172 ∷ 33 ∷ []) two_feeds
