-- ===== src/Tests/Streams.antt =====
-- intnet/ and the search of media at concrete inputs.
use fenice_1_12_with_h.Prelude.{
  ℕ, ◌≡◌, ◌⊎◌, refl, false, List, [], ◌∷◌, some, arith, ◌==◌, if◌then◌else◌,
}
use fenice_1_12_with_h.Intnet.Catalog.{Media, matches, search_media, Bytes}
use fenice_1_12_with_h.Intnet.Reached.{OneEnd, stream_change-keeps}
use fenice_1_12_with_h.Intnet.Switch.{Moved, Exhausted, Down, downgrade_mp3_lem}
use fenice_1_12_with_h.Intnet.{
  World, current, empty_request, mpa, mp3_down, downgrade_mp3, priority_decrease, by_bitrate,
  stream_change, halve,
}

-- Three media of an encoding; the session plays the middle one, from its copy at address 9.
abbrev three : Bytes → ℕ → ℕ → ℕ → ℕ → Media
three name low mid high i = record empty_request {
  encoding_name = name;
  bitrate = if i == 1 then low else if i == 3 then high else mid;
  priority = if i == 1 then 3 else if i == 3 then 1 else 2;
}

abbrev world : Bytes → ℕ → ℕ → ℕ → World
world name low mid high = record {
  media = three name low mid high;
  session = record {
    current_media = 9;
    minimum_reached = false;
    maximum_reached = false;
    previous_count = 0;
    rr_received = 1;
    fract_lost = 20;
    jitter = 0;
  };
  closed = [];
}

abbrev programme : List ℕ
programme = 3 ∷ 2 ∷ 1 ∷ []

abbrev songs : World
songs = world mpa 64000 128000 256000

found_low : search_media songs.media (by_bitrate mpa 64000) programme ≡ some 1
unfolding search_media matches
found_low = refl

stream_change-keeps_example :
    ((current (stream_change programme songs halve).1).pkt_buffer ≡ 0)
    × (OneEnd songs → OneEnd (stream_change programme songs halve).1)
stream_change-keeps_example = stream_change-keeps programme songs halve

downgrade_mp3_lem_example :
    Moved Down mp3_down programme mpa songs (downgrade_mp3 programme songs)
    ⊎ Exhausted Down mp3_down programme mpa songs
        (downgrade_mp3 programme songs)
        (priority_decrease programme songs)
downgrade_mp3_lem_example = downgrade_mp3_lem programme songs (ground arith)
