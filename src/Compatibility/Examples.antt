-- ===== src/Compatibility/Examples.antt =====
-- The theorems about the catalogue at a concrete table and answer.
use openpak_client.Shared.{
  ◌≡◌, ◌⊎◌, true, false, List, [], ◌∷◌, value_or, Bytes, codes, nat_eq, text_eq,
}
use openpak_client.Compatibility.{
  Shipped, ShippedPlay, State, parse, find_shipped, non_empty, find, catalogue_name, Title,
  statuses_of, names_of, refresh,
}
use openpak_client.Compatibility.Answers.{IsEntry, said, heard}
use openpak_client.Compatibility.Refreshing.{find-refresh}

abbrev table : List Shipped
table =
    record {
      title_id = 0x0100B0C013912000;
      name = codes "Among Us";
      backend = codes "own";
      status = codes "beta";
    }
    ∷ []

abbrev plays : List ShippedPlay
plays = record { title_id = 7; client = codes "Eden"; playability = codes "menus" } ∷ []

abbrev rows : List (Bytes × Bytes)
rows = (codes "0100B0C013912000", codes "Live") ∷ (codes "x", codes "beta") ∷ []

abbrev verdicts : List (Bytes × List (Bytes × Bytes))
verdicts =
    (
      codes "0000000000000007",
      (codes "eden", codes "playable") ∷ (codes "other", codes "boots") ∷ [],
    )
    ∷ []

abbrev start : State
start = record { live_statuses = []; live_play = []; names = []; names_loaded = false }

abbrev catalogue : List Title
catalogue =
    record {
      id = codes "0100B0C013912000";
      status = codes "Live";
      name = codes "Among Us";
      playability = [];
    }
    ∷ []

find-refresh_example :
    ((heard parse (statuses_of catalogue) ≡ true)
        × IsEntry
            (find_shipped table 0x0100B0C013912000)
            (said parse (statuses_of catalogue) 0x0100B0C013912000)
            (find table 0x0100B0C013912000 (refresh table plays (codes "Eden") catalogue start).0)
      ⊎ (heard parse (statuses_of catalogue) ≡ false)
        × (find table 0x0100B0C013912000 (refresh table plays (codes "Eden") catalogue start).0
            ≡ find table 0x0100B0C013912000 start))
    × ((heard non_empty (names_of catalogue) ≡ true)
          × (catalogue_name table 0x0100B0C013912000
                (refresh table plays (codes "Eden") catalogue start).0
              ≡ value_or
                  (said non_empty (names_of catalogue) 0x0100B0C013912000)
                  (catalogue_name table 0x0100B0C013912000 (record start { names = [] })))
        ⊎ (heard non_empty (names_of catalogue) ≡ false)
          × (catalogue_name table 0x0100B0C013912000
                (refresh table plays (codes "Eden") catalogue start).0
              ≡ catalogue_name table 0x0100B0C013912000 start))
find-refresh_example = find-refresh table plays (codes "Eden") catalogue start 0x0100B0C013912000
