-- ===== src/Api/Whole.antt =====
-- `ms_get_bitfields` from the tables of the program to the array that is handed out.
use maplesyrup.Base.{ℕ, refl, ◌≢◌, true, some, List, [], ◌∷◌, map, length}
use maplesyrup.Structs.{BitfieldInfoHeap}
use maplesyrup.Env.Yields.{Yields, bind-Yields, pure-Yields}
use maplesyrup.Breakout.Tables.{
  Globals, BitfieldTableEntry, total_size, read_tables_to_memory, erase_tables,
}
use maplesyrup.Breakout.Tables.Expand.{buffer, expand, AreSized}
use maplesyrup.Breakout.Tables.Layout.{read_tables_to_memory-expand}
use maplesyrup.Breakout.Lookup.First.{IsLoaded}
use maplesyrup.Breakout.Results.Indices.{Unique}
use maplesyrup.Breakout.Listing.{get_bitfields}
use maplesyrup.Breakout.Listing.Distinct.{listed}
use maplesyrup.Breakout.Listing.Names.{get_bitfields-all}
use maplesyrup.Api.{flatten_results}
use maplesyrup.Api.Flat.{element_of, flatten_results-map}
use maplesyrup.Api.Lists.{ms_get_listing, ms_get_bitfields}

-- The globals with the rows of the program in memory.
abbrev pub loaded_globals : ℕ → List BitfieldTableEntry → Globals
loaded_globals include_devices rows = record {
  table_heap = some (buffer (total_size rows) (expand include_devices 0 rows));
  table_size = length (expand include_devices 0 rows);
}

pub loaded_globals-IsLoaded :
    (include_devices : ℕ) (rows : List BitfieldTableEntry)
    → IsLoaded (loaded_globals include_devices rows) (expand include_devices 0 rows)
loaded_globals-IsLoaded include_devices rows = record {
  capacity = total_size rows;
  heap = refl;
  size = refl;
}

flatten-listed :
    (g : Globals) (table all : List BitfieldInfoHeap)
    → IsLoaded g table
    → all ≢ []
    → Yields
        (flatten_results g (some (map listed all)))
        (some (map (element_of table (length (map listed all))) (map listed all)))
flatten-listed g table [] loaded some_there = absurd (some_there refl)
flatten-listed g table (x ∷ xs) loaded some_there =
    flatten_results-map g loaded (listed x) (map listed xs)

-- With memory at hand, rows whose sizes are right, whose bytes fit an unsigned int and whose register names
-- have fewer than 31 bytes, and entries that have distinct codes, at least one,
-- `ms_get_bitfields` hands out an array with one element for each entry of the expanded tables, in order,
-- and leaves no table in memory.
pub ms_get_bitfields-table :
    (rows : List BitfieldTableEntry) (g : Globals) (include_devices : ℕ)
    → AreSized rows
    → Unique (expand include_devices 0 rows)
    → expand include_devices 0 rows ≢ []
    → Yields (ms_get_bitfields rows g true include_devices) (
      some (
          map
            (element_of
              (expand include_devices 0 rows)
              (length (map listed (expand include_devices 0 rows))))
            (map listed (expand include_devices 0 rows))),
      erase_tables (loaded_globals include_devices rows),
    )
unfolding ms_get_bitfields ms_get_listing
ms_get_bitfields-table rows g include_devices sized unique some_there =
    let table = expand include_devices 0 rows in
    let loaded = loaded_globals-IsLoaded include_devices rows in
    let h = loaded_globals include_devices rows in
    bind-Yields (read_tables_to_memory rows include_devices g) _
      ((read_tables_to_memory-expand rows include_devices g sized).0)
      (bind-Yields (get_bitfields h (some [])) _ (get_bitfields-all h table loaded unique) (
        bind-Yields (flatten_results h (some (map listed table))) _
          (flatten-listed h table table loaded some_there) (pure-Yields _)))
