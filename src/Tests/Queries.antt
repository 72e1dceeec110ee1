-- ===== src/Tests/Queries.antt =====
-- Queries at concrete inputs.
use podwatcher.Prelude.{◌≡◌, refl, true, false, [], ◌∷◌, ◌++◌, List, pos, map, arith}
use podwatcher.Store.{ApplicationRecord}
use podwatcher.Store.Query.{get_changes, matched}
use podwatcher.Store.Query.Pages.{IsPage, shown, get_changes-IsPage}
use podwatcher.Store.Query.Cursor.{get_changes-next_page, cursor}
use podwatcher.Tests.Samples.{three}

-- two of the three applications on the first page
first_page :
    (map (λ r. r.application_id) (shown (get_changes three three 0 (pos 2) "" [])) ≡ "a" ∷ "b" ∷ [])
    × ((get_changes three three 0 (pos 2) "" []).1 ≡ true)
unfolding three get_changes
first_page = (refl, refl)

get_changes-IsPage_example : IsPage three 0 (pos 2) "" [] (get_changes three three 0 (pos 2) "" [])
get_changes-IsPage_example = get_changes-IsPage three three 0 (pos 2) "" []

get_changes-next_page_example :
    let first = get_changes three three 0 (pos 2) "" [] in
    let second = get_changes three three (cursor 0 (shown first)) (pos 2) "" [] in
    (rest : List ApplicationRecord) × (shown first ++ (shown second ++ rest)
      ≡ matched three 0 "" [])
    × (second.1 ≡ false → rest ≡ [])
unfolding three matched
get_changes-next_page_example =
    get_changes-next_page three three three 0 (pos 2) (pos 2) "" [] (omega arith)
