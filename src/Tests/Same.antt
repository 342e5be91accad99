-- ===== src/Tests/Same.antt =====
-- A node that comes back from its trip as it was.
use frugal.Base.{[], ◌∷◌}
use frugal.Value.{Vals, num, str, nil, slice, go_map, struct, ptr, end, item, no_entries, entry}

abbrev leaf_vals : Vals
leaf_vals =
    item (num 9)
      (item (str (97 ∷ [])) (item nil (item (slice end) (item (go_map 0 no_entries) end))))

abbrev kept_vals : Vals
kept_vals = item (num 258) (
    item (str (98 ∷ [])) (
      item (ptr (struct leaf_vals [])) (
        item (slice (item (num 1) (item (num 2) end)))
          (item (go_map 1 (entry (num 3) (num 1) no_entries)) end))))
