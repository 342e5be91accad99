-- ===== src/Encode/MapLoop.antt =====
-- The header and the loop over the entries that all map functions share: appendMapHeader,
-- checkMapN and appendMapAnyAny of internal/reflect/append_map.go.
use frugal.Base.{ℕ, ◌+◌, ◌-◌, ◌%◌, ◌^◌, List, [], ◌∷◌, ◌++◌, Option, none, some}
use frugal.Base.{Outcome, ok, err, map_size_changed, ◌>>=◌, ◌==◌, if◌then◌else◌}
use frugal.Wire.{Buf, byte, append_uint32}
use frugal.Types.{DefType, wire_type}
use frugal.Child.{Child}
use frugal.Encode.{append_any}

-- A map pointer: `none` if it is nil, and else the count of the map's header (`maplen`) with the
-- entries that an iteration meets. They differ if the map changes while it is encoded.
abbrev pub GoMap : Type 0
GoMap = Option (ℕ × List (Child × Child))

abbrev pub MapFunc : Type 0
MapFunc = DefType → DefType → Buf → GoMap → Outcome Buf

-- What appends one key or one value.
abbrev pub Put : Type 0
Put = Buf → Child → Outcome Buf

unfoldable pub map_len : GoMap → ℕ
map_len none = 0
map_len (some (count, es)) = count % 2 ^ 32

unfoldable pub map_entries : GoMap → List (Child × Child)
map_entries none = []
map_entries (some (count, es)) = es

unfoldable pub append_map_header : DefType → DefType → Buf → GoMap → Buf
unfolding map_len
append_map_header kt vt b m =
    append_uint32 (b ++ (byte (wire_type kt) ∷ byte (wire_type vt) ∷ [])) (map_len m)

-- `n--` on a uint32.
abbrev pub decrement : ℕ → ℕ
decrement n = (n + (2 ^ 32 - 1)) % 2 ^ 32

unfoldable pub check_map_n : ℕ → Buf → Outcome Buf
check_map_n n b = if n == 0 then ok b else err map_size_changed

-- `for k, v := range m { n--; put k; put v }; return b, checkMapN(n)`
unfoldable pub map_loop : Put → Put → ℕ → List (Child × Child) → Buf → Outcome Buf
unfolding check_map_n
map_loop putk putv n [] b = check_map_n n b
map_loop putk putv n ((k, v) ∷ es) b = do
  b₁ ← putk b k
  b₂ ← putv b₁ v
  map_loop putk putv (decrement n) es b₂

unfoldable pub append_map : Put → Put → MapFunc
append_map putk putv kt vt b m =
    if map_len m == 0
    then ok (append_map_header kt vt b m)
    else map_loop putk putv (map_len m) (map_entries m) (append_map_header kt vt b m)

unfoldable pub append_map_any_any : MapFunc
unfolding append_map
append_map_any_any kt vt = append_map (append_any kt) (append_any vt) kt vt
