-- ===== src/Decode/RoundTrip/Keys.antt =====
-- Entries of different keys, put into a map one after the other.
use frugal.Base.{◌≡◌, refl, ap}
use frugal.Types.{DefType}
use frugal.Value.{Val, Entries, no_entries, entry}
use frugal.Decode.Containers.{set_map_index}
use frugal.Decode.Result.{IsNoKey}

unfoldable pub join : Entries → Entries → Entries
join no_entries fs = fs
join (entry k v es) fs = entry k v (join es fs)

pub join-nil : (es : Entries) → join es no_entries ≡ es
unfolding join
join-nil no_entries = refl
join-nil (entry k v es) = ap (λ z. entry k v z) (join-nil es)

pub join-one :
    (es : Entries) (k v : Val) (fs : Entries)
    → join (join es (entry k v no_entries)) fs ≡ join es (entry k v fs)
unfolding join
join-one no_entries k v fs = refl
join-one (entry k' v' es) k v fs = ap (λ z. entry k' v' z) (join-one es k v fs)

-- No key of the first entries is one of the second.
abbrev pub AreApart : DefType → Entries → Entries → Type 0
AreApart kt no_entries fs = Unit
AreApart kt (entry k v es) fs = IsNoKey kt k fs × AreApart kt es fs

pub set_map_index-join :
    (kt : DefType) (es : Entries) (k v : Val) (fs : Entries)
    → AreApart kt es (entry k v fs)
    → set_map_index kt es k v ≡ join es (entry k v no_entries)
unfolding join set_map_index
set_map_index-join kt no_entries k v fs h = refl
set_map_index-join kt (entry k' v' es) k v fs ((e, _), h) =
    rw (e, set_map_index-join kt es k v fs h) refl

pub apart-join :
    (kt : DefType) (es : Entries) (k v : Val) (fs : Entries)
    → AreApart kt es (entry k v fs)
    → IsNoKey kt k fs
    → AreApart kt (join es (entry k v no_entries)) fs
unfolding join
apart-join kt no_entries k v fs h q = (q, tt)
apart-join kt (entry k' v' es) k v fs ((_, n), h) q = (n, apart-join kt es k v fs h q)
