-- ===== src/Prefetch/Calls.antt =====
-- The outcomes of the calls of internal/reflect/desc.go that write its caches.
use frugal.Base.{inl, inr, sym, List, [], ◌∷◌, ◌++◌, Outcome, ok, err, panic, fault, stuck}
use frugal.Desc.{TField}
use frugal.Prefetch.{StructType, Cache, Action, and_then, or_delete}
use frugal.Prefetch.Keys.{Has, struct_types, Has-cases, Has-append_cases, not_Has-nil}

-- The struct types of the fields.
abbrev pub all_struct_types : List TField → List StructType
all_struct_types [] = []
all_struct_types (f ∷ fs) = struct_types f.type ++ all_struct_types fs

abbrev pub Linked : Cache → List StructType → Type 0
Linked c ks = (k : StructType) → Has ks k → Has c.linked k

-- The call returned an error, did panic, or left caches with the property.
unfoldable pub Does : (Cache → Type 0) → Outcome (Unit {0}) × Cache → Type 0
Does Q (r, c) = elim r [ ok _ ↦ Q c | stuck ↦ ⊥ | _ ↦ Unit {0} ]

pub Does-and_then :
    (Q P : Cache → Type 0) (r : Outcome (Unit {0}) × Cache) (k : Action)
    → Does Q r
    → ((c : Cache) → Q c → Does P (k c))
    → Does P (and_then r k)
unfolding Does
Does-and_then Q P (ok u, c) k q h = h c q
Does-and_then Q P (err e, c) k q h = tt
Does-and_then Q P (panic, c) k q h = tt
Does-and_then Q P (fault, c) k q h = tt
Does-and_then Q P (stuck, c) k q h = q

pub Does-or_delete :
    (Q P : Cache → Type 0) (k : StructType) (r : Outcome (Unit {0}) × Cache)
    → Does Q r
    → ((c : Cache) → Q c → P c)
    → Does P (or_delete k r)
unfolding Does or_delete
Does-or_delete Q P k (ok u, c) q h = h c q
Does-or_delete Q P k (err e, c) q h = tt
Does-or_delete Q P k (panic, c) q h = tt
Does-or_delete Q P k (fault, c) q h = tt
Does-or_delete Q P k (stuck, c) q h = q

abbrev pub Grows : Cache → Cache → Type 0
Grows c c' =
    ((k : StructType) → Has c.descs k → Has c'.descs k)
    × ((k : StructType) → Has c.linked k → Has c'.linked k)

pub Grows-trans : (a b c : Cache) → Grows a b → Grows b c → Grows a c
Grows-trans a b c g h = (λ k q. h.0 k (g.0 k q), λ k q. h.1 k (g.1 k q))

pub Does-weaken :
    (Q P : Cache → Type 0) (r : Outcome (Unit {0}) × Cache)
    → Does Q r
    → ((c : Cache) → Q c → P c)
    → Does P r
unfolding Does
Does-weaken Q P (ok u, c) q h = h c q
Does-weaken Q P (err e, c) q h = tt
Does-weaken Q P (panic, c) q h = tt
Does-weaken Q P (fault, c) q h = tt
Does-weaken Q P (stuck, c) q h = q

pub Linked-one : (k : StructType) (c : Cache) → Has c.linked k → Linked c (k ∷ [])
Linked-one k c h j q = elim (Has-cases k j [] q) [
  | inl e ↦ rw (sym e) h
  | inr e ↦ absurd (not_Has-nil j e)
]

pub Linked-append :
    (js ks : List StructType) (c : Cache) → Linked c js → Linked c ks → Linked c (js ++ ks)
Linked-append js ks c f g k q = elim (Has-append_cases js ks k q) [ inl e ↦ f k e | inr e ↦ g k e ]
