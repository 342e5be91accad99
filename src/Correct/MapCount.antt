-- ===== src/Correct/MapCount.antt =====
-- What checkMapN of append_map.go detects.
use frugal.Base.{ℕ, suc, ◌%◌, ◌^◌, ◌<◌, ◌≡◌, ◌⊎◌, inl, inr, arith, List, [], ◌∷◌, some, length, ok}
use frugal.Base.{Outcome, Ensures, Ensures-bind, Ensures-ok, Bool-cases, ◌==◌, ==_iff}
use frugal.Wire.{Buf}
use frugal.Types.{DefType}
use frugal.Child.{Child}
use frugal.Encode.MapLoop.{
  Put, map_loop, append_map, append_map_any_any, map_len, map_entries, check_map_n, decrement,
}
use frugal.Encode.MapLoop.{append_map_header}
use frugal.Encode.{append_any}

module _ (putk putv : Put) where
  map_loop-count :
      (es : List (Child × Child)) (n : ℕ) (b : Buf)
      → n < 2 ^ 32
      → Ensures (λ out. length es % 2 ^ 32 ≡ n) (map_loop putk putv n es b)
  unfolding map_loop check_map_n
  map_loop-count [] n b h = elim (Bool-cases (n == 0)) [
    | inl e ↦ rw e (omega (arith, (==_iff n 0).0 e))
    | inr e ↦ rw e tt
  ]
  map_loop-count ((k, v) ∷ es) n b h =
      Ensures-bind (λ out. suc (length es) % 2 ^ 32 ≡ n) (putk b k) _
        λ b₁ e₁.
          Ensures-bind (λ out. suc (length es) % 2 ^ 32 ≡ n) (putv b₁ v) _
            λ b₂ e₂.
              counted (map_loop putk putv (decrement n) es b₂)
                (map_loop-count es (decrement n) b₂ (omega arith))
    where
      counted :
          (m : Outcome Buf)
          → Ensures (λ out. length es % 2 ^ 32 ≡ decrement n) m
          → Ensures (λ out. suc (length es) % 2 ^ 32 ≡ n) m
      counted (ok out) q = omega (arith, q)
      counted _ q = tt

-- A map that is appended without an error had as many entries in its iteration as its header
-- counted, modulo 2^32, or a count of zero modulo 2^32.
pub append_map_any_any-counts :
    (kt vt : DefType) (b out : Buf) (count : ℕ) (es : List (Child × Child))
    → append_map_any_any kt vt b (some (count, es)) ≡ ok out
    → (count % 2 ^ 32 ≡ 0) ⊎ (length es % 2 ^ 32 ≡ count % 2 ^ 32)
unfolding append_map_any_any append_map map_len map_entries
append_map_any_any-counts kt vt b out count es h = elim (Bool-cases (count % 2 ^ 32 == 0)) [
  | inl e ↦ inl ((==_iff (count % 2 ^ 32) 0).0 e)
  | inr e ↦ inr (
      Ensures-ok (λ r. length es % 2 ^ 32 ≡ count % 2 ^ 32) (rw e at (h))
        (map_loop-count (append_any kt) (append_any vt) es (count % 2 ^ 32)
          (append_map_header kt vt b (some (count, es))) (omega arith)))
]
