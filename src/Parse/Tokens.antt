-- ===== src/Parse/Tokens.antt =====
-- The parts of the parser that read tokens return, with a value or an error.
use frugal.Base.{ℕ, ◌≡◌, refl, Bool, true, false, ◌&&◌, ◌||◌, [], ◌∷◌}
use frugal.Base.{Answers, Answers-bind, Answers-if}
use mathlib.Core.Bool.{not}
use frugal.Wire.{Buf}
use frugal.Child.{bytes_eq}
use frugal.Parse.{
  token_at, read_token, contains, starts_ident, match_token, do_match_struct, match_type, delimiter,
  map_delimiter,
}

abbrev pub Anything {ℓ} : {A : Type ℓ} → A → Type 0
Anything a = Unit

abbrev pub IsToken : Bool → Buf × ℕ → Type 0
IsToken eofok ([], i) = eofok ≡ true
IsToken eofok (c ∷ cs, i) = Unit

pub read_token-Answers :
    (src : Buf) (i : ℕ) (eofok : Bool) → Answers (IsToken eofok) (read_token src i eofok)
unfolding read_token
read_token-Answers src i eofok = at_rest eofok _ _
  where
    at_rest : (eofok : Bool) (p : ℕ) (cs : Buf) → Answers (IsToken eofok) (token_at eofok i p cs)
    at_rest true p [] = unfold token_at in refl
    at_rest false p [] = unfold token_at in tt
    at_rest eofok p (c ∷ cs) = unfold token_at in tt

pub starts_ident-Answers : (r : Buf × ℕ) → IsToken false r → Answers Anything (starts_ident r.0)
unfolding starts_ident
starts_ident-Answers ([], i) h = cc
starts_ident-Answers (c ∷ cs, i) h = tt

pub do_match_struct-Answers :
    (tn : Buf) (is_struct : Bool) (def : Buf) (i : ℕ) (tv : Buf)
    → Answers Anything (do_match_struct tn is_struct def i tv)
unfolding do_match_struct match_token
do_match_struct-Answers tn is_struct def i tv =
    Answers-bind (IsToken true) _ (read_token def i true) _ (read_token-Answers def i true)
      λ (tok, sp) _.
        Answers-if _ (bytes_eq tn [] && is_struct) _ _ (λ e. tt)
          λ e.
            Answers-if _ (bytes_eq tok [] || (bytes_eq tok (58 ∷ []) || bytes_eq tok (62 ∷ []))) _ _
              (λ e. tt)
              λ e.
                Answers-if _ (not (bytes_eq tok (46 ∷ []))) _ _ (λ e. tt)
                  λ e.
                    Answers-bind (IsToken false) _ (read_token def sp false) _
                      (read_token-Answers def sp false)
                      λ r h.
                        Answers-bind Anything _ (starts_ident r.0) _ (starts_ident-Answers r h)
                          λ ident _. Answers-if _ ident _ _ (λ e. tt) (λ e. tt)

pub match_type-Answers :
    (tn : Buf) (is_struct : Bool) (keyword def : Buf) (i : ℕ)
    → Answers Anything (match_type tn is_struct keyword def i)
unfolding match_type
match_type-Answers tn is_struct keyword def i =
    Answers-if _ (bytes_eq def []) _ _ (λ e. tt)
      λ e.
        Answers-bind (IsToken false) _ (read_token def i false) _ (read_token-Answers def i false)
          λ r h.
            Answers-if _ (contains keyword r.0) _ _ (λ e. tt)
              λ e.
                Answers-bind Anything _ (starts_ident r.0) _ (starts_ident-Answers r h) λ ident _.
                  Answers-if _ (not ident) _ _ (λ e. tt)
                    λ e.
                      Answers-bind Anything _ (do_match_struct tn is_struct def r.1 r.0) _
                        (do_match_struct-Answers tn is_struct def r.1 r.0)
                        λ (matched, tv', i₂) _. Answers-if _ matched _ _ (λ e. tt) (λ e. tt)

pub delimiter-Answers : (c : ℕ) (def : Buf) (i : ℕ) → Answers Anything (delimiter c def i)
unfolding delimiter
delimiter-Answers c def i =
    Answers-bind (IsToken false) _ (read_token def i false) _ (read_token-Answers def i false)
      λ (tk, j) _. Answers-if _ (bytes_eq tk (c ∷ [])) _ _ (λ e. tt) (λ e. tt)

pub map_delimiter-Answers : (c : ℕ) (def : Buf) (i : ℕ) → Answers Anything (map_delimiter c def i)
unfolding map_delimiter
map_delimiter-Answers c def i =
    Answers-if _ (bytes_eq def []) _ _ (λ e. tt) (λ e. delimiter-Answers c def i)
