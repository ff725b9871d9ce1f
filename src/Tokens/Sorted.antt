-- ===== src/Tokens/Sorted.antt =====
-- The sort of `build`, and `build` as a client sees it.
use mathlib.Core.List.{Perm}
use mathlib.Core.List.Perm
use clsp.Base.{
  ℕ, ◌≡◌, inl, inr, true, false, List, [], ◌∷◌, arith, ◌=ℕ=◌, ◌++◌, if◌then◌else◌, sym, ◌∙◌,
  append-nil, append_assoc, Bool-cases, All, string_eq,
}
use clsp.Tokens.{Token, less, insert, sort, build, push, clear, SemanticTokensBuilder}
use clsp.Tokens.Relative.{absolute, IsAfter, Ordered, Fits, absolute-relative}

less-IsAfter : (t u : Token) → less t u ≡ true → IsAfter t.line t.start_char u
unfolding less
less-IsAfter t u e = ground arith

less_not-IsAfter : (t u : Token) → less t u ≡ false → IsAfter u.line u.start_char t
unfolding less
less_not-IsAfter t u e = ground arith

insert-Ordered :
    (line char : ℕ) (t : Token) (us : List Token)
    → IsAfter line char t
    → Ordered line char us
    → Ordered line char (insert t us)
unfolding insert
insert-Ordered line char t [] a o = (a, tt)
insert-Ordered line char t (u ∷ us) a (au, o) = elim (Bool-cases (less t u)) [
  | inl e ↦ rw e (a, (less-IsAfter t u e, o))
  | inr e ↦ rw e (au, insert-Ordered u.line u.start_char t us (less_not-IsAfter t u e) o)
]

insert-Perm : (t : Token) (us : List Token) → Perm (insert t us) (t ∷ us)
unfolding insert
insert-Perm t [] = Perm.refl (t ∷ [])
insert-Perm t (u ∷ us) = elim (Bool-cases (less t u)) [
  | inl e ↦ rw e (Perm.refl (t ∷ u ∷ us))
  | inr e ↦ rw e (Perm.trans (Perm.cons u (insert-Perm t us)) (Perm.swap t u us))
]

insert-All :
    (P : Token → Type 0) (t : Token) (us : List Token) → P t → All P us → All P (insert t us)
unfolding insert
insert-All P t [] p ps = (p, tt)
insert-All P t (u ∷ us) p (q, ps) = elim (Bool-cases (less t u)) [
  | inl e ↦ rw e (p, (q, ps))
  | inr e ↦ rw e (q, insert-All P t us p ps)
]

IsAfter-zero : (t : Token) → IsAfter 0 0 t
IsAfter-zero t = ground arith

sort-Ordered : (ts : List Token) → Ordered 0 0 (sort ts)
unfolding sort
sort-Ordered [] = tt
sort-Ordered (t ∷ ts) = insert-Ordered 0 0 t (sort ts) (IsAfter-zero t) (sort-Ordered ts)

sort-Perm : (ts : List Token) → Perm (sort ts) ts
unfolding sort
sort-Perm [] = Perm.refl []
sort-Perm (t ∷ ts) = Perm.trans (insert-Perm t (sort ts)) (Perm.cons t (sort-Perm ts))

sort-All : (ts : List Token) → All Fits ts → All Fits (sort ts)
unfolding sort
sort-All [] fs = tt
sort-All (t ∷ ts) (f, fs) = insert-All Fits t (sort ts) f (sort-All ts fs)

-- Tokens that are pushed one after the other.
unfoldable pub push_all : List Token → SemanticTokensBuilder → SemanticTokensBuilder
unfolding push
push_all [] tokens = tokens
push_all (t ∷ ts) tokens = push_all ts (push t tokens)

-- The tokens that are not empty.
unfoldable pub non_empty : List Token → List Token
non_empty [] = []
non_empty (t ∷ ts) = let rest = non_empty ts in if t.length =ℕ= 0 then rest else t ∷ rest

push_all_lem :
    (ts : List Token) (tokens : SemanticTokensBuilder) → push_all ts tokens ≡ tokens ++ non_empty ts
unfolding push_all push non_empty
push_all_lem [] tokens = sym (append-nil tokens)
push_all_lem (t ∷ ts) tokens = elim (Bool-cases (t.length =ℕ= 0)) [
  | inl e ↦ rw e (push_all_lem ts tokens)
  | inr e ↦ rw e (push_all_lem ts (tokens ++ t ∷ []) ∙ append_assoc tokens (t ∷ []) (non_empty ts))
]

-- A client that reads the numbers of `build` after tokens were pushed, from a builder that was
-- cleared, finds each of them that is not of length zero once and no other, in the order of their
-- positions, whatever the order in which they were pushed. The lines and characters of these fit
-- `uint32_t`.
pub absolute-build :
    (ts : List Token) (before : SemanticTokensBuilder)
    → All Fits (non_empty ts)
    → Perm (absolute 0 0 (build (push_all ts (clear before)))) (non_empty ts)
      × Ordered 0 0 (absolute 0 0 (build (push_all ts (clear before))))
unfolding build clear
absolute-build ts before fs = rw (push_all_lem ts []) (
    rw
      (absolute-relative (sort (non_empty ts)) (sort-All (non_empty ts) fs)
        (sort-Ordered (non_empty ts)))
      (sort-Perm (non_empty ts), sort-Ordered (non_empty ts)))
