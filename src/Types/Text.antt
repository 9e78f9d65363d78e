-- ===== src/Types/Text.antt =====
-- types/text.go: a text as its bytes. ToBSON calls another package.
use mathlib.Core.List.{append-nil}
use wiredkv.Prelude.{
  ℕ, ◌≡◌, ◌↔◌, refl, ap, arith, Bool, true, false, ◌||◌, [], ◌∷◌, ◌++◌, length, list_eq, ◌==◌,
  nat_beq, ◌&&◌, Bool-cases, inl, inr,
}
use wiredkv.Prelude.Bytes.{Bytes}

pub record Text : Type 0 where
  pub content : Bytes
  pub ttl : ℕ

unfoldable pub new_text : Bytes → Text
new_text content = record { content = content; ttl = 0 }

unfoldable pub size : Text → ℕ
size t = length t.content

unfoldable pub append : Bytes → Text → Text
append content t = record t { content = t.content ++ content }

unfoldable pub starts_with : Bytes → Bytes → Bool
starts_with [] s = true
starts_with (p ∷ ps) [] = false
starts_with (p ∷ ps) (c ∷ s) = nat_beq p c && starts_with ps s

-- strings.Contains
unfoldable pub has_part : Bytes → Bytes → Bool
has_part [] target = starts_with target []
has_part (c ∷ s) target = starts_with target (c ∷ s) || has_part s target

unfoldable pub contains : Bytes → Text → Bool
contains target t = has_part t.content target

unfoldable pub equals : Text → Text → Bool
equals t u = t.content == u.content

unfoldable pub clone : Text → Text
clone t = record { content = t.content; ttl = t.ttl }

unfoldable pub clear : Text → Text
clear t = record { content = []; ttl = 0 }

starts_with-append : (p s : Bytes) → starts_with p (p ++ s) ≡ true
unfolding starts_with
starts_with-append [] s = refl
starts_with-append (c ∷ p) s = ground (arith, starts_with-append p s)

has_part-append : (pre p post : Bytes) → has_part (pre ++ (p ++ post)) p ≡ true
unfolding has_part
has_part-append [] [] [] = unfold starts_with in refl
has_part-append [] [] (c ∷ post) = unfold starts_with in refl
has_part-append [] (c ∷ p) post = ground (arith, starts_with-append (c ∷ p) post)
has_part-append (c ∷ pre) p post = ground (arith, has_part-append pre p post)

starts_with_split : (p s : Bytes) → starts_with p s ≡ true → (post : Bytes) × (s ≡ p ++ post)
unfolding starts_with
starts_with_split [] s h = (s, refl)
starts_with_split (c ∷ p) [] h = cc
starts_with_split (c ∷ p) (d ∷ s) h =
    let (post, e) = starts_with_split p s (ground arith) in (post, ground arith)

has_part_split : (s p : Bytes) → has_part s p ≡ true → (pre post : Bytes) × (s ≡ pre ++ (p ++ post))
unfolding has_part
has_part_split [] p h = let (post, e) = starts_with_split p [] h in ([], post, e)
has_part_split (c ∷ s) p h = elim (Bool-cases (starts_with p (c ∷ s))) [
  | inl front ↦ let (post, e) = starts_with_split p (c ∷ s) front in ([], post, e)
  | inr later ↦
      let (pre, post, e) = has_part_split s p (ground arith) in (c ∷ pre, post, ap (◌∷◌ c) e)
]

-- A text contains a target exactly when it is what stands before the target, the target, and what
-- stands after it; and what was appended is contained.
pub contains_exact :
    (t : Text) (target : Bytes)
    → ((contains target t ≡ true) ↔ ((pre post : Bytes) × (t.content ≡ pre ++ (target ++ post))))
      × (contains target (append target t) ≡ true)
unfolding contains append
contains_exact t target = (
  (has_part_split t.content target, λ (pre, post, e). rw e (has_part-append pre target post)),
  rw append-nil at (has_part-append t.content target []),
)
