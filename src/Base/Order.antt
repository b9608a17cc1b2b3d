-- ===== src/Base/Order.antt =====
-- Python's order of texts, by code points, and `sorted` on a list of texts.
use Prim.Native.Char.{code}
use Prim.Native.String.{String}
use mathlib.Core.Path.{◌≡◌, refl, ◌∙◌, ap₂}
use mathlib.Core.Logic.{∥∥₁_elim, inl, inr}
use mathlib.Core.Bool.{Bool, true, false}
use mathlib.Core.List.{List, [], ◌∷◌, Perm, Permᴰ}
use native.Mathlib.Omega.{arith}
use text.Mathlib.TextEquality.{Char-path, IsScalar-prop}
use gita.Base.Lists.{All, is_empty}
use gita.Base.Tests.{ltb, if◌then◌else◌, Bool-cases}

-- `s <= t`
pub text_le : String → String → Bool
text_le String.[] t = true
text_le (String.◌∷◌ c s) String.[] = false
text_le (String.◌∷◌ c s) (String.◌∷◌ d t) =
    let rest = text_le s t in
    if ltb (code c) (code d) then true else if ltb (code d) (code c) then false else rest

text_le_total : (s t : String) → text_le s t ≡ false → text_le t s ≡ true
unfolding text_le
text_le_total String.[] String.[] h = refl
text_le_total String.[] (String.◌∷◌ d t) h = cc
text_le_total (String.◌∷◌ c s) String.[] h = refl
text_le_total (String.◌∷◌ c s) (String.◌∷◌ d t) h = ground (arith, text_le_total s t)

text_le_trans : (s t u : String) → text_le s t ≡ true → text_le t u ≡ true → text_le s u ≡ true
unfolding text_le
text_le_trans String.[] t u h k = refl
text_le_trans (String.◌∷◌ c s) String.[] u h k = cc
text_le_trans (String.◌∷◌ c s) (String.◌∷◌ d t) String.[] h k = cc
text_le_trans (String.◌∷◌ c s) (String.◌∷◌ d t) (String.◌∷◌ e u) h k =
    ground (arith, text_le_trans s t u)

text_le_antisymm : (s t : String) → text_le s t ≡ true → text_le t s ≡ true → s ≡ t
unfolding text_le
text_le_antisymm String.[] String.[] h k = refl
text_le_antisymm String.[] (String.◌∷◌ d t) h k = cc
text_le_antisymm (String.◌∷◌ c s) String.[] h k = cc
text_le_antisymm (String.◌∷◌ c s) (String.◌∷◌ d t) h k =
    ap₂ String.◌∷◌ (Char-path c d (ground arith))
      (text_le_antisymm s t (ground arith) (ground arith))

insert : String → List String → List String
insert a [] = a ∷ []
insert a (b ∷ l) = if text_le a b then a ∷ b ∷ l else b ∷ insert a l

-- `sorted(xs)`
unfoldable pub sorted : List String → List String
unfolding insert text_le
sorted [] = []
sorted (a ∷ l) = insert a (sorted l)

is_empty-insert : (a : String) (l : List String) → is_empty (insert a l) ≡ false
unfolding insert
is_empty-insert a [] = refl
is_empty-insert a (b ∷ l) = ground arith

pub is_empty-sorted : (l : List String) → is_empty (sorted l) ≡ is_empty l
unfolding sorted
is_empty-sorted [] = refl
is_empty-sorted (a ∷ l) = is_empty-insert a (sorted l)

insert_comm : (a b : String) (l : List String) → insert a (insert b l) ≡ insert b (insert a l)
unfolding insert
insert_comm a b [] = ground (arith, text_le_total a b, text_le_total b a, text_le_antisymm a b)
insert_comm a b (x ∷ l) = ground (
  arith,
  insert_comm a b l,
  text_le_total a b,
  text_le_total b a,
  text_le_antisymm a b,
  text_le_trans a b x,
  text_le_trans b a x,
  text_le_total a x,
  text_le_total b x,
  text_le_trans a x b,
  text_le_trans b x a,
)

sorted-permᴰ : {xs ys : List String} → Permᴰ xs ys → sorted xs ≡ sorted ys
unfolding sorted
sorted-permᴰ Permᴰ.nil = refl
sorted-permᴰ (Permᴰ.cons e h) = ap₂ insert e (sorted-permᴰ h)
sorted-permᴰ (Permᴰ.swap {a} {b} {l} e f) =
    insert_comm a b (sorted l) ∙ ap₂ (λ c d. insert c (insert d (sorted l))) f e
sorted-permᴰ (Permᴰ.trans h k) = sorted-permᴰ h ∙ sorted-permᴰ k

-- A sorted list forgets the order that the texts came in.
pub sorted-perm : {xs ys : List String} → Perm xs ys → sorted xs ≡ sorted ys
sorted-perm {xs} {ys} h =
    let texts_set : IsSet (List String) = hlevel IsScalar-prop in
    ∥∥₁_elim h (texts_set (sorted xs) (sorted ys)) sorted-permᴰ

insert-All {κ} :
    (P : String → Type κ) (a : String) (l : List String) → P a → All P l → All P (insert a l)
unfolding insert
insert-All P a [] h _ = (h, tt)
insert-All P a (b ∷ l) h (k, ks) = elim (Bool-cases (text_le a b)) [
  | inl below ↦ rw below (h, (k, ks))
  | inr above ↦ rw above (k, insert-All P a l h ks)
]

pub sorted-All {κ} : (P : String → Type κ) (l : List String) → All P l → All P (sorted l)
unfolding sorted
sorted-All P [] _ = tt
sorted-All P (a ∷ l) (h, hs) = insert-All P a (sorted l) h (sorted-All P l hs)
